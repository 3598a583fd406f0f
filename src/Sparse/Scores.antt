-- ===== src/Sparse/Scores.antt =====
-- What crates/surgedb-core/src/sparse/index.rs and rrf.rs share: adding up scores under ids, and the
-- sorting of the sums.
use zapybase.Prelude.{Option, none, some, List, [], ◌∷◌, if◌then◌else◌}
use zapybase.Prelude.Eq.{nat_eq}
use zapybase.Collections.HashMap
use zapybase.Collections.HashMap.{HashMap}
use zapybase.Float.{Float, is_greater}
use zapybase.Storage.{InternalId}

module _ (f32 : Float) where
  abbrev pub or_default : Option f32.Num → f32.Num
  or_default none = f32.from_nat 0
  or_default (some x) = x

  -- `*scores.entry(id).or_default() += score`
  unfoldable pub add_score :
      HashMap InternalId f32.Num → InternalId → f32.Num → HashMap InternalId f32.Num
  add_score scores id score =
      HashMap.insert scores id (f32.add (or_default (HashMap.get scores id)) score)

  -- `sort_by(|a, b| b.1.partial_cmp(&a.1).unwrap_or(Equal))`, which is stable
  unfoldable pub insert_by_score :
      InternalId × f32.Num → List (InternalId × f32.Num) → List (InternalId × f32.Num)
  insert_by_score a [] = a ∷ []
  insert_by_score a (b ∷ bs) =
      let rest = insert_by_score a bs in
      if is_greater (f32.partial_cmp b.1 a.1) then b ∷ rest else a ∷ b ∷ bs

  unfoldable pub sort_by_score : List (InternalId × f32.Num) → List (InternalId × f32.Num)
  sort_by_score [] = []
  sort_by_score (a ∷ bs) = insert_by_score a (sort_by_score bs)
