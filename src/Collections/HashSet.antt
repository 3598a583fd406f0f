-- ===== src/Collections/HashSet.antt =====
-- `std::collections::HashSet`: a list without repetitions, in the order of insertion.
use zapybase.Prelude.{suc, ◌≡◌, refl, false, ◌||◌, List, [], ◌∷◌, arith, length, if◌then◌else◌}
use zapybase.Prelude.Eq.{Eq, ◌==◌, contains}

module _ {ℓ} {A : Type ℓ} ⦃e : Eq A⦄ where
  unfoldable pub insert : List A → A → List A
  unfolding contains
  insert xs a = if contains xs a then xs else a ∷ xs

  pub contains-insert :
      (xs : List A) (a b : A) → contains (insert xs a) b ≡ ((a == b) || contains xs b)
  unfolding contains insert
  contains-insert xs a b = ground (arith, e.beq_iff a b)

  pub contains-nil : (a : A) → contains [] a ≡ false
  unfolding contains
  contains-nil a = refl

  pub length-insert_new :
      (xs : List A) (a : A) → contains xs a ≡ false → length (insert xs a) ≡ suc (length xs)
  unfolding insert
  length-insert_new xs a h = rw h refl

pub ruleset set_laws = (contains-nil, contains-insert)
