-- ===== src/Sparse/Erased.antt =====
-- `remove_from` of crates/surgedb-core/src/sparse/index.rs: which element leaves a posting list.
use zapybase.Prelude.{
  ℕ, suc, ◌≡◌, refl, ◌∙◌, ap, false, Option, none, some, List, [], ◌∷◌, ◌++◌, length, take,
  take-All, length-take, get_elem?, set, All, arith,
}
use zapybase.Prelude.Eq.{nat_eq, ◌==◌}
use zapybase.Float.{Float}
use zapybase.Storage.{InternalId}
use zapybase.Sparse.{swap_remove, position, remove_from}

module _ {ℓ} {A : Type ℓ} where
  swap_remove_step :
      (x y : A) (ys : List A) (pos : ℕ)
      → swap_remove (suc pos) (x ∷ y ∷ ys) ≡ x ∷ swap_remove pos (y ∷ ys)
  unfolding swap_remove
  swap_remove_step x y ys pos = go (get_elem? (y ∷ ys) (length ys))
    where
      go :
          (last : Option A)
          → (elim last as (λ o. List A) [
            | none ↦ x ∷ y ∷ ys
            | some l ↦ take (suc (length ys)) (set (x ∷ y ∷ ys) (suc pos) l)
          ])
            ≡ x ∷ (elim last as (λ o. List A) [
              | none ↦ y ∷ ys
              | some l ↦ take (length ys) (set (y ∷ ys) pos l)
            ])
      go none = refl
      go (some l) = refl

  last-All :
      (p : A → Type 0) (x : A) (xs : List A)
      → All p (x ∷ xs)
      → (l : A) × (get_elem? (x ∷ xs) (length xs) ≡ some l) × p l
  last-All p x [] (q, qs) = (x, refl, q)
  last-All p x (y ∷ ys) (q, qs) = last-All p y ys qs

  swap_remove_first :
      (p : A → Type 0) (x : A) (xs : List A)
      → All p (x ∷ xs)
      → All p (swap_remove 0 (x ∷ xs)) × (length (swap_remove 0 (x ∷ xs)) ≡ length xs)
  unfolding swap_remove
  swap_remove_first p x [] ps = (tt, refl)
  swap_remove_first p x (y ∷ ys) (q, qs) =
      let (l, at, ql) = last-All p y ys qs in
      rw at
        ((ql, take-All p (length ys) (y ∷ ys) qs), omega (arith, length-take (length ys) (y ∷ ys)))

module _ (f32 : Float) where
  pub remove_from_nil : (id : InternalId) → remove_from f32 id [] ≡ []
  unfolding remove_from position
  remove_from_nil id = refl

  pub remove_from_absent :
      (id : InternalId) (list : List (InternalId × f32.Num))
      → position f32 id list ≡ none
      → remove_from f32 id list ≡ list
  unfolding remove_from
  remove_from_absent id list absent = rw (remove_from, absent) refl

  position-cons :
      (id : InternalId) (x : InternalId × f32.Num) (list : List (InternalId × f32.Num))
      → (x.0 == id) ≡ false
      → (pos : ℕ) → position f32 id list ≡ some pos
      → position f32 id (x ∷ list) ≡ some (suc pos)
  unfolding position
  position-cons id x list other pos at = rw (other, at) (ap some (omega arith))

  position_cases :
      (id : InternalId) (x : InternalId × f32.Num) (list : List (InternalId × f32.Num))
      → position f32 id (x ∷ list) ≡ none
      → ((x.0 == id) ≡ false) × (position f32 id list ≡ none)
  unfolding position
  position_cases id x list absent = ground (arith, absent)

  position-append :
      (id : InternalId) (xs ps : List (InternalId × f32.Num)) (p : InternalId × f32.Num)
      → position f32 id xs ≡ none
      → p.0 ≡ id
      → position f32 id (xs ++ p ∷ ps) ≡ some (length xs)
  unfolding position
  position-append id [] ps p absent same = rw ((nat_eq.beq_iff p.0 id).1 same) refl
  position-append id (x ∷ xs) ps p absent same =
      let (other, later) = position_cases id x xs absent in
      position-cons id x (xs ++ p ∷ ps) other (length xs) (position-append id xs ps p later same)

  remove_from-cons :
      (id : InternalId) (x : InternalId × f32.Num) (list : List (InternalId × f32.Num))
      → (x.0 == id) ≡ false
      → (pos : ℕ) → position f32 id list ≡ some pos
      → remove_from f32 id (x ∷ list) ≡ x ∷ remove_from f32 id list
  unfolding remove_from position
  remove_from-cons id x [] other pos at = grind (arith, at)
  remove_from-cons id x (p ∷ list) other pos at =
      let shifted = position-cons id x (p ∷ list) other pos at in
      rw (remove_from, shifted, at) (swap_remove_step x p list pos)

  -- removing the first of the elements of an id that stand at the end leaves one element less of it
  remove_from-append :
      (id : InternalId) (xs ps : List (InternalId × f32.Num)) (p : InternalId × f32.Num)
      → position f32 id xs ≡ none
      → All (λ e. e.0 ≡ id) (p ∷ ps)
      → (rest : List (InternalId × f32.Num)) × (remove_from f32 id (xs ++ p ∷ ps) ≡ xs ++ rest)
        × All (λ e. e.0 ≡ id) rest
        × (length rest ≡ length ps)
  unfolding remove_from
  remove_from-append id [] ps p absent same =
      let (ids, len) = swap_remove_first (λ e. e.0 ≡ id) p ps same in
      let at = position-append id [] ps p absent same.0 in
      (swap_remove 0 (p ∷ ps), rw (remove_from, at) refl, ids, len)
  remove_from-append id (x ∷ xs) ps p absent same =
      let (other, later) = position_cases id x xs absent in
      let (rest, removes, ids, len) = remove_from-append id xs ps p later same in
      let at = position-append id xs ps p later same.0 in
      (
        rest,
        remove_from-cons id x (xs ++ p ∷ ps) other (length xs) at ∙ ap (λ t. x ∷ t) removes,
        ids,
        len,
      )

  pub removed_first :
      (id : InternalId) (xs ps : List (InternalId × f32.Num)) (n : ℕ)
      → position f32 id xs ≡ none
      → All (λ e. e.0 ≡ id) ps
      → length ps ≡ suc n
      → (rest : List (InternalId × f32.Num)) × (remove_from f32 id (xs ++ ps) ≡ xs ++ rest)
        × All (λ e. e.0 ≡ id) rest
        × (length rest ≡ n)
  removed_first id xs [] n absent ids len = grind (arith, len)
  removed_first id xs (p ∷ ps) n absent ids len =
      let (rest, removes, same, fewer) = remove_from-append id xs ps p absent ids in
      (rest, removes, same, omega (arith, fewer, len))
