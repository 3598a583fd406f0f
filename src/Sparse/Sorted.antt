-- ===== src/Sparse/Sorted.antt =====
-- The sorting of scores in crates/surgedb-core/src/sparse: it keeps what is found under an id, and
-- what is cut off it is no greater than the rest.
use Prim.Native.Nat.{Ordering}
use zapybase.Prelude.{
  ℕ, zero, suc, ◌≡◌, refl, sym, ◌∙◌, ap, subst, inl, inr, true, false, none, some, List, [], ◌∷◌,
  length, take, take-All, All, arith, if◌then◌else◌, Bool-cases,
}
use zapybase.Prelude.Eq.{nat_eq, ◌==◌, beq_refl}
use zapybase.Collections.HashMap.{lookup, KeysDiffer}
use zapybase.Float.{Float, is_greater}
use zapybase.Storage.{InternalId}
use zapybase.Sparse.Scores.{insert_by_score, sort_by_score}

-- not a NaN
abbrev pub IsNumber : (f32 : Float) → f32.Num → Type 0
IsNumber f32 x = f32.partial_cmp x x ≡ some Ordering.eq

-- what `>` of floats promises
pub record IsWeakOrder (f32 : Float) : Type 0 where
  pub asymmetric :
      (x y : f32.Num)
      → is_greater (f32.partial_cmp x y) ≡ true
      → is_greater (f32.partial_cmp y x) ≡ false
  pub between :
      (x y z : f32.Num)
      → IsNumber f32 y
      → is_greater (f32.partial_cmp x y) ≡ false
      → is_greater (f32.partial_cmp y z) ≡ false
      → is_greater (f32.partial_cmp x z) ≡ false

module _ (f32 : Float) where
  -- no element exceeds an earlier one
  abbrev pub Ordered : List (InternalId × f32.Num) → Type 0
  Ordered [] = Unit
  Ordered (a ∷ bs) = All (λ b. is_greater (f32.partial_cmp b.1 a.1) ≡ false) bs × Ordered bs

module _ {ℓ} {V : Type ℓ} where
  pub All-lookup :
      (p : ℕ × V → Type 0) (es : List (ℕ × V))
      → KeysDiffer es
      → ((k : ℕ) (v : V) → lookup k es ≡ some v → p (k, v))
      → All p es
  unfolding lookup
  All-lookup p [] d h = tt
  All-lookup p ((j, w) ∷ es) d h = (
    h j w (rw (beq_refl j) refl),
    All-lookup p es d.1 (λ k v found. elim (Bool-cases (j == k)) [
      | inl same ↦
          let at : lookup k es ≡ none =
            subst (λ i. lookup i es ≡ none) ((nat_eq.beq_iff j k).0 same) d.0 in
          grind (arith, at, found)
      | inr other ↦ h k v (rw other found)
    ]),
  )

  some_injective : (v w : V) → some v ≡ some w → v ≡ w
  some_injective v w h = grind arith

  lookup-All :
      (p : V → Type 0) (es : List (ℕ × V))
      → All (λ e. p e.1) es
      → (k : ℕ) (v : V) → lookup k es ≡ some v
      → p v
  unfolding lookup
  lookup-All p [] ps k v found = grind arith
  lookup-All p ((j, w) ∷ es) (q, ps) k v found = elim (Bool-cases (j == k)) [
    | inl same ↦ subst p (some_injective w v (sym (rw same refl) ∙ found)) q
    | inr other ↦ lookup-All p es ps k v (sym (rw other refl) ∙ found)
  ]

module _ (f32 : Float) where
  lookup-take :
      (k : ℕ) (es : List (InternalId × f32.Num)) (id : InternalId)
      → lookup id es ≡ none
      → lookup id (take k es) ≡ none
  unfolding lookup
  lookup-take zero es id new = refl
  lookup-take (suc k) [] id new = refl
  lookup-take (suc k) (a ∷ es) id new = ground (arith, lookup-take k es id)

  lookup-insert_by_score :
      (a : InternalId × f32.Num) (es : List (InternalId × f32.Num)) (k : InternalId)
      → lookup a.0 es ≡ none
      → lookup k (insert_by_score f32 a es) ≡ (if a.0 == k then some a.1 else lookup k es)
  unfolding lookup insert_by_score
  lookup-insert_by_score a [] k new = refl
  lookup-insert_by_score a (b ∷ es) k new = ground (
    arith,
    nat_eq.beq_iff b.0 a.0,
    nat_eq.beq_iff a.0 k,
    nat_eq.beq_iff b.0 k,
    lookup-insert_by_score a es k,
  )

  insert_by_score-KeysDiffer :
      (a : InternalId × f32.Num) (es : List (InternalId × f32.Num))
      → lookup a.0 es ≡ none
      → KeysDiffer es
      → KeysDiffer (insert_by_score f32 a es)
  unfolding lookup insert_by_score
  insert_by_score-KeysDiffer a [] new d = (refl, tt)
  insert_by_score-KeysDiffer a (b ∷ es) new d = ground (
    arith,
    nat_eq.beq_iff b.0 a.0,
    nat_eq.beq_iff a.0 b.0,
    lookup-insert_by_score a es b.0,
    insert_by_score-KeysDiffer a es,
  )

  insert_by_score-All :
      (p : InternalId × f32.Num → Type 0) (a : InternalId × f32.Num)
      (es : List (InternalId × f32.Num))
      → p a
      → All p es
      → All p (insert_by_score f32 a es)
  unfolding insert_by_score
  insert_by_score-All p a [] q ps = (q, tt)
  insert_by_score-All p a (b ∷ es) q (r, ps) =
      elim (Bool-cases (is_greater (f32.partial_cmp b.1 a.1))) [
        | inl greater ↦ rw greater (r, insert_by_score-All p a es q ps)
        | inr other ↦ rw other (q, (r, ps))
      ]

  below_all :
      (law : IsWeakOrder f32) (a b : InternalId × f32.Num) (es : List (InternalId × f32.Num))
      → IsNumber f32 b.1
      → is_greater (f32.partial_cmp b.1 a.1) ≡ false
      → All (λ e. is_greater (f32.partial_cmp e.1 b.1) ≡ false) es
      → All (λ e. is_greater (f32.partial_cmp e.1 a.1) ≡ false) es
  below_all law a b [] number above ps = tt
  below_all law a b (e ∷ es) number above (q, ps) =
      (law.between e.1 b.1 a.1 number q above, below_all law a b es number above ps)

  insert_by_score-Ordered :
      (law : IsWeakOrder f32) (a : InternalId × f32.Num) (es : List (InternalId × f32.Num))
      → All (λ e. IsNumber f32 e.1) es
      → Ordered f32 es
      → Ordered f32 (insert_by_score f32 a es)
  unfolding insert_by_score
  insert_by_score-Ordered law a [] numbers o = (tt, tt)
  insert_by_score-Ordered law a (b ∷ es) (number, numbers) (o, os) =
      elim (Bool-cases (is_greater (f32.partial_cmp b.1 a.1))) [
        | inl greater ↦ rw greater (
          insert_by_score-All (λ e. is_greater (f32.partial_cmp e.1 b.1) ≡ false) a es
              (law.asymmetric b.1 a.1 greater) o,
          insert_by_score-Ordered law a es numbers os,
        )
        | inr other ↦ rw other ((other, below_all law a b es number other o), (o, os))
      ]

  pub lookup-sort_by_score :
      (es : List (InternalId × f32.Num))
      → KeysDiffer es
      → (k : InternalId) → lookup k (sort_by_score f32 es) ≡ lookup k es
  unfolding lookup sort_by_score
  lookup-sort_by_score [] d k = refl
  lookup-sort_by_score (a ∷ es) d k =
      let rest = lookup-sort_by_score es d.1 in
      lookup-insert_by_score a (sort_by_score f32 es) k (rest a.0 ∙ d.0) ∙ rw rest refl

  pub sort_by_score-KeysDiffer :
      (es : List (InternalId × f32.Num)) → KeysDiffer es → KeysDiffer (sort_by_score f32 es)
  unfolding sort_by_score
  sort_by_score-KeysDiffer [] d = tt
  sort_by_score-KeysDiffer (a ∷ es) d =
      insert_by_score-KeysDiffer a (sort_by_score f32 es) (lookup-sort_by_score es d.1 a.0 ∙ d.0)
        (sort_by_score-KeysDiffer es d.1)

  pub sort_by_score-All :
      (p : InternalId × f32.Num → Type 0) (es : List (InternalId × f32.Num))
      → All p es
      → All p (sort_by_score f32 es)
  unfolding sort_by_score
  sort_by_score-All p [] ps = tt
  sort_by_score-All p (a ∷ es) (q, ps) =
      insert_by_score-All p a (sort_by_score f32 es) q (sort_by_score-All p es ps)

  pub sort_by_score-Ordered :
      (law : IsWeakOrder f32) (es : List (InternalId × f32.Num))
      → All (λ e. IsNumber f32 e.1) es
      → Ordered f32 (sort_by_score f32 es)
  unfolding sort_by_score
  sort_by_score-Ordered law [] numbers = tt
  sort_by_score-Ordered law (a ∷ es) (number, numbers) =
      insert_by_score-Ordered law a (sort_by_score f32 es)
        (sort_by_score-All (λ e. IsNumber f32 e.1) es numbers)
        (sort_by_score-Ordered law es numbers)

  pub take-Ordered :
      (k : ℕ) (es : List (InternalId × f32.Num)) → Ordered f32 es → Ordered f32 (take k es)
  take-Ordered zero es o = tt
  take-Ordered (suc k) [] o = tt
  take-Ordered (suc k) (a ∷ es) (o, os) =
      (take-All (λ b. is_greater (f32.partial_cmp b.1 a.1) ≡ false) k es o, take-Ordered k es os)

  pub take-KeysDiffer :
      (k : ℕ) (es : List (InternalId × f32.Num)) → KeysDiffer es → KeysDiffer (take k es)
  take-KeysDiffer zero es d = tt
  take-KeysDiffer (suc k) [] d = tt
  take-KeysDiffer (suc k) (a ∷ es) (new, d) = (lookup-take k es a.0 new, take-KeysDiffer k es d)

  pub lookup-take_missing :
      (k : ℕ) (es : List (InternalId × f32.Num)) (id : InternalId) (sum : f32.Num)
      → Ordered f32 es
      → lookup id es ≡ some sum
      → lookup id (take k es) ≡ none
      → (length (take k es) ≡ k)
        × All (λ r. is_greater (f32.partial_cmp sum r.1) ≡ false) (take k es)
  unfolding lookup
  lookup-take_missing zero es id sum o found missing = (refl, tt)
  lookup-take_missing (suc k) [] id sum o found missing = grind arith
  lookup-take_missing (suc k) (a ∷ es) id sum (o, os) found missing =
      elim (Bool-cases (a.0 == id)) [
        | inl same ↦
            grind
              (arith, sym (ap (λ b. if b then some a.1 else lookup id (take k es)) same) ∙ missing)
        | inr other ↦
            let later = sym (rw other refl) ∙ found in
            let (full, below) =
              lookup-take_missing k es id sum os later (sym (rw other refl) ∙ missing) in
            (
              ap suc full,
              (
                lookup-All (λ v. is_greater (f32.partial_cmp v a.1) ≡ false) es o id sum later,
                below,
              ),
            )
      ]
