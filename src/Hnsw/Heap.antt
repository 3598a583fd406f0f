-- ===== src/Hnsw/Heap.antt =====
-- The binary heaps and the sorting of hnsw.rs: what they keep of their elements.
use zapybase.Prelude.{
  All, ℕ, ◌+◌, ◌≤◌, ◌≡◌, refl, Bool, false, none, some, List, [], ◌∷◌, arith, length, eqb, ltb,
  Option-cases, Bool-cases, inl, inr,
}
use zapybase.Env.{Env}
use zapybase.Hnsw.{
  Candidate, pop, push_result, furthest_first, insert_by_distance, sort_by_distance,
}

module _ (env : Env) where
  -- no two candidates have one id
  abbrev pub Differ : List (Candidate env) → Type 0
  Differ [] = Unit
  Differ (c ∷ cs) = All (λ d. eqb d.id c.id ≡ false) cs × Differ cs

  pub pop-All :
      (before : Candidate env → Candidate env → Bool) (p : Candidate env → Type 0)
      (heap : List (Candidate env)) (top : Candidate env) (rest : List (Candidate env))
      → pop env before heap ≡ some (top, rest)
      → All p heap
      → p top × All p rest
  unfolding pop
  pop-All before p [] top rest h a = cc
  pop-All before p (c ∷ heap) top rest h (a, as') = elim (Option-cases (pop env before heap)) [
    | inl e ↦ ground (arith, e)
    | inr ((t, r), e) ↦
        let (pt, pr) = pop-All before p heap t r e as' in
        elim (Bool-cases (before c t)) [
          | inl after ↦ ground (arith, e, after, pt, pr)
          | inr ahead ↦ ground (arith, e, ahead, pt, pr)
        ]
  ]

  pop-none :
      (before : Candidate env → Candidate env → Bool) (heap : List (Candidate env))
      → pop env before heap ≡ none
      → length heap ≡ 0
  unfolding pop
  pop-none before [] h = refl
  pop-none before (c ∷ heap) h = elim (Option-cases (pop env before heap)) [
    | inl e ↦ ground (arith, e)
    | inr ((t, r), e) ↦ ground (arith, e)
  ]

  pub pop-length :
      (before : Candidate env → Candidate env → Bool) (heap : List (Candidate env))
      (top : Candidate env) (rest : List (Candidate env))
      → pop env before heap ≡ some (top, rest)
      → length heap ≡ length rest + 1
  unfolding pop
  pop-length before [] top rest h = cc
  pop-length before (c ∷ heap) top rest h = elim (Option-cases (pop env before heap)) [
    | inl e ↦ ground (arith, e, pop-none before heap)
    | inr ((t, r), e) ↦
        let n = pop-length before heap t r e in
        elim (Bool-cases (before c t)) [
          | inl after ↦ ground (arith, e, after, n)
          | inr ahead ↦ ground (arith, e, ahead, n)
        ]
  ]

  -- The element that is taken differs from the others, if all did.
  pub pop-Differ :
      (before : Candidate env → Candidate env → Bool) (heap : List (Candidate env))
      (top : Candidate env) (rest : List (Candidate env))
      → pop env before heap ≡ some (top, rest)
      → Differ heap
      → Differ (top ∷ rest)
  unfolding pop
  pop-Differ before [] top rest h d = cc
  pop-Differ before (c ∷ heap) top rest h (new, d) = elim (Option-cases (pop env before heap)) [
    | inl e ↦ ground (arith, e)
    | inr ((t, r), e) ↦
        let (td, rd) = pop-Differ before heap t r e d in
        let (tn, rn) = pop-All before (λ b. eqb b.id c.id ≡ false) heap t r e new in
        elim (Bool-cases (before c t)) [
          | inl after ↦ ground (arith, e, after, td, rd, tn, rn)
          | inr ahead ↦ ground (arith, e, ahead, td, rd, tn, rn)
        ]
  ]

  pub push_result-All :
      (p : Candidate env → Type 0) (ef : ℕ) (c : Candidate env) (results : List (Candidate env))
      → p c
      → All p results
      → All p (push_result env ef c results)
  unfolding push_result
  push_result-All p ef c results pc ps = elim (Bool-cases (ltb ef (length (c ∷ results)))) [
    | inr few ↦ ground (arith, few, pc, ps)
    | inl many ↦ elim (Option-cases (pop env (furthest_first env) (c ∷ results))) [
      | inl e ↦ ground (arith, many, e)
      | inr ((t, r), e) ↦
          ground (arith, many, e, pop-All (furthest_first env) p (c ∷ results) t r e (pc, ps))
    ]
  ]

  pub push_result-length :
      (ef : ℕ) (c : Candidate env) (results : List (Candidate env))
      → length results ≤ ef
      → length (push_result env ef c results) ≤ ef
  unfolding push_result
  push_result-length ef c results few = elim (Bool-cases (ltb ef (length (c ∷ results)))) [
    | inr fits ↦ ground (arith, fits)
    | inl many ↦ elim (Option-cases (pop env (furthest_first env) (c ∷ results))) [
      | inl e ↦ ground (arith, many, e)
      | inr ((t, r), e) ↦
          ground (arith, many, e, pop-length (furthest_first env) (c ∷ results) t r e)
    ]
  ]

  pub push_result-Differ :
      (ef : ℕ) (c : Candidate env) (results : List (Candidate env))
      → Differ (c ∷ results)
      → Differ (push_result env ef c results)
  unfolding push_result
  push_result-Differ ef c results d = elim (Bool-cases (ltb ef (length (c ∷ results)))) [
    | inr fits ↦ ground (arith, fits, d)
    | inl many ↦ elim (Option-cases (pop env (furthest_first env) (c ∷ results))) [
      | inl e ↦ ground (arith, many, e)
      | inr ((t, r), e) ↦
          ground (arith, many, e, (pop-Differ (furthest_first env) (c ∷ results) t r e d).1)
    ]
  ]

  insert_by_distance-All :
      (p : Candidate env → Type 0) (c : Candidate env) (cs : List (Candidate env))
      → p c
      → All p cs
      → All p (insert_by_distance env c cs)
  unfolding insert_by_distance
  insert_by_distance-All p c [] pc ps = (pc, tt)
  insert_by_distance-All p c (d ∷ ds) pc (pd, ps) =
      ground (arith, insert_by_distance-All p c ds pc ps, pc, pd, ps)

  pub sort_by_distance-All :
      (p : Candidate env → Type 0) (cs : List (Candidate env))
      → All p cs
      → All p (sort_by_distance env cs)
  unfolding sort_by_distance
  sort_by_distance-All p [] ps = tt
  sort_by_distance-All p (c ∷ cs) (pc, ps) =
      insert_by_distance-All p c (sort_by_distance env cs) pc (sort_by_distance-All p cs ps)

  insert_by_distance-length :
      (c : Candidate env) (cs : List (Candidate env))
      → length (insert_by_distance env c cs) ≡ length cs + 1
  unfolding insert_by_distance
  insert_by_distance-length c [] = refl
  insert_by_distance-length c (d ∷ ds) = ground (arith, insert_by_distance-length c ds)

  pub sort_by_distance-length :
      (cs : List (Candidate env)) → length (sort_by_distance env cs) ≡ length cs
  unfolding sort_by_distance
  sort_by_distance-length [] = refl
  sort_by_distance-length (c ∷ cs) =
      omega
        (arith, insert_by_distance-length c (sort_by_distance env cs), sort_by_distance-length cs)

  insert_by_distance-Differ :
      (c : Candidate env) (cs : List (Candidate env))
      → Differ (c ∷ cs)
      → Differ (insert_by_distance env c cs)
  unfolding insert_by_distance
  insert_by_distance-Differ c [] d = d
  insert_by_distance-Differ c (b ∷ bs) ((bc, bsc), (bsb, d)) = ground (
    arith,
    insert_by_distance-Differ c bs (bsc, d),
    insert_by_distance-All (λ a. eqb a.id b.id ≡ false) c bs,
  )

  pub sort_by_distance-Differ :
      (cs : List (Candidate env)) → Differ cs → Differ (sort_by_distance env cs)
  unfolding sort_by_distance
  sort_by_distance-Differ [] d = tt
  sort_by_distance-Differ (c ∷ cs) (new, d) =
      insert_by_distance-Differ c (sort_by_distance env cs)
        (sort_by_distance-All (λ b. eqb b.id c.id ≡ false) cs new, sort_by_distance-Differ cs d)
