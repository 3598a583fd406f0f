-- ===== src/Hnsw/Select.antt =====
-- `select_neighbors` of hnsw.rs: which of the candidates a node is connected to.
use zapybase.Prelude.{
  All, All-append_one, ℕ, ◌+◌, ◌≤◌, ◌≡◌, Bool, true, false, not, ◌&&◌, Option, none, some, List, [],
  ◌∷◌, ◌++◌, arith, length, length-append, leb, ltb, leb→le, ltb→lt, ltb→le, min, if◌then◌else◌,
  Bool-cases, ◌⊎◌, inl, inr,
}
use zapybase.Env.{Env, Num}
use zapybase.Float.{is_less}
use zapybase.Storage.{InternalId}
use zapybase.Hnsw.{Candidate}

-- `between selected candidate` is the distance of the first from the vector of the second, where
-- the storage has both.
module _ (env : Env) (between : InternalId → InternalId → Option (Num env)) where
  abbrev is_nearer : Option (Num env) → Num env → Bool
  is_nearer none distance = false
  is_nearer (some d) distance = is_less (env.f32.partial_cmp d distance)

  -- closer to the query than to any neighbor that was selected
  unfoldable pub is_closer : Candidate env → List (Candidate env) → Bool
  is_closer c [] = true
  is_closer c (selected ∷ result) =
      not (is_nearer (between selected.id c.id) c.distance) && is_closer c result

  -- the first loop, with `result` and `discard`
  unfoldable pub select_loop :
      ℕ
      → List (Candidate env)
      → List (Candidate env)
      → List (Candidate env)
      → List (Candidate env) × List (Candidate env)
  select_loop m [] result discard = (result, discard)
  select_loop m (c ∷ cs) result discard = elim (leb m (length result)) [
    | true ↦ (result, discard)
    | false ↦ elim (is_closer c result) [
      | true ↦ select_loop m cs (result ++ c ∷ []) discard
      | false ↦ select_loop m cs result (discard ++ c ∷ [])
    ]
  ]

  -- the second loop, over `discard`
  unfoldable pub fill_up : ℕ → List (Candidate env) → List (Candidate env) → List (Candidate env)
  fill_up m [] result = result
  fill_up m (c ∷ cs) result = elim (leb m (length result)) [
    | true ↦ result
    | false ↦ fill_up m cs (result ++ c ∷ [])
  ]

  unfoldable pub select_neighbors : List (Candidate env) → ℕ → List (Candidate env)
  select_neighbors candidates m =
      if leb (length candidates) m
      then candidates
      else (let (result, discard) = select_loop m candidates [] [] in
          if ltb (length result) m then fill_up m discard result else result)

  -- The first loop has `m` selected or has put every candidate in one of the two lists.
  select_loop-All :
      (p : Candidate env → Type 0) (m : ℕ) (cs result discard : List (Candidate env))
      → length result ≤ m
      → All p cs
      → All p result
      → All p discard
      → let out = select_loop m cs result discard in
        All p out.0
        × All p out.1
        × (length out.0 ≤ m)
        × ((length out.0 ≡ m)
            ⊎ (length out.0 + length out.1 ≡ length cs + (length result + length discard)))
  unfolding select_loop
  select_loop-All p m [] result discard few a b d = (b, d, few, inr (omega arith))
  select_loop-All p m (c ∷ cs) result discard few (h, a) b d =
      elim (Bool-cases (leb m (length result))) [
        | inl full ↦
            rw (full, select_loop) (b, d, few, inl (omega (arith, leb→le m (length result) full)))
        | inr room ↦ elim (Bool-cases (is_closer c result)) [
          | inl near ↦
              let more = length-append result (c ∷ []) in
              let (x, y, z, w) =
                select_loop-All p m cs (result ++ c ∷ []) discard (ground (arith, room, more)) a
                  (All-append_one p result c b h) d in
              rw (room, near, select_loop) (x, y, z, ground (arith, w, more))
          | inr far ↦
              let more = length-append discard (c ∷ []) in
              let (x, y, z, w) =
                select_loop-All p m cs result (discard ++ c ∷ []) few a b
                  (All-append_one p discard c d h) in
              rw (room, far, select_loop) (x, y, z, ground (arith, w, more))
        ]
      ]

  fill_up-All :
      (p : Candidate env → Type 0) (m : ℕ) (cs result : List (Candidate env))
      → length result ≤ m
      → All p cs
      → All p result
      → All p (fill_up m cs result)
        × (length (fill_up m cs result) ≡ min m (length result + length cs))
  unfolding fill_up
  fill_up-All p m [] result few a b = (b, omega arith)
  fill_up-All p m (c ∷ cs) result few (h, a) b = elim (Bool-cases (leb m (length result))) [
    | inl full ↦ rw (full, fill_up) (b, omega (arith, leb→le m (length result) full))
    | inr room ↦
        let more = length-append result (c ∷ []) in
        let (x, n) =
          fill_up-All p m cs (result ++ c ∷ []) (ground (arith, room, more)) a
            (All-append_one p result c b h) in
        rw (room, fill_up) (x, omega (arith, n, more))
  ]

  -- The selection has as many neighbors as are allowed and there are: the smaller of `m` and the
  -- number of candidates. What holds of every candidate holds of every selected one.
  pub select_neighbors-All :
      (p : Candidate env → Type 0) (candidates : List (Candidate env)) (m : ℕ)
      → All p candidates
      → All p (select_neighbors candidates m)
        × (length (select_neighbors candidates m) ≡ min m (length candidates))
  unfolding select_neighbors
  select_neighbors-All p candidates m a = elim (Bool-cases (leb (length candidates) m)) [
    | inl few ↦ rw few (a, omega (arith, leb→le (length candidates) m few))
    | inr many ↦
        let (x, y, z, w) = select_loop-All p m candidates [] [] (omega arith) a tt tt in
        let out = select_loop m candidates [] [] in
        elim (Bool-cases (ltb (length out.0) m)) [
          | inl short ↦
              let (f, n) = fill_up-All p m out.1 out.0 z y x in
              rw (many, short) (f, ground (arith, n, w, ltb→lt (length out.0) m short, many))
          | inr full ↦ rw (many, full) (x, ground (arith, w, many, ltb→le (length out.0) m full))
        ]
  ]
