-- ===== src/Hnsw/Visit.antt =====
-- What each visit of a neighbor keeps true in the search of hnsw.rs, and how far it is from its end.
use zapybase.Prelude.{
  All, ℕ, zero, suc, ◌+◌, ◌≤◌, ◌<◌, ◌≡◌, refl, true, false, ◌||◌, List, [], ◌∷◌, arith, length, eqb,
  ltb, if◌then◌else◌, Option-cases, Bool-cases, inl, inr,
}
use zapybase.Prelude.Eq.{nat_eq, contains}
use zapybase.Env.{Env}
use zapybase.Float.{is_less}
use zapybase.Storage.{InternalId}
use zapybase.Hnsw.{
  Candidate, Source, SearchContext, Search, is_valid, or_max, consider, visit, visit_all, furthest,
}
use zapybase.Hnsw.Heap.{Differ, push_result-All, push_result-length, push_result-Differ}

-- the ids below `n` that were not visited
unfoldable pub unvisited : ℕ → List InternalId → ℕ
unvisited zero visited = 0
unvisited (suc n) visited = (if contains visited n then 0 else 1) + unvisited n visited

unvisited_other :
    (n : ℕ) (id : InternalId) (visited : List InternalId)
    → n ≤ id
    → unvisited n (id ∷ visited) ≡ unvisited n visited
unfolding unvisited contains
unvisited_other zero id visited h = refl
unvisited_other (suc n) id visited h = ground (arith, unvisited_other n id visited)

-- A first visit leaves one id less to visit.
pub unvisited_less :
    (n : ℕ) (id : InternalId) (visited : List InternalId)
    → id < n
    → contains visited id ≡ false
    → unvisited n visited ≡ unvisited n (id ∷ visited) + 1
unfolding unvisited contains
unvisited_less zero id visited h new = absurd (omega arith)
unvisited_less (suc n) id visited h new = elim (Bool-cases (eqb id n)) [
  | inl same ↦ ground (arith, same, new, unvisited_other n id visited)
  | inr other ↦ ground (arith, other, new, unvisited_less n id visited)
]

module _ {env : Env} (ctx : SearchContext env) (source : Source env) (n : ℕ) where
  -- a result that the caller may see: a node, not deleted, selected by the filter, at its distance
  abbrev pub IsHit : Candidate env → Type 0
  IsHit c =
      (c.id < n)
      × (is_valid env ctx source c.id ≡ true)
      × (c.distance ≡ or_max env (source.distance c.id))

  pub record IsSearch (s : Search env) : Type 0 where
    pub inside : All (λ c. c.id < n) s.candidates
    pub hits : All IsHit s.results
    pub few : length s.results ≤ ctx.ef
    pub seen : All (λ c. contains s.visited c.id ≡ true) s.results
    pub differ : Differ env s.results

  -- the rounds that are left at most
  abbrev pub remaining : Search env → ℕ
  remaining s = length s.candidates + unvisited n s.visited

  unseen_differ :
      (visited : List InternalId) (id : InternalId) (results : List (Candidate env))
      → contains visited id ≡ false
      → All (λ c. contains visited c.id ≡ true) results
      → All (λ c. eqb c.id id ≡ false) results
  unseen_differ visited id [] new seen = tt
  unseen_differ visited id (c ∷ results) new (s, seen) =
      (ground (arith, s, new), unseen_differ visited id results new seen)

  still_seen :
      (visited : List InternalId) (id : InternalId) (results : List (Candidate env))
      → All (λ c. contains visited c.id ≡ true) results
      → All (λ c. contains (id ∷ visited) c.id ≡ true) results
  unfolding contains
  still_seen visited id [] seen = tt
  still_seen visited id (c ∷ results) (s, seen) =
      (ground (arith, s), still_seen visited id results seen)

  self_seen : (id : InternalId) (visited : List InternalId) → contains (id ∷ visited) id ≡ true
  unfolding contains
  self_seen id visited = ground arith

  -- marking an id as visited
  mark :
      (id : InternalId) (s : Search env)
      → IsSearch s
      → IsSearch (record s { visited = id ∷ s.visited })
  mark id s i = record {
    inside = i.inside;
    hits = i.hits;
    few = i.few;
    seen = still_seen s.visited id s.results i.seen;
    differ = i.differ;
  }

  consider-IsSearch :
      (c : Candidate env) (s : Search env)
      → c.id < n
      → c.distance ≡ or_max env (source.distance c.id)
      → contains s.visited c.id ≡ true
      → All (λ d. eqb d.id c.id ≡ false) s.results
      → IsSearch s
      → IsSearch (consider env ctx source c s)
        × (length (consider env ctx source c s).candidates ≤ length s.candidates + 1)
        × ((consider env ctx source c s).visited ≡ s.visited)
  unfolding consider
  consider-IsSearch c s h at there new i =
      let near =
        is_less (env.f32.partial_cmp c.distance (furthest env s.results))
        || ltb (length s.results) ctx.ef in
      elim (Bool-cases near) [
        | inr far ↦ rw far (i, omega arith, refl)
        | inl close ↦ elim (Bool-cases (is_valid env ctx source c.id)) [
          | inr hidden ↦
              rw (close, hidden)
                (
                  record {
                    inside = (h, i.inside);
                    hits = i.hits;
                    few = i.few;
                    seen = i.seen;
                    differ = i.differ;
                  },
                  omega arith,
                  refl,
                )
          | inl valid ↦
              rw (close, valid)
                (
                  record {
                    inside = (h, i.inside);
                    hits = push_result-All env IsHit ctx.ef c s.results (h, valid, at) i.hits;
                    few = push_result-length env ctx.ef c s.results i.few;
                    seen =
                        push_result-All env (λ d. contains s.visited d.id ≡ true) ctx.ef c s.results
                          there i.seen;
                    differ = push_result-Differ env ctx.ef c s.results (new, i.differ);
                  },
                  omega arith,
                  refl,
                )
        ]
      ]

  pub visit-IsSearch :
      (id : InternalId) (s : Search env)
      → id < n
      → IsSearch s
      → IsSearch (visit env ctx source id s) × (remaining (visit env ctx source id s) ≤ remaining s)
  unfolding visit
  visit-IsSearch id s h i = elim (Bool-cases (contains s.visited id)) [
    | inl old ↦ rw old (i, omega arith)
    | inr new ↦
        let seen : Search env = record s { visited = id ∷ s.visited } in
        let less = unvisited_less n id s.visited h new in
        elim (Option-cases (source.distance id)) [
          | inl e ↦ rw (new, e) (mark id s i, omega (arith, less))
          | inr (d, e) ↦
              let c : Candidate env = record { id = id; distance = d } in
              let (i', more, same) =
                consider-IsSearch c seen h (rw e refl) (self_seen id s.visited)
                  (unseen_differ s.visited id s.results new i.seen) (mark id s i) in
              rw (new, e) (i', rw same (omega (arith, less, more)))
        ]
  ]

  pub visit_all-IsSearch :
      (ids : List InternalId) (s : Search env)
      → All (λ id. id < n) ids
      → IsSearch s
      → IsSearch (visit_all env ctx source ids s)
        × (remaining (visit_all env ctx source ids s) ≤ remaining s)
  unfolding visit_all
  visit_all-IsSearch [] s h i = (i, omega arith)
  visit_all-IsSearch (id ∷ ids) s (h, hs) i =
      let (i', less) = visit-IsSearch id s h i in
      let (i'', less') = visit_all-IsSearch ids (visit env ctx source id s) hs i' in
      (i'', omega (arith, less, less'))
