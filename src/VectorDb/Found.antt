-- ===== src/VectorDb/Found.antt =====
-- What `VectorDb::search` returns, from the index and the storage together.
use zapybase.Prelude.{
  All, ℕ, suc, ◌*◌, ◌≤◌, ◌<◌, ◌≡◌, refl, ap, ◌∙◌, Bool, false, Option, some, List, [], ◌∷◌, arith,
  length, length-take, take, take-All, max, eqb_iff,
}
use zapybase.Prelude.Eq.{string_eq, nat_eq, contains}
use zapybase.Prelude.Slices.{slice, get_elem?_of_lt}
use zapybase.Error.{ok}
use zapybase.Env.{Env, Num, Meta}
use zapybase.Metadata.Filter.{Filter}
use zapybase.Metadata.BitmapIndex
use zapybase.Storage
use zapybase.Storage.{VectorStorage, VectorId, InternalId}
use zapybase.Storage.Invariant.{IsValid}
use zapybase.Storage.View.{view, get_slot}
use zapybase.Hnsw.{Candidate, SearchContext, is_valid, or_max}
use zapybase.Hnsw.Connect.{source_of}
use zapybase.Hnsw.Greedy.{IsStrict}
use zapybase.Hnsw.Hits.{search-IsHit}
use zapybase.Hnsw.Grows.{sound-IsIndex}
use zapybase.Hnsw.Traverse.{ids_with_distances, bitmap_for}
use zapybase.Hnsw.Visit.{IsHit}
use zapybase.VectorDb.{VectorDb, distance_of, trait_of, current_id, current_results, search}
use zapybase.VectorDb.Ready.{IsReady}

module _ {env : Env} (metric : List (Num env) → List (Num env) → Num env)
    (query : List (Num env)) where
  -- A result: the id reads as a vector with this metadata, and the distance is that of the vector.
  abbrev pub IsAnswer : VectorStorage env → VectorId × Num env × Option (Meta env) → Type 0
  IsAnswer s (id, distance, metadata) =
      (vector : List (Num env)) × (view env s id ≡ some (vector, metadata))
      × (distance ≡ metric query vector)

  -- A hit of the index is an answer, under the id of its slot.
  hit-IsAnswer :
      (ctx : SearchContext env) (s : VectorStorage env) (n : ℕ) (c : Candidate env)
      → IsValid env s
      → n ≡ length s.internal_to_id
      → IsHit ctx (source_of env (trait_of env metric s) query) n c
      → (id : VectorId) × (current_id env s c.id ≡ some id)
        × IsAnswer s (id, c.distance, Storage.get_metadata env s c.id)
  unfolding current_id Storage.get_external_id Storage.get_internal_id view is_valid
      Storage.is_deleted
  hit-IsAnswer ctx s n c v e (h, valid, at) =
      let inside : c.id < length s.internal_to_id = omega (arith, e, h) in
      let (id, named) = get_elem?_of_lt s.internal_to_id c.id inside in
      let live : contains s.deleted c.id ≡ false = ground (arith, valid) in
      let known = v.complete c.id id named live in
      let stored = get_slot env s c.id v inside in
      let vector = slice s.vectors (c.id * s.dimensions) s.dimensions in
      (
        id,
        ground (arith, named, known, eqb_iff c.id c.id),
        (
          vector,
          ground (arith, known, stored),
          at ∙ ap (λ o. or_max env (distance_of env metric query o)) stored,
        ),
      )

  answers :
      (ctx : SearchContext env) (s : VectorStorage env) (n : ℕ) (cs : List (Candidate env))
      → IsValid env s
      → n ≡ length s.internal_to_id
      → All (IsHit ctx (source_of env (trait_of env metric s) query) n) cs
      → All (IsAnswer s) (current_results env s (ids_with_distances env cs))
        × (length (current_results env s (ids_with_distances env cs)) ≡ length cs)
  unfolding current_results ids_with_distances
  answers ctx s n [] v e hits = (tt, refl)
  answers ctx s n (c ∷ cs) v e (hit, hits) =
      let (id, current, answer) = hit-IsAnswer ctx s n c v e hit in
      let (rest, count) = answers ctx s n cs v e hits in
      rw (current, current_results) ((answer, rest), ap suc count)

  -- A search of a ready database with a query of the right length returns. Where the storage has a
  -- slot, it returns at most `k` results, and each is the id of a vector that the storage reads now,
  -- with its metadata and its distance from the query. `<` of floats is a strict order.
  pub search-IsAnswer :
      (enabled : Bool) (k : ℕ) (filter : Option (Filter env.serde.Number env.serde.float.Num))
      (db : VectorDb env)
      → IsStrict env
      → IsReady db
      → length query ≡ db.config.dimensions
      → 0 < length db.storage.internal_to_id
      → (found : List (VectorId × Num env × Option (Meta env))) × (search env metric enabled query k
            filter db
          ≡ some (ok found))
        × (length found ≤ k)
        × All (IsAnswer db.storage) found
  unfolding search
  search-IsAnswer enabled k filter db strict ready fits some_slot =
      let s = db.storage in
      let same = ready.matched in
      let source = source_of env (trait_of env metric s) query in
      let fits' = (eqb_iff (length query) db.config.dimensions).1 fits in
      let bitmaps : Filter env.serde.Number env.serde.float.Num → Option (env.roaring.Bitmap) =
        BitmapIndex.filter env.roaring env.serde.to_string s.bitmap_index in
      let index =
        sound-IsIndex strict source db.index ready.sound (omega (arith, some_slot, same)) in
      let (found, done, few, hits, differ) =
        search-IsHit strict source enabled (k * 2) bitmaps filter db.index index ready.searching in
      let ctx : SearchContext env = record {
        ef = max db.index.config.ef_search (k * 2);
        layer = 0;
        filter = filter;
        filter_bitmap = bitmap_for env enabled bitmaps filter;
      } in
      let (all_answers, count) =
        answers ctx s (length db.index.nodes) found ready.valid ready.matched hits in
      let results = current_results env s (ids_with_distances env found) in
      (
        take k results,
        rw (fits', search) (rw done refl),
        omega (arith, length-take k results),
        take-All (IsAnswer s) k results all_answers,
      )
