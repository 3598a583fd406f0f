-- ===== src/Persistent/Replay.antt =====
-- Replaying the log: a storage that reads as another goes on to do so when an operation of the one
-- is replayed on the other.
use zapybase.Prelude.{
  ℕ, ◌+◌, ◌≤◌, ◌<◌, ◌≡◌, refl, ap, sym, subst, ◌∙◌, true, Option, none, List, [], ◌∷◌, ◌++◌, arith,
  length,
}
use zapybase.Prelude.Eq.{string_eq}
use zapybase.Collections.HashMap.{is_some}
use zapybase.Error.{ok, err, ◌>>=◌}
use zapybase.Env.{Env, Num, Meta}
use zapybase.Storage.{VectorStorage, VectorId, InternalId, internal_id_limit, get_internal_id}
use zapybase.Storage
use zapybase.Storage.Invariant.{IsValid}
use zapybase.Storage.Preserve.{delete-IsValid}
use zapybase.Storage.View.{view}
use zapybase.Storage.Refines.{delete_refines}
use zapybase.Storage.Steps.{
  IsInserted, insert_new, internal_id_none, internal_id_some, delete_fields,
}
use zapybase.Wal.{WalEntry}
use zapybase.Persistent.{Index, Codecs, replay, replay_entry, replay_insert}

-- What the database relies on of the index: as long as the graph has one node for each slot of the
-- storage but the last, the insertion of the last comes back without an error and the graph has a
-- node for that slot too; and the state of a graph, loaded into a new one, has the same nodes.
pub record Accepts {env : Env} (index : Index env) : Type 1 where
  pub HasSlots : ℕ → index.Graph → Type 0
  pub created : HasSlots 0 index.new
  pub accepts :
      (n : InternalId) (vector : List (Num env)) (s : VectorStorage env) (graph : index.Graph)
      → IsValid env s
      → length s.internal_to_id ≡ n + 1
      → HasSlots n graph
      → ((index.insert n vector s graph).0 ≡ ok tt)
        × HasSlots (n + 1) (index.insert n vector s graph).1
  pub reloaded :
      (n : ℕ) (graph : index.Graph)
      → HasSlots n graph
      → HasSlots n (index.load_state (index.get_state graph) index.new)

module _ (env : Env) where
  -- `t` reads as `s` at every id, in no more slots.
  pub record IsReplica (s t : VectorStorage env) : Type 0 where
    pub valid : IsValid env t
    pub dimensions : t.dimensions ≡ s.dimensions
    pub slots : length t.internal_to_id ≤ length s.internal_to_id
    pub reads : (id : VectorId) → view env t id ≡ view env s id

  pub IsReplica-inserted :
      (id : VectorId) (vector : List (Num env)) (metadata : Option (Meta env))
      (s s' t t' : VectorStorage env)
      → IsReplica s t
      → IsInserted env id vector metadata s s'
      → IsInserted env id vector metadata t t'
      → IsReplica s' t'
  IsReplica-inserted id vector metadata s s' t t' r i j = record {
    valid = j.valid;
    dimensions = j.dimensions ∙ r.dimensions ∙ sym i.dimensions;
    slots = omega (arith, r.slots, i.slots, j.slots);
    reads = λ k. ground (arith, r.reads k, i.reads k, j.reads k);
  }

  pub IsReplica-delete :
      (id : VectorId) (s t : VectorStorage env)
      → IsValid env s
      → IsReplica s t
      → IsReplica (Storage.delete env id s).1 (Storage.delete env id t).1
  IsReplica-delete id s t v r =
      let (dims, slots) = delete_fields env id s in
      let (dims', slots') = delete_fields env id t in
      record {
        valid = delete-IsValid env id t r.valid;
        dimensions = dims' ∙ r.dimensions ∙ sym dims;
        slots = rw (slots, slots') r.slots;
        reads = λ k. ground (
          arith,
          r.reads k,
          (delete_refines env id s v).1 k,
          (delete_refines env id t r.valid).1 k,
        );
      }

module _ {env : Env} (index : Index env) (codecs : Codecs env index.State) where
  pub replay-append :
      (entries : List (WalEntry env)) (entry : WalEntry env)
      (m m' m'' : VectorStorage env × index.Graph)
      → replay index codecs entries m ≡ ok m'
      → replay_entry index codecs entry m' ≡ ok m''
      → replay index codecs (entries ++ entry ∷ []) m ≡ ok m''
  unfolding replay
  replay-append [] entry m m' m'' h k = ground (arith, h, k)
  replay-append (e ∷ entries) entry m m' m'' h k =
      (elim (replay_entry index codecs e m)
          as (λ r.
            (r >>= λ n. replay index codecs entries n) ≡ ok m'
            → (r >>= λ n. replay index codecs (entries ++ entry ∷ []) n) ≡ ok m'') [
              | ok n ↦ λ h'. replay-append entries entry n m' m'' h' k
              | err e' ↦ λ h'. cc
            ])
        h

  -- The entry of an insertion that was carried out is carried out again.
  pub replay_new :
      (id : VectorId) (vector : List (Num env)) (metadata : Option (Meta env))
      (s t : VectorStorage env) (graph : index.Graph)
      → (a : Accepts index) → a.HasSlots (length t.internal_to_id) graph
      → IsValid env s
      → IsReplica env s t
      → length s.internal_to_id < internal_id_limit
      → length vector ≡ s.dimensions
      → view env s id ≡ none
      → (t' : VectorStorage env) × (graph' : index.Graph) × (replay_entry index codecs
            (WalEntry.insert id vector metadata)
            (t, graph)
          ≡ ok (t', graph'))
        × IsReplica env (Storage.insert env id vector metadata s).1 t'
        × a.HasSlots (length t'.internal_to_id) graph'
  unfolding replay_entry replay_insert
  replay_new id vector metadata s t graph a slots v r room fits new =
      let new' = r.reads id ∙ new in
      let absent = internal_id_none env id t r.valid new' in
      let (done, i) = insert_new env id vector metadata s v room fits new in
      let (done', j) =
        insert_new env id vector metadata t r.valid (omega (arith, r.slots))
          (fits ∙ sym r.dimensions) new' in
      let t' = (Storage.insert env id vector metadata t).1 in
      let n = length t.internal_to_id in
      let (accepted, slots') = a.accepts n vector t' graph j.valid j.slots slots in
      (
        t',
        (index.insert (length t.internal_to_id) vector t' graph).1,
        rw (absent, replay_insert) (rw (done', replay_insert) (rw accepted refl)),
        IsReplica-inserted env id vector metadata s (Storage.insert env id vector metadata s).1 t t'
            r i j,
        subst (λ m. a.HasSlots m (index.insert n vector t' graph).1) (sym j.slots) slots',
      )

  -- The entry of an insertion that was refused for its id is passed over.
  pub replay_present :
      (id : VectorId) (vector : List (Num env)) (metadata : Option (Meta env))
      (s t : VectorStorage env) (graph : index.Graph)
      → IsReplica env s t
      → is_some (view env s id) ≡ true
      → replay_entry index codecs (WalEntry.insert id vector metadata) (t, graph) ≡ ok (t, graph)
  unfolding replay_entry replay_insert
  replay_present id vector metadata s t graph r old =
      let (i, there) = internal_id_some env id t r.valid (ap is_some (r.reads id) ∙ old) in
      rw (there, replay_insert) refl
