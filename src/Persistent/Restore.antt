-- ===== src/Persistent/Restore.antt =====
-- The loop of `checkpoint` and the loop of `recover` that restores what it stored.
use zapybase.Prelude.{
  ℕ, zero, suc, ◌+◌, ◌*◌, ◌≤◌, ◌<◌, ◌≡◌, refl, ap, sym, ◌∙◌, Bool, true, false, Option, none, some,
  List, [], ◌∷◌, ◌++◌, arith, length, ltb, if◌then◌else◌, Option-cases, Bool-cases, inl, inr,
}
use mathlib.Core.List.{append_assoc, append-nil}
use zapybase.Prelude.Eq.{nat_eq, string_eq, contains}
use zapybase.Prelude.Slices.{slice, length-slice, get_elem?_of_lt, lt_of_get_elem?}
use zapybase.Collections.HashMap
use zapybase.Error.{ok}
use zapybase.Env.{Env, Num, Meta}
use zapybase.Storage.{
  VectorStorage, VectorId, InternalId, internal_id_limit, new, insert, get, get_metadata,
  get_internal_id, get_external_id, is_deleted, range, all_internal_ids,
}
use zapybase.Storage.Invariant.{IsValid, new-IsValid}
use zapybase.Storage.Preserve.{internal_id_from_lem}
use zapybase.Storage.View.{view, get_slot}
use zapybase.Storage.Steps.{IsInserted, insert_new}
use zapybase.Snapshot.{Snapshot, StoredVector, add_vector}
use zapybase.Persistent.{Index, Codecs, restore_vectors, add_slot, add_slots}

module _ {env : Env} (index : Index env) (codecs : Codecs env index.State) where
  abbrev stored : VectorId → List (Num env) → Option (Meta env) → StoredVector env index.State
  stored id vector metadata = record { id = id; vector = vector; metadata = metadata }

  -- what a slot adds to the snapshot
  unfoldable pub slot_vectors : InternalId → VectorStorage env → List (StoredVector env index.State)
  slot_vectors i s = elim (is_deleted env s i) [
    | true ↦ []
    | false ↦ elim (get_external_id env s i) [
      | none ↦ []
      | some id ↦ elim (get env s i) [
        | none ↦ []
        | some vector ↦ stored id vector (get_metadata env s i) ∷ []
      ]
    ]
  ]

  unfoldable pub slots_vectors :
      List InternalId → VectorStorage env → List (StoredVector env index.State)
  slots_vectors [] s = []
  slots_vectors (i ∷ ids) s = slot_vectors i s ++ slots_vectors ids s

  add_slot_lem :
      (i : InternalId) (s : VectorStorage env) (snapshot : Snapshot env index.State)
      → add_slot index codecs i s snapshot
        ≡ record snapshot { vectors = snapshot.vectors ++ slot_vectors i s }
  unfolding add_slot slot_vectors add_vector
  add_slot_lem i s snapshot = ground (arith, append-nil snapshot.vectors)

  pub add_slots_lem :
      (ids : List InternalId) (s : VectorStorage env) (snapshot : Snapshot env index.State)
      → add_slots index codecs ids s snapshot
        ≡ record snapshot { vectors = snapshot.vectors ++ slots_vectors ids s }
  unfolding add_slots slots_vectors
  add_slots_lem [] s snapshot =
      ap (λ vs. record snapshot { vectors = vs }) (sym (append-nil snapshot.vectors))
  add_slots_lem (i ∷ ids) s snapshot =
      ap (add_slots index codecs ids s) (add_slot_lem i s snapshot)
      ∙ add_slots_lem ids s (record snapshot { vectors = snapshot.vectors ++ slot_vectors i s })
      ∙ ap (λ vs. record snapshot { vectors = vs })
          (append_assoc snapshot.vectors (slot_vectors i s) (slots_vectors ids s))

  abbrev pub below : ℕ → Option InternalId → Bool
  below bound none = false
  below bound (some i) = ltb i bound

  -- `t` reads as `s` does at the ids of the first `from` slots, and has no other ids.
  pub record IsRestored (from : ℕ) (s t : VectorStorage env) : Type 0 where
    pub valid : IsValid env t
    pub dimensions : t.dimensions ≡ s.dimensions
    pub slots : length t.internal_to_id ≤ from
    pub whole : s.deleted ≡ [] → length t.internal_to_id ≡ from
    pub reads :
        (id : VectorId)
        → view env t id ≡ (if below from (get_internal_id env s id) then view env s id else none)

  -- a slot of a valid storage that is not deleted
  pub live_slot :
      (i : InternalId) (s : VectorStorage env)
      → IsValid env s
      → i < length s.internal_to_id
      → is_deleted env s i ≡ false
      → (id : VectorId) × (vector : List (Num env)) × (slot_vectors i s
          ≡ stored id vector (get_metadata env s i) ∷ [])
        × (get_internal_id env s id ≡ some i)
        × (view env s id ≡ some (vector, get_metadata env s i))
        × (length vector ≡ s.dimensions)
  unfolding slot_vectors is_deleted get_external_id get_internal_id view
  live_slot i s v h live =
      let (id, at) = get_elem?_of_lt s.internal_to_id i h in
      let vector = slice s.vectors (i * s.dimensions) s.dimensions in
      let known = v.complete i id at live in
      let stored' = get_slot env s i v h in
      (
        id,
        vector,
        ground (arith, live, at, stored'),
        known,
        ground (arith, known, stored'),
        length-slice s.vectors (i * s.dimensions) s.dimensions (grind (arith, v.sized)),
      )

  restore_vectors_one :
      (id : VectorId) (vector : List (Num env)) (metadata : Option (Meta env))
      (vectors : List (StoredVector env index.State)) (t : VectorStorage env) (n : InternalId)
      → (insert env id vector metadata t).0 ≡ ok n
      → restore_vectors index codecs (stored id vector metadata ∷ vectors) t
        ≡ restore_vectors index codecs vectors (insert env id vector metadata t).1
  unfolding restore_vectors
  restore_vectors_one id vector metadata vectors t n h = rw (h, restore_vectors) refl

  abbrev Restores :
      List (StoredVector env index.State) → ℕ → VectorStorage env → VectorStorage env → Type 0
  Restores vectors from s t =
      (t' : VectorStorage env) × (restore_vectors index codecs vectors t ≡ ok t')
      × IsRestored from s t'

  -- a slot that is deleted adds nothing
  pass_slot :
      (from : ℕ) (s t : VectorStorage env)
      → IsValid env s
      → is_deleted env s from ≡ true
      → IsRestored from s t
      → IsRestored (from + 1) s t
  unfolding is_deleted get_internal_id
  pass_slot from s t v dead r = record {
    valid = r.valid;
    dimensions = r.dimensions;
    slots = omega (arith, r.slots);
    whole = λ none_deleted.
        unfold contains in grind (arith, sym (ap (λ ds. contains ds from) none_deleted) ∙ dead);
    reads = λ id. elim (Option-cases (HashMap.get s.id_to_internal id)) [
      | inl e ↦ ground (arith, r.reads id)
      | inr (i, e) ↦ ground (arith, r.reads id, v.live id i e)
    ];
  }

  place_slot :
      (from : ℕ) (id : VectorId) (vector : List (Num env)) (metadata : Option (Meta env))
      (s t t' : VectorStorage env)
      → IsValid env s
      → get_internal_id env s id ≡ some from
      → view env s id ≡ some (vector, metadata)
      → IsInserted env id vector metadata t t'
      → IsRestored from s t
      → IsRestored (from + 1) s t'
  unfolding get_internal_id
  place_slot from id vector metadata s t t' v known seen i r = record {
    valid = i.valid;
    dimensions = i.dimensions ∙ r.dimensions;
    slots = omega (arith, i.slots, r.slots);
    whole = λ none_deleted. omega (arith, i.slots, r.whole none_deleted);
    reads = λ j. elim (Option-cases (HashMap.get s.id_to_internal j)) [
      | inl e ↦ ground (arith, r.reads j, i.reads j, string_eq.beq_iff id j)
      | inr (k, e) ↦
          ground (
            arith,
            r.reads j,
            i.reads j,
            string_eq.beq_iff id j,
            v.live j k e,
            v.live id from known,
          )
    ];
  }

  restore_slot :
      (from : ℕ) (rest : List (StoredVector env index.State)) (s t : VectorStorage env)
      → IsValid env s
      → from < length s.internal_to_id
      → length s.internal_to_id ≤ internal_id_limit
      → IsRestored from s t
      → (t' : VectorStorage env) × (restore_vectors index codecs (slot_vectors from s ++ rest) t
          ≡ restore_vectors index codecs rest t')
        × IsRestored (from + 1) s t'
  restore_slot from rest s t v h room r = elim (Bool-cases (is_deleted env s from)) [
    | inl dead ↦
        (t, unfold slot_vectors in rw (dead, slot_vectors) refl, pass_slot from s t v dead r)
    | inr live ↦
        let (id, vector, added, known, seen, fits) = live_slot from s v h live in
        let metadata = get_metadata env s from in
        let absent : view env t id ≡ none = ground (arith, r.reads id, known) in
        let (done, i) =
          insert_new env id vector metadata t r.valid (omega (arith, r.slots))
            (fits ∙ sym r.dimensions) absent in
        (
          (insert env id vector metadata t).1,
          ap (λ vs. restore_vectors index codecs (vs ++ rest) t) added
              ∙ restore_vectors_one id vector metadata rest t (length t.internal_to_id) done,
          place_slot from id vector metadata s t (insert env id vector metadata t).1 v known seen i
              r,
        )
  ]

  -- Restoring the vectors of the slots from `from` on, in a storage that has those before.
  pub restore_range :
      (from count to : ℕ) (s t : VectorStorage env)
      → IsValid env s
      → from + count ≡ to
      → to ≤ length s.internal_to_id
      → length s.internal_to_id ≤ internal_id_limit
      → IsRestored from s t
      → Restores (slots_vectors (range env from count) s) to s t
  unfolding slots_vectors range restore_vectors
  restore_range from zero to s t v same fits room r =
      let at : from ≡ to = omega arith in (t, refl, rw (sym at) r)
  restore_range from (suc count) to s t v same fits room r =
      let n = internal_id_from_lem from (omega arith) in
      let rest = slots_vectors (range env (from + 1) count) s in
      let (t', step, r') = restore_slot from rest s t v (omega arith) room r in
      let (t'', all', r'') = restore_range (from + 1) count to s t' v (omega arith) fits room r' in
      (
        t'',
        ap (λ i. restore_vectors index codecs (slot_vectors i s ++ rest) t) n ∙ step ∙ all',
        r'',
      )

  all_seen :
      (s t : VectorStorage env)
      → IsValid env s
      → IsRestored (length s.internal_to_id) s t
      → (id : VectorId) → view env t id ≡ view env s id
  unfolding view get_internal_id
  all_seen s t v r id = elim (Option-cases (HashMap.get s.id_to_internal id)) [
    | inl e ↦ ground (arith, r.reads id)
    | inr (i, e) ↦
        ground (arith, r.reads id, lt_of_get_elem? s.internal_to_id i {x = id} (v.live id i e).0)
  ]

  -- All slots of a valid storage: what is restored reads as the storage does.
  pub restore_all :
      (s : VectorStorage env)
      → IsValid env s
      → length s.internal_to_id ≤ internal_id_limit
      → (t : VectorStorage env) × (restore_vectors index codecs
            (slots_vectors (all_internal_ids env s) s)
            (new env s.dimensions)
          ≡ ok t)
        × IsValid env t
        × (t.dimensions ≡ s.dimensions)
        × (length t.internal_to_id ≤ length s.internal_to_id)
        × ((id : VectorId) → view env t id ≡ view env s id)
        × (s.deleted ≡ [] → length t.internal_to_id ≡ length s.internal_to_id)
  unfolding all_internal_ids
  restore_all s v room =
      let empty : IsRestored 0 s (new env s.dimensions) = record {
        valid = new-IsValid env s.dimensions;
        dimensions = unfold new in refl;
        slots = unfold new in omega arith;
        whole = λ none_deleted. unfold new in refl;
        reads = λ id.
            unfold new view get_internal_id in ground (arith, HashMap.get-new {V = InternalId} id);
      } in
      let n = length s.internal_to_id in
      let (t, done, r) =
        restore_range 0 n n s (new env s.dimensions) v (omega arith) (omega arith) room empty in
      (t, done, r.valid, r.dimensions, r.slots, λ id. all_seen s t v r id, r.whole)
