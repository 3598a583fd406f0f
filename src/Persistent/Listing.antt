-- ===== src/Persistent/Listing.antt =====
-- `list` of persistent.rs: the ids that are there, with their metadata.
use zapybase.Prelude.{
  All, Any, ℕ, zero, suc, ◌+◌, ◌*◌, ◌≤◌, ◌<◌, ◌≡◌, refl, ap, sym, subst, ◌∙◌, true, false, Option,
  some, List, ◌∷◌, arith, length, get_elem?, eqb, eqb_iff, eqb_refl, Bool-cases, inl, inr,
}
use zapybase.Prelude.Eq.{nat_eq, string_eq}
use zapybase.Prelude.Slices.{slice, get_elem?_of_lt, lt_of_get_elem?, take_all}
use zapybase.Collections.HashMap.{is_some}
use zapybase.Storage.Steps.{internal_id_some}
use zapybase.Env.{Env, Num, Meta}
use zapybase.Storage.{
  VectorStorage, VectorId, InternalId, internal_id_limit, get_metadata, get_internal_id,
  get_external_id, is_deleted, range, all_internal_ids,
}
use zapybase.Storage.Invariant.{IsValid}
use zapybase.Storage.Preserve.{internal_id_from_lem}
use zapybase.Storage.View.{view, get_slot}
use zapybase.Persistent.{Index, Codecs, PersistentVectorDb}
use zapybase.Persistent.Operations.{list, live_slots, current_id}

module _ {env : Env} (index : Index env) (codecs : Codecs env index.State) where
  some_id : (a b : VectorId) → some a ≡ some b → a ≡ b
  some_id a b h = ground arith

  -- the entry is what the storage reads at its id
  abbrev pub IsRead : VectorStorage env → VectorId × Option (Meta env) → Type 0
  IsRead s e = (vector : List (Num env)) × (view env s e.0 ≡ some (vector, e.1))

  -- a slot that is not deleted is the current one of its id
  current_slot :
      (i : InternalId) (s : VectorStorage env)
      → IsValid env s
      → i < length s.internal_to_id
      → is_deleted env s i ≡ false
      → (id : VectorId) × (get_elem? s.internal_to_id i ≡ some id)
        × (current_id index codecs s i ≡ some id)
        × IsRead s (id, get_metadata env s i)
  unfolding is_deleted current_id get_external_id get_internal_id view
  current_slot i s v h live =
      let (id, at) = get_elem?_of_lt s.internal_to_id i h in
      let known = v.complete i id at live in
      let stored = get_slot env s i v h in
      (
        id,
        at,
        ground (arith, at, known, eqb_refl i),
        (slice s.vectors (i * s.dimensions) s.dimensions, ground (arith, known, stored)),
      )

  skip_slot :
      (i : InternalId) (ids : List InternalId) (s : VectorStorage env)
      → is_deleted env s i ≡ true
      → live_slots index codecs s (i ∷ ids) ≡ live_slots index codecs s ids
  unfolding live_slots
  skip_slot i ids s dead = rw (dead, live_slots) refl

  list_slot :
      (i : InternalId) (id : VectorId) (ids : List InternalId) (s : VectorStorage env)
      → is_deleted env s i ≡ false
      → current_id index codecs s i ≡ some id
      → live_slots index codecs s (i ∷ ids)
        ≡ (id, get_metadata env s i) ∷ live_slots index codecs s ids
  unfolding live_slots
  list_slot i id ids s live current = rw (live, current, live_slots) refl

  -- the listed slots from `from` on, without the wrap of the ids
  slots_from :
      (from count : ℕ) (s : VectorStorage env)
      → from < internal_id_limit
      → live_slots index codecs s (range env from (suc count))
        ≡ live_slots index codecs s (from ∷ range env (from + 1) count)
  unfolding range
  slots_from from count s h =
      ap (λ i. live_slots index codecs s (i ∷ range env (from + 1) count))
        (internal_id_from_lem from h)

  live_slots-IsRead :
      (from count to : ℕ) (s : VectorStorage env)
      → IsValid env s
      → from + count ≡ to
      → to ≤ length s.internal_to_id
      → length s.internal_to_id ≤ internal_id_limit
      → All (IsRead s) (live_slots index codecs s (range env from count))
  live_slots-IsRead from zero to s v same fits room = unfold live_slots range in tt
  live_slots-IsRead from (suc count) to s v same fits room =
      let ids = range env (from + 1) count in
      let step = slots_from from count s (omega arith) in
      let rest = live_slots-IsRead (from + 1) count to s v (omega arith) fits room in
      elim (Bool-cases (is_deleted env s from)) [
        | inl dead ↦ subst (All (IsRead s)) (sym (step ∙ skip_slot from ids s dead)) rest
        | inr live ↦
            let (id, at, current, read) = current_slot from s v (omega arith) live in
            subst (All (IsRead s)) (sym (step ∙ list_slot from id ids s live current)) (read, rest)
      ]

  live_slots_complete :
      (from count to i : ℕ) (id : VectorId) (s : VectorStorage env)
      → IsValid env s
      → from + count ≡ to
      → to ≤ length s.internal_to_id
      → length s.internal_to_id ≤ internal_id_limit
      → from ≤ i
      → i < to
      → get_elem? s.internal_to_id i ≡ some id
      → is_deleted env s i ≡ false
      → Any (λ e. e.0 ≡ id) (live_slots index codecs s (range env from count))
  live_slots_complete from zero to i id s v same fits room low high at alive = absurd (omega arith)
  live_slots_complete from (suc count) to i id s v same fits room low high at alive =
      let ids = range env (from + 1) count in
      let step = slots_from from count s (omega arith) in
      let p : VectorId × Option (Meta env) → Type 0 = λ e. e.0 ≡ id in
      elim (Bool-cases (eqb from i)) [
        | inl here ↦
            let same_slot : from ≡ i = (eqb_iff from i).0 here in
            let live = ap (is_deleted env s) same_slot ∙ alive in
            let (id', at', current, read) = current_slot from s v (omega arith) live in
            let named : id' ≡ id =
              some_id id' id (sym at' ∙ ap (get_elem? s.internal_to_id) same_slot ∙ at) in
            subst (Any p) (sym (step ∙ list_slot from id' ids s live current)) (inl named)
        | inr elsewhere ↦
            let later : from + 1 ≤ i = ground (arith, elsewhere, low) in
            let rest =
              live_slots_complete (from + 1) count to i id s v (omega arith) fits room later high at
                alive in
            elim (Bool-cases (is_deleted env s from)) [
              | inl dead ↦ subst (Any p) (sym (step ∙ skip_slot from ids s dead)) rest
              | inr live ↦
                  let (id', at', current, read) = current_slot from s v (omega arith) live in
                  subst (Any p) (sym (step ∙ list_slot from id' ids s live current)) (inr rest)
            ]
      ]

  -- The whole list of a valid storage, with a limit that it does not reach: each entry has the
  -- metadata that the storage reads at its id, and every id that reads as present is listed.
  pub list-view :
      (limit : ℕ) (db : PersistentVectorDb env index)
      → IsValid env db.storage
      → length db.storage.internal_to_id ≤ internal_id_limit
      → length (live_slots index codecs db.storage (all_internal_ids env db.storage)) ≤ limit
      → let listed = list index codecs 0 limit db in
        All (IsRead db.storage) listed
        × ((id : VectorId) → is_some (view env db.storage id) ≡ true → Any (λ e. e.0 ≡ id) listed)
  unfolding list all_internal_ids
  list-view limit db v room all_fit =
      let s = db.storage in
      let n = length s.internal_to_id in
      let listed = live_slots index codecs s (range env 0 n) in
      let whole = take_all listed limit all_fit in
      (
        rw whole (live_slots-IsRead 0 n n s v (omega arith) (omega arith) room),
        λ id there.
            let (i, known) = internal_id_some env id s v there in
            let (at, live) = v.live id i (unfold get_internal_id in known) in
            rw whole (
              live_slots_complete 0 n n i id s v (omega arith) (omega arith) room (omega arith)
                (lt_of_get_elem? s.internal_to_id i {x = id} at) at (unfold is_deleted in live)),
      )
