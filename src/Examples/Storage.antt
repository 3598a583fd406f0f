-- ===== src/Examples/Storage.antt =====
-- Runs of storage.rs, and its theorems at a storage with two vectors.
use zapybase.Prelude.{
  ℕ, ◌≡◌, refl, false, ◌&&◌, none, some, List, [], ◌∷◌, arith, length, if◌then◌else◌,
}
use zapybase.Prelude.Eq.{◌==◌, string_eq}
use zapybase.Collections.HashMap
use zapybase.Collections.HashSet
use zapybase.Collections.HashMap.{is_some}
use zapybase.Error.{ok}
use zapybase.Metadata.Json.{Value, string, object, field, end}
use zapybase.Storage.{
  VectorStorage, VectorId, Item, new, upsert, delete, insert_internal, append_record, retire,
  retire_old, drop_metadata, store_metadata, internal_id_from, upsert_batch, bad_length, len,
  total_slots,
}
use zapybase.Storage.Invariant.{IsValid, new-IsValid}
use zapybase.Storage.Preserve.{insert_internal-IsValid}
use zapybase.Storage.View.{view}
use zapybase.Storage.Refines.{accepts, reply, insert_internal_refines, delete_refines}
use zapybase.Storage.Batch.{checked, upsert_batch_refines}
use zapybase.Examples.{env}

abbrev red : Value ℕ
red = object (field "color" (string "red") end)

abbrev one : VectorStorage env
one = (insert_internal env "a" (1 ∷ 2 ∷ []) (some red) false (new env 2)).1

one-IsValid : IsValid env one
one-IsValid =
    insert_internal-IsValid env "a" (1 ∷ 2 ∷ []) (some red) false (new env 2) (new-IsValid env 2)
      (unfold new in omega arith)

slots_one : length one.internal_to_id ≡ 1
unfolding new insert_internal append_record retire_old store_metadata internal_id_from HashMap.get
    HashMap.contains_key HashMap.insert
slots_one = refl

insert_internal-IsValid_example :
    IsValid env (insert_internal env "b" (3 ∷ 4 ∷ []) none false one).1
insert_internal-IsValid_example =
    insert_internal-IsValid env "b" (3 ∷ 4 ∷ []) none false one one-IsValid
      (omega (arith, slots_one))

insert_internal_refines_example :
    let out = insert_internal env "a" (3 ∷ 4 ∷ []) none false one in
    let present = is_some (view env one "a") in
    let accepted = accepts env one.dimensions 2 false present in
    (out.0 ≡ reply env one.dimensions 2 false present "a" (length one.internal_to_id))
    × ((j : VectorId)
        → view env out.1 j
          ≡ (if accepted && "a" == j then some (3 ∷ 4 ∷ [], none) else view env one j))
    × ((if accepted then one else out.1) ≡ one)
insert_internal_refines_example =
    insert_internal_refines env "a" (3 ∷ 4 ∷ []) none false one one-IsValid
      (omega (arith, slots_one))

delete_refines_example :
    (let out = delete env "a" one in
      (out.0 ≡ ok (is_some (view env one "a")))
      × ((j : VectorId) → view env out.1 j ≡ (if "a" == j then none else view env one j)))
delete_refines_example = delete_refines env "a" one one-IsValid

abbrev two_items : List (Item env)
two_items = ("a", 5 ∷ 6 ∷ [], none) ∷ ("b", 7 ∷ 8 ∷ [], some red) ∷ []

upsert_batch_refines_example :
    upsert_batch env two_items one
    ≡ checked env (bad_length env one.dimensions two_items) two_items one
upsert_batch_refines_example = upsert_batch_refines env two_items one

-- an update frees the old slot, and the count of live vectors stays
upsert_run :
    let s = (upsert env "a" (9 ∷ 9 ∷ []) none one).1 in
    (len env s ≡ 1) × (total_slots env s ≡ 2) × (s.deleted ≡ 0 ∷ [])
unfolding new insert_internal append_record retire_old store_metadata internal_id_from HashMap.get
    HashMap.contains_key HashMap.insert upsert retire drop_metadata HashMap.remove HashSet.insert
    len total_slots
upsert_run = (refl, refl, refl)
