-- ===== src/Examples/VectorDb.antt =====
-- A `VectorDb` with vectors of one component on a line, filled and searched.
use zapybase.Prelude.{
  All, ℕ, ◌+◌, ◌-◌, ◌≤◌, ◌<◌, ◌≡◌, refl, subst, true, Option, none, some, List, [], ◌∷◌, arith,
  length, max, min,
}
use zapybase.Error.{ok}
use zapybase.Storage
use zapybase.Storage.{VectorStorage, VectorId, Item}
use zapybase.Hnsw.Insert
use zapybase.Hnsw.Connect.{new_node}
use zapybase.Collections.HashMap
use zapybase.Env.{Meta}
use zapybase.VectorDb.{Config, VectorDb, new, insert, upsert, upsert_batch, search, index_vector}
use zapybase.VectorDb.Ready.{IsReady, Kept, new-IsReady, insert-Kept}
use zapybase.VectorDb.Batch.{upsert_batch-Kept}
use zapybase.VectorDb.Found.{IsAnswer, search-IsAnswer}
use zapybase.Examples.{env}
use zapybase.Examples.Hnsw.{env-IsStrict, index}

abbrev gap : List ℕ → List ℕ → ℕ
gap (a ∷ as') (b ∷ bs) = max a b - min a b
gap as' bs = 0

abbrev config : Config
config = record { dimensions = 1; hnsw = index.config }

empty-IsReady : IsReady (new env config)
empty-IsReady = new-IsReady config (omega arith) (omega arith)

small : length (new env config).storage.internal_to_id < Storage.internal_id_limit
unfolding new Storage.new
small = omega arith

insert-Kept_example :
    Kept gap
      (insert env gap 0 "a" (3 ∷ []) none (new env config))
      (Storage.insert env "a" (3 ∷ []) none (new env config).storage)
      (new env config)
    × Kept gap
        (upsert env gap 0 "a" (3 ∷ []) none (new env config))
        (Storage.upsert env "a" (3 ∷ []) none (new env config).storage)
        (new env config)
insert-Kept_example =
    insert-Kept gap 0 "a" (3 ∷ []) none (new env config) env-IsStrict small empty-IsReady

abbrev items : List (Item env)
items = ("a", 3 ∷ [], none) ∷ ("b", 5 ∷ [], none) ∷ ("a", 7 ∷ [], none) ∷ []

room : length (new env config).storage.internal_to_id + 3 ≤ Storage.internal_id_limit
unfolding new Storage.new
room = omega arith

upsert_batch-Kept_example :
    Kept gap
      (upsert_batch env gap (λ i. i) items (new env config))
      (Storage.upsert_batch env items (new env config).storage)
      (new env config)
upsert_batch-Kept_example =
    upsert_batch-Kept gap (λ i. i) items (new env config) env-IsStrict room empty-IsReady

-- the database with one vector
abbrev db_a : VectorDb env
db_a = record {
  config = config;
  storage = (Storage.insert env "a" (3 ∷ []) none (Storage.new env 1)).1;
  index = record {
    config = index.config;
    nodes = record { id = 0; max_layer = 0; neighbors = [] ∷ [] } ∷ [];
    entry_point = some 0;
    max_layer = 0;
  };
}

insert_run : insert env gap 0 "a" (3 ∷ []) none (new env config) ≡ some (ok tt, db_a)
unfolding insert new index_vector Insert.new Insert.insert new_node Storage.new Storage.insert
    Storage.insert_internal Storage.append_record Storage.retire_old Storage.store_metadata
    Storage.internal_id_from HashMap.get HashMap.contains_key HashMap.insert
insert_run = refl

db_a-IsReady : IsReady db_a
db_a-IsReady =
    let (out, done, ready, reply, same, kept) = insert-Kept_example.0 in
    let is : out ≡ (ok tt, db_a) = ground (arith, done, insert_run) in
    subst (λ o. IsReady o.1) is ready

one_slot : 0 < length db_a.storage.internal_to_id
unfolding Storage.new Storage.insert Storage.insert_internal Storage.append_record
    Storage.retire_old Storage.store_metadata Storage.internal_id_from HashMap.get
    HashMap.contains_key HashMap.insert
one_slot = omega arith

search-IsAnswer_example :
    (found : List (VectorId × ℕ × Option (Meta env))) × (search env gap true (5 ∷ []) 2 none db_a
      ≡ some (ok found))
    × (length found ≤ 2)
    × All (IsAnswer gap (5 ∷ []) db_a.storage) found
search-IsAnswer_example =
    search-IsAnswer gap (5 ∷ []) true 2 none db_a env-IsStrict db_a-IsReady refl one_slot
