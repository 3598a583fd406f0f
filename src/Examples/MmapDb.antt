-- ===== src/Examples/MmapDb.antt =====
-- A `MmapVectorDb` over a storage with one vector, opened without the state of its index and filled.
use zapybase.Prelude.{ℕ, ◌-◌, ◌≡◌, refl, none, some, List, [], ◌∷◌, arith, length, max, min}
use zapybase.Error.{Result}
use zapybase.Hnsw.Insert
use zapybase.MmapStorage
use zapybase.MmapStorage.{append_vector, remap, vector_bytes}
use zapybase.VectorDb.Ready.{discard}
use zapybase.MmapDb.{MmapConfig, MmapVectorDb, StateCodec, insert}
use zapybase.MmapDb.Ready.{IsReady, new-IsSound}
use zapybase.MmapDb.Rebuilt.{Reopened, open_db-IsReady}
use zapybase.MmapDb.Grown.{insert-IsReady}
use zapybase.Examples.{env}
use zapybase.Examples.Hnsw.{env-IsStrict, index}
use zapybase.Examples.MmapStorage.{
  floats, floats-ReadsBack, codec, empty, empty-IsMapped, one, one-IsMapped,
}

abbrev gap : List ℕ → List ℕ → ℕ
gap (a ∷ as') (b ∷ bs) = max a b - min a b
gap as' bs = 0

-- the number of nodes stands for a state, and cannot be read back
abbrev states : StateCodec
states = record { serialize = λ state. some (length state.nodes ∷ []); deserialize = λ bytes. none }

abbrev config : MmapConfig
config = record { dimensions = 1; hnsw = index.config }

one_dimension : one.dimensions ≡ 1
unfolding append_vector remap vector_bytes
one_dimension = refl

one_slot : one.count ≡ 1
unfolding append_vector remap vector_bytes
one_slot = refl

named : one.internal_to_id ≡ "a" ∷ []
unfolding append_vector remap vector_bytes
named = refl

open_db-IsReady_example :
    Reopened gap floats codec states floats-ReadsBack
      (λ i. i)
      config
      (some (7 ∷ []))
      (MmapStorage.sync env floats codec one).1
open_db-IsReady_example =
    open_db-IsReady gap floats codec states floats-ReadsBack (λ i. i) config (some (7 ∷ [])) one
      env-IsStrict one-IsMapped
      (record { first = 2; others = []; written = rw named refl; read = rw named refl })
      (omega (arith, one_slot)) one_dimension (λ state. (length state.nodes ∷ [], refl))
      (λ bytes h. refl) (omega arith) (omega arith)

abbrev fresh : MmapVectorDb env
fresh = record {
  config = config;
  storage = empty;
  index = Insert.new env index.config;
  state_file = none;
}

fresh-IsReady : IsReady floats codec fresh
unfolding Insert.new
fresh-IsReady = record {
  valid = empty-IsMapped;
  sound = new-IsSound index.config;
  matched = refl;
  sized = refl;
  construction = omega arith;
  searching = omega arith;
}

insert-IsReady_example :
    let stored = MmapStorage.insert env floats codec "a" (7 ∷ []) empty in
    (out : Result (Unit {0}) × MmapVectorDb env) × (insert env gap floats codec states 0 "a"
        (7 ∷ [])
        fresh
      ≡ some out)
    × IsReady floats codec out.1
    × (out.0 ≡ discard stored.0)
    × (out.1.storage ≡ stored.1)
    × (out.1.state_file ≡ none)
insert-IsReady_example =
    insert-IsReady gap floats codec states floats-ReadsBack 0 "a" (7 ∷ []) fresh env-IsStrict
      (omega arith) (record { first = 2; others = []; written = refl; read = refl }) fresh-IsReady
