-- ===== src/Examples/Snapshot.antt =====
-- Runs of snapshot.rs over a small codec: the index has one node without a neighbor.
use zapybase.Prelude.{
  ℕ, zero, suc, ◌+◌, ◌≤◌, ◌≡◌, refl, subst, true, Option, none, some, List, [], ◌∷◌, ◌++◌, arith,
  length, leb, le→leb, length-append, take, drop, if◌then◌else◌,
}
use zapybase.Prelude.Eq.{◌==◌, string_eq}
use zapybase.Prelude.Slices.{take-append_self, drop-append_self}
use zapybase.Error.{ok}
use zapybase.Storage.{InternalId}
use zapybase.Hnsw.{HnswNode}
use zapybase.Hnsw.State.{HnswState}
use zapybase.Wal.Bytes.{Byte}
use zapybase.Snapshot.{
  SnapshotHeader, SnapshotManager, Snapshot, StoredVector, Codec, write_snapshot, write_state,
  write_batches, header_of, save, load_latest,
}
use zapybase.Snapshot.Directory.{AllBelow}
use zapybase.Snapshot.Batches.{ReadsBack}
use zapybase.Snapshot.Reload.{save_reloads}
use zapybase.Examples.{env}

unfoldable pub encode_header : List Byte → SnapshotHeader → Option (List Byte)
encode_header (a ∷ b ∷ c ∷ d ∷ []) h =
    some (a ∷ b ∷ c ∷ d ∷ h.version ∷ h.id ∷ h.wal_seq ∷ h.dimensions ∷ h.vector_count ∷ [])
encode_header other h = none

unfoldable pub decode_header : List Byte → Option (SnapshotHeader × List Byte)
decode_header (a ∷ b ∷ c ∷ d ∷ version ∷ id ∷ wal_seq ∷ dimensions ∷ vector_count ∷ rest) = some (
  record {
    magic = a ∷ b ∷ c ∷ d ∷ [];
    version = version;
    id = id;
    wal_seq = wal_seq;
    dimensions = dimensions;
    vector_count = vector_count;
  },
  rest,
)
decode_header other = none

-- a node at layer 0 that has no neighbor, and no other graph
unfoldable pub encode_node :
    ℕ → ℕ → List (List InternalId) → Option InternalId → ℕ → Option (List Byte)
encode_node id level ([] ∷ []) (some entry) top = some (1 ∷ id ∷ level ∷ entry ∷ top ∷ [])
encode_node id level other entry top = none

unfoldable pub encode_graph : List HnswNode → Option InternalId → ℕ → Option (List Byte)
encode_graph (node ∷ []) entry top = encode_node node.id node.max_layer node.neighbors entry top
encode_graph other entry top = none

unfoldable pub encode_state : Option HnswState → Option (List Byte)
encode_state none = some (0 ∷ [])
encode_state (some state) = encode_graph state.nodes state.entry_point state.max_layer

abbrev pub lone : ℕ → ℕ → ℕ → ℕ → HnswState
lone id level entry top = record {
  nodes = record { id = id; max_layer = level; neighbors = [] ∷ [] } ∷ [];
  entry_point = some entry;
  max_layer = top;
}

unfoldable pub decode_state : List Byte → Option (Option HnswState × List Byte)
decode_state (zero ∷ rest) = some (none, rest)
decode_state (suc zero ∷ id ∷ level ∷ entry ∷ top ∷ rest) =
    some (some (lone id level entry top), rest)
decode_state other = none

abbrev pub stored_a : List ℕ → StoredVector env HnswState
stored_a vector = record { id = "a"; vector = vector; metadata = none }

-- Only a batch of one vector, of the id "a" and without metadata, is stored.
unfoldable pub encode_batch : List (StoredVector env HnswState) → Option (List Byte)
encode_batch (v ∷ []) = elim v.metadata [
  | none ↦ if v.id == "a" then some (length v.vector ∷ v.vector) else none
  | some m ↦ none
]
encode_batch other = none

unfoldable pub decode_batch : List Byte → Option (List (StoredVector env HnswState) × List Byte)
decode_batch [] = none
decode_batch (n ∷ bytes) =
    if leb n (length bytes) then some (stored_a (take n bytes) ∷ [], drop n bytes) else none

abbrev pub codec : Codec env HnswState
codec = record {
  serialize_header = λ h. encode_header h.magic h;
  serialize_state = encode_state;
  serialize_batch = encode_batch;
  deserialize_header = decode_header;
  deserialize_state = decode_state;
  deserialize_batch = decode_batch;
}

some_injective : (a b : List Byte) → some a ≡ some b → a ≡ b
some_injective a b h = ground arith

header_at :
    (magic : List Byte) (h : SnapshotHeader) (bytes rest : List Byte)
    → encode_header magic h ≡ some bytes
    → decode_header (bytes ++ rest) ≡ some (record h { magic = magic }, rest)
unfolding encode_header decode_header
header_at [] h bytes rest e = cc
header_at (a ∷ []) h bytes rest e = cc
header_at (a ∷ b ∷ []) h bytes rest e = cc
header_at (a ∷ b ∷ c ∷ []) h bytes rest e = cc
header_at (a ∷ b ∷ c ∷ d ∷ []) h bytes rest e = ground arith
header_at (a ∷ b ∷ c ∷ d ∷ f ∷ magic) h bytes rest e = cc

node_at :
    (id level : ℕ) (neighbors : List (List InternalId)) (entry : Option InternalId) (top : ℕ)
    (bytes rest : List Byte)
    → encode_node id level neighbors entry top ≡ some bytes
    → decode_state (bytes ++ rest)
      ≡ some (
        some (record {
          nodes = record { id = id; max_layer = level; neighbors = neighbors } ∷ [];
          entry_point = entry;
          max_layer = top;
        }),
        rest,
      )
unfolding encode_node decode_state
node_at id level [] entry top bytes rest e = cc
node_at id level ([] ∷ []) none top bytes rest e = cc
node_at id level ([] ∷ []) (some entry) top bytes rest e =
    subst (λ bs. decode_state (bs ++ rest) ≡ some (some (lone id level entry top), rest))
      (some_injective (1 ∷ id ∷ level ∷ entry ∷ top ∷ []) bytes e) refl
node_at id level ([] ∷ ids ∷ others) entry top bytes rest e = cc
node_at id level ((i ∷ ids) ∷ others) entry top bytes rest e = cc

graph_at :
    (nodes : List HnswNode) (entry : Option InternalId) (top : ℕ) (bytes rest : List Byte)
    → encode_graph nodes entry top ≡ some bytes
    → decode_state (bytes ++ rest)
      ≡ some (some (record { nodes = nodes; entry_point = entry; max_layer = top }), rest)
unfolding encode_graph
graph_at [] entry top bytes rest e = cc
graph_at (node ∷ []) entry top bytes rest e =
    node_at node.id node.max_layer node.neighbors entry top bytes rest e
graph_at (node ∷ other ∷ nodes) entry top bytes rest e = cc

state_at :
    (state : Option HnswState) (bytes rest : List Byte)
    → encode_state state ≡ some bytes
    → decode_state (bytes ++ rest) ≡ some (state, rest)
unfolding encode_state decode_state
state_at none bytes rest e = ground arith
state_at (some state) bytes rest e =
    graph_at state.nodes state.entry_point state.max_layer bytes rest e

decode_batch_lem :
    (vector rest : List ℕ)
    → decode_batch ((length vector ∷ vector) ++ rest) ≡ some (stored_a vector ∷ [], rest)
unfolding decode_batch
decode_batch_lem vector rest = rw (
  le→leb (length vector) (length (vector ++ rest)) (omega (arith, length-append vector rest)),
  take-append_self vector rest (length vector) refl,
  drop-append_self vector rest (length vector) refl,
)

batch_at :
    (id : _) (vector : List ℕ) (metadata : _) (bytes rest : List Byte)
    → encode_batch (record { id = id; vector = vector; metadata = metadata } ∷ []) ≡ some bytes
    → (decode_batch (bytes ++ rest)
        ≡ some (record { id = id; vector = vector; metadata = metadata } ∷ [], rest))
      × (1 ≤ length bytes)
unfolding encode_batch
batch_at id vector none bytes rest e =
    ground (arith, string_eq.beq_iff id "a", decode_batch_lem vector rest)
batch_at id vector (some m) bytes rest e = cc

batches_at :
    (batch : List (StoredVector env HnswState)) (bytes rest : List Byte)
    → encode_batch batch ≡ some bytes
    → (decode_batch (bytes ++ rest) ≡ some (batch, rest)) × (1 ≤ length bytes)
unfolding encode_batch
batches_at [] bytes rest e = cc
batches_at (v ∷ []) bytes rest e = batch_at v.id v.vector v.metadata bytes rest e
batches_at (v ∷ w ∷ batch) bytes rest e = cc

pub codec-ReadsBack : ReadsBack codec
codec-ReadsBack = record {
  header_round_trip = λ h bytes rest e. header_at h.magic h bytes rest e;
  state_round_trip = state_at;
  batch_round_trip = λ batch bytes rest e. (batches_at batch bytes rest e).0;
  batch_takes = λ batch bytes e. (batches_at batch bytes [] e).1;
}

-- one vector and an index state
abbrev one : Snapshot env HnswState
one = record {
  id = 7;
  wal_seq = 1;
  dimensions = 2;
  vectors = stored_a (3 ∷ 4 ∷ []) ∷ [];
  hnsw_state = some (lone 0 0 0 0);
}

one_written : (write_snapshot codec one).0 ≡ true
unfolding write_snapshot write_state write_batches header_of encode_header encode_state encode_graph
    encode_node encode_batch
one_written = refl

-- an older file, which is not a snapshot at all
abbrev manager : SnapshotManager
manager = record { dir = (3, 0 ∷ []) ∷ []; retain_count = 1 }

save_reloads_example :
    (let out = save codec one manager in
      (out.0 ≡ ok tt)
      × (load_latest codec out.1 ≡ ok (some one))
      × AllBelow (7 + 1) out.1.dir
      × (out.1.retain_count ≡ 1))
save_reloads_example =
    save_reloads codec one manager codec-ReadsBack (omega arith) (omega arith, tt) one_written
