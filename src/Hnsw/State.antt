-- ===== src/Hnsw/State.antt =====
-- The state of the index of hnsw.rs that is saved and loaded.
use zapybase.Prelude.{ℕ, Option, List}
use zapybase.Env.{Env}
use zapybase.Storage.{InternalId}
use zapybase.Hnsw.{HnswNode, HnswIndex}

-- `HnswState`
pub record HnswState : Type 0 where
  pub nodes : List HnswNode
  pub entry_point : Option InternalId
  pub max_layer : ℕ

module _ (env : Env) where
  -- `get_state` and `load_state` of the index
  unfoldable pub get_state : HnswIndex env → HnswState
  get_state index = record {
    nodes = index.nodes;
    entry_point = index.entry_point;
    max_layer = index.max_layer;
  }

  unfoldable pub load_state : HnswState → HnswIndex env → HnswIndex env
  load_state state index = record index {
    nodes = state.nodes;
    entry_point = state.entry_point;
    max_layer = state.max_layer;
  }
