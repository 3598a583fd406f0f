-- ===== src/Env.antt =====
-- What the code takes from other crates and from the hardware: JSON values, bitmaps and floats.
use zapybase.Float.{Float}
use zapybase.Metadata.Json.{Value, Serde}
use zapybase.Metadata.Roaring.{Roaring}

pub record Env : Type 1 where
  pub serde : Serde
  pub roaring : Roaring
  pub f32 : Float

-- the components of a vector, and the metadata of one
abbrev pub Num : Env → Type 0
Num env = env.f32.Num

abbrev pub Meta : Env → Type 0
Meta env = Value env.serde.Number
