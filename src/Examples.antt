-- ===== src/Examples.antt =====
-- Concrete runs and instances: an environment in which everything computes.
mod Metadata
mod Storage
mod Wal
mod Snapshot
mod Persistent
mod Hnsw
mod Insert
mod VectorDb
mod DiskAnn
mod MmapStorage
mod MmapDb
mod MultiVector
mod Sparse
use Prim.Native.Nat.{compare}
use zapybase.Prelude.{
  ℕ, ◌+◌, ◌-◌, ◌*◌, ◌/◌, String, Bool, true, false, ◌&&◌, Option, none, some, eqb, if◌then◌else◌,
}
use zapybase.Prelude.Eq.{◌==◌, string_eq}
use zapybase.Float.{Float}
use zapybase.Metadata.Json.{Value, null, bool, number, string, array, object, Serde}
use zapybase.Metadata.Roaring.{list_bitmap}
use zapybase.Env.{Env}

-- whole numbers in place of floats
abbrev pub whole : Float
whole = record {
  Num = ℕ;
  partial_cmp = λ a b. some (compare a b);
  add = λ a b. a + b;
  sub = λ a b. a - b;
  mul = λ a b. a * b;
  div = λ a b. a / b;
  sqrt = λ a. a;
  sin = λ a. a;
  cos = λ a. a;
  atan2 = λ a b. a;
  to_radians = λ a. a;
  from_nat = λ a. a;
  max_value = 1000000;
}

unfoldable pub print : Value ℕ → String
print null = "null"
print (bool true) = "true"
print (bool false) = "false"
print (number n) = if eqb n 2023 then "2023" else "number"
print (string s) = s
print (array a) = "array"
print (object o) = "object"

unfoldable pub same_value : Value ℕ → Value ℕ → Bool
same_value null null = true
same_value (bool true) (bool true) = true
same_value (bool false) (bool false) = true
same_value (number a) (number b) = eqb a b
same_value (string a) (string b) = a == b
same_value a b = false

unfoldable pub as_number : Value ℕ → Option ℕ
as_number (number n) = some n
as_number v = none

abbrev pub serde : Serde
serde = record {
  Number = ℕ;
  float = whole;
  to_string = print;
  value_eq = same_value;
  as_f64 = as_number;
}

abbrev pub env : Env
env = record { serde = serde; roaring = list_bitmap; f32 = whole }
