-- ===== src/Float.antt =====
-- `f32` and `f64` of the language: an abstract carrier with the operations that the code uses.
-- Nothing is assumed of rounding; a theorem that needs a law of the order names it as a hypothesis.
use Prim.Native.Nat.{Ordering}
use zapybase.Prelude.{ℕ, Bool, true, false, Option, some}

pub record Float : Type 1 where
  pub Num : Type 0
  pub partial_cmp : Num → Num → Option Ordering
  pub add : Num → Num → Num
  pub sub : Num → Num → Num
  pub mul : Num → Num → Num
  pub div : Num → Num → Num
  pub sqrt : Num → Num
  pub sin : Num → Num
  pub cos : Num → Num
  pub atan2 : Num → Num → Num
  pub to_radians : Num → Num
  pub from_nat : ℕ → Num
  pub max_value : Num

-- `a < b`, `a <= b`: false where the two do not compare.
abbrev pub is_less : Option Ordering → Bool
is_less (some Ordering.lt) = true
is_less _ = false

abbrev pub is_less_or_equal : Option Ordering → Bool
is_less_or_equal (some Ordering.lt) = true
is_less_or_equal (some Ordering.eq) = true
is_less_or_equal _ = false

abbrev pub is_greater : Option Ordering → Bool
is_greater (some Ordering.gt) = true
is_greater _ = false

abbrev pub is_greater_or_equal : Option Ordering → Bool
is_greater_or_equal (some Ordering.gt) = true
is_greater_or_equal (some Ordering.eq) = true
is_greater_or_equal _ = false
