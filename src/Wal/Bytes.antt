-- ===== src/Wal/Bytes.antt =====
-- Bytes of a file: little-endian words and `read_exact`.
use zapybase.Prelude.{
  ℕ, ◌+◌, ◌*◌, ◌/◌, ◌%◌, ◌^◌, ◌<◌, ◌≡◌, refl, Bool, true, false, ◌&&◌, Option, none, some, List, [],
  ◌∷◌, ◌++◌, arith, length, length-append, take, drop, eqb, leb, le→leb, if◌then◌else◌,
}
use zapybase.Prelude.Slices.{take-append_self, drop-append_self}

abbrev pub Byte : Type 0
Byte = ℕ

-- `u32::to_le_bytes`
unfoldable pub to_le_bytes : ℕ → List Byte
to_le_bytes n = (n % 256) ∷ (n / 256 % 256) ∷ (n / 65536 % 256) ∷ (n / 16777216 % 256) ∷ []

-- `u32::from_le_bytes`, of four bytes
unfoldable pub from_le_bytes : List Byte → ℕ
from_le_bytes (a ∷ b ∷ c ∷ d ∷ []) = a + 256 * b + 65536 * c + 16777216 * d
from_le_bytes other = 0

-- the bytes that are read, and what is left; `none` is the error at the end of the file
unfoldable pub read_exact : ℕ → List Byte → Option (List Byte × List Byte)
read_exact n bytes = if leb n (length bytes) then some (take n bytes, drop n bytes) else none

unfoldable pub bytes_eq : List Byte → List Byte → Bool
bytes_eq [] [] = true
bytes_eq (a ∷ as') (b ∷ bs) = eqb a b && bytes_eq as' bs
bytes_eq as' bs = false

pub from_le_bytes-to_le_bytes : (n : ℕ) → n < 2 ^ 32 → from_le_bytes (to_le_bytes n) ≡ n
unfolding to_le_bytes from_le_bytes
from_le_bytes-to_le_bytes n h = omega arith

pub length-to_le_bytes : (n : ℕ) → length (to_le_bytes n) ≡ 4
unfolding to_le_bytes
length-to_le_bytes n = refl

-- Reading as many bytes as were written gives them back.
pub read_exact-append :
    (n : ℕ) (xs ys : List Byte) → n ≡ length xs → read_exact n (xs ++ ys) ≡ some (xs, ys)
unfolding read_exact
read_exact-append n xs ys h = rw (
  le→leb n (length (xs ++ ys)) (omega (arith, length-append xs ys)),
  take-append_self xs ys n h,
  drop-append_self xs ys n h,
)

pub read_exact_short : (n : ℕ) (bytes : List Byte) → length bytes < n → read_exact n bytes ≡ none
unfolding read_exact
read_exact_short n bytes h = ground arith
