-- ===== src/Wal/Crc32.antt =====
-- `crc32` of wal.rs: the bitwise CRC of the IEEE polynomial, reflected.
use Prim.Native.Nat.{bit_and, bit_xor}
use zapybase.Prelude.{ℕ, zero, suc, ◌/◌, ◌≡◌, refl, List, [], ◌∷◌, eqb, if◌then◌else◌}

-- one round of the inner loop
unfoldable pub crc_round : ℕ → ℕ
crc_round crc = if eqb (bit_and crc 1) 0 then crc / 2 else bit_xor (crc / 2) 0xEDB88320

unfoldable pub crc_rounds : ℕ → ℕ → ℕ
unfolding crc_round
crc_rounds zero crc = crc
crc_rounds (suc n) crc = crc_rounds n (crc_round crc)

-- the loop over the bytes
unfoldable pub crc_bytes : List ℕ → ℕ → ℕ
unfolding crc_rounds
crc_bytes [] crc = crc
crc_bytes (byte ∷ bytes) crc = crc_bytes bytes (crc_rounds 8 (bit_xor crc byte))

-- `!crc` on a `u32` flips all its bits.
unfoldable pub crc32 : List ℕ → ℕ
unfolding crc_bytes
crc32 bytes = bit_xor (crc_bytes bytes 0xFFFFFFFF) 0xFFFFFFFF

-- the check value of the algorithm, on "123456789"
crc32_check : crc32 (49 ∷ 50 ∷ 51 ∷ 52 ∷ 53 ∷ 54 ∷ 55 ∷ 56 ∷ 57 ∷ []) ≡ 0xCBF43926
unfolding crc32
crc32_check = refl
