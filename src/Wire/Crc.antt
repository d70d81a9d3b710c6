-- ===== src/Wire/Crc.antt =====
-- `crc8` of BinaryPacket.h: polynomial 0x31, most significant bit first. A buffer with its length is
-- the list of its bytes.
pub mod Laws
pub mod Detect
use Prim.Native.Nat.{bit_and, bit_xor}
use smart_fires_io_t.Base.{
  ℕ, zero, suc, ◌*◌, ◌-◌, ◌+◌, List, [], ◌∷◌, ◌++◌, Bool, true, false, not, ◌==◌, if◌then◌else◌,
  length, take, get_or,
}
use smart_fires_io_t.Base.Word.{u8}

-- One round of the inner loop.
unfoldable pub crc_bit : ℕ → ℕ
crc_bit crc = if not (bit_and crc 0x80 == 0) then u8 (bit_xor (crc * 2) 0x31) else u8 (crc * 2)

-- The inner loop over `j`, by the rounds left.
unfoldable pub crc_bits : ℕ → ℕ → ℕ
unfolding crc_bit
crc_bits zero crc = crc
crc_bits (suc n) crc = crc_bits n (crc_bit crc)

-- The outer loop over the bytes, from a value of `crc` on.
unfoldable pub crc8_from : ℕ → List ℕ → ℕ
unfolding crc_bits
crc8_from crc [] = crc
crc8_from crc (b ∷ bs) = crc8_from (crc_bits 8 (bit_xor crc b)) bs

unfoldable pub crc8 : List ℕ → ℕ
unfolding crc8_from
crc8 bytes = crc8_from 0 bytes

-- `buf[n] = crc8(buf, n)`, at the end of every encoder of a LoRa payload.
unfoldable pub seal : List ℕ → List ℕ
seal bytes = bytes ++ (crc8 bytes ∷ [])

-- `crc8(raw, len - 1) == raw[len - 1]`, the integrity test of the decoders.
unfoldable pub crc_ok : List ℕ → Bool
crc_ok raw = crc8 (take (length raw - 1) raw) == get_or raw (length raw - 1) 0
