-- ===== src/Telemetry/Delta/Flags.antt =====
-- `clampToInt8`, `clampToInt16` and `roundDivideSigned` of PacketHandler.cpp.
use Prim.Native.Nat.{bit_or}
use smart_fires_io_t.Base.{
  ℕ, suc, ◌+◌, ◌/◌, ◌≤◌, ◌<◌, ◌≡◌, Bool, true, false, ◌&&◌, ltb, leb, arith, refl,
}
use smart_fires_io_t.Base.Int.{
  ℤ, pos, negsuc, pos_part, neg_part, ◌+ℤ◌, ◌-ℤ◌, quot, times, leb_ℤ, int32, InRange,
  from_bits-to_bits_32,
}
use smart_fires_io_t.Base.Table.{law_below, law_below_at}
use smart_fires_io_t.Telemetry.Delta.{round_divide_signed, clamp_to_int8, clamp_to_int16}

or_law : ℕ → ℕ → Bool
or_law a b = ltb (bit_or a b) 256 && leb a (bit_or a b) && leb b (bit_or a b)

or_table : law_below (λ a. law_below (or_law a) 256) 256 ≡ true
unfolding law_below or_law
or_table = refl

or_law_parts :
    (a b : ℕ) → or_law a b ≡ true → (bit_or a b < 256) × (a ≤ bit_or a b) × (b ≤ bit_or a b)
unfolding or_law
or_law_parts a b e = ground arith

-- Setting bits of a byte leaves a byte, and never a smaller one.
pub or_bytes :
    (a b : ℕ) → a < 256 → b < 256 → (bit_or a b < 256) × (a ≤ bit_or a b) × (b ≤ bit_or a b)
or_bytes a b ha hb =
    let e : or_law a b ≡ true =
      law_below_at (or_law a) b 256 hb
        (law_below_at (λ k. law_below (or_law k) 256) a 256 ha or_table) in
    or_law_parts a b e

-- What clamping makes of a value and of the flags: the value in range is kept, one out of range sets
-- the flag.
pub record Clamped (half flag_bit flags : ℕ) (value : ℤ) (r : ℤ × ℕ) : Type 0 where
  pub fits : InRange half r.0
  pub byte : r.1 < 256
  pub keeps : flags ≤ r.1
  pub exact : (r.1 ≡ 0) → r.0 ≡ value

pub clamp_to_int8-Clamped :
    (value : ℤ) (flag_bit flags : ℕ)
    → 0 < flag_bit
    → flag_bit < 256
    → flags < 256
    → Clamped 128 flag_bit flags value (clamp_to_int8 value flag_bit flags)
unfolding clamp_to_int8
clamp_to_int8-Clamped value flag_bit flags p h k =
    let o = or_bytes flags flag_bit k h in
    record { fits = ground arith; byte = ground arith; keeps = ground arith; exact = ground arith }

pub clamp_to_int16-Clamped :
    (value : ℤ) (flag_bit flags : ℕ)
    → 0 < flag_bit
    → flag_bit < 256
    → flags < 256
    → Clamped 32768 flag_bit flags value (clamp_to_int16 value flag_bit flags)
unfolding clamp_to_int16
clamp_to_int16-Clamped value flag_bit flags p h k =
    let o = or_bytes flags flag_bit k h in
    record { fits = ground arith; byte = ground arith; keeps = ground arith; exact = ground arith }

-- Two integers that differ by at most `k`.
abbrev pub Near : ℕ → ℤ → ℤ → Type 0
Near k a b = (pos_part (a -ℤ b) ≤ k) × (neg_part (a -ℤ b) ≤ k)

add_pos : (n k : ℕ) → pos n +ℤ pos k ≡ pos (n + k)
add_pos n k = ground arith

quot_pos : (m d : ℕ) → 0 < d → quot (pos m) d ≡ pos (m / d)
quot_pos m d p = ground arith

div_le : (m d : ℕ) → m / d ≤ m
div_le m d = grind arith

-- The rounding of a magnitude, which wraps nowhere.
magnitude :
    (n d : ℕ)
    → n ≤ 65536
    → 0 < d
    → d < 100
    → quot (int32 (pos n +ℤ pos (d / 2))) d ≡ pos ((n + d / 2) / d)
magnitude n d h p k =
    rw (add_pos n (d / 2), from_bits-to_bits_32 (pos (n + d / 2)) (omega arith, omega arith))
      (quot_pos (n + d / 2) d p)

sign_pos : (n : ℕ) → leb_ℤ (pos 0) (pos n) ≡ true
sign_pos n = ground arith

round_pos :
    (n d : ℕ) → n ≤ 65536 → 0 < d → d < 100 → round_divide_signed (pos n) d ≡ pos ((n + d / 2) / d)
unfolding round_divide_signed
round_pos n d h p k = rw (sign_pos n) (magnitude n d h p k)

negated : (n : ℕ) → pos 0 -ℤ negsuc n ≡ pos (suc n)
negated n = ground arith

sign_neg : (n : ℕ) → leb_ℤ (pos 0) (negsuc n) ≡ false
sign_neg n = ground arith

minus_fits : (m : ℕ) → m ≤ 70000 → InRange 2147483648 (pos 0 -ℤ pos m)
minus_fits m h = ground arith

round_neg :
    (n d : ℕ)
    → suc n ≤ 65536
    → 0 < d
    → d < 100
    → round_divide_signed (negsuc n) d ≡ pos 0 -ℤ pos ((suc n + d / 2) / d)
unfolding round_divide_signed
round_neg n d h p k =
    rw
      (
        sign_neg n,
        negated n,
        from_bits-to_bits_32 (pos (suc n)) (omega arith, omega arith),
        magnitude (suc n) d h p k,
      )
      (from_bits-to_bits_32 _
        (minus_fits ((suc n + d / 2) / d) (omega (arith, div_le (suc n + d / 2) d))))

-- Rounding to tens and to twenties, of differences of 16-bit values.
pub round_10 : (v : ℤ) → InRange 65536 v → Near 5 (times (round_divide_signed v 10) 10) v
round_10 (pos n) h = rw (round_pos n 10 (omega arith) (omega arith) (omega arith)) (ground arith)
round_10 (negsuc n) h = rw (round_neg n 10 (omega arith) (omega arith) (omega arith)) (ground arith)

pub round_20 : (v : ℤ) → InRange 65536 v → Near 10 (times (round_divide_signed v 20) 20) v
round_20 (pos n) h = rw (round_pos n 20 (omega arith) (omega arith) (omega arith)) (ground arith)
round_20 (negsuc n) h = rw (round_neg n 20 (omega arith) (omega arith) (omega arith)) (ground arith)
