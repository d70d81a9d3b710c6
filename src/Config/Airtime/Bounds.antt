-- ===== src/Config/Airtime/Bounds.antt =====
-- The formula of LoRaAirtime.h on the modems that a LoRa radio has, against exact arithmetic.
use smart_fires_io_t.Base.{
  ℕ, ◌+◌, ◌-◌, ◌*◌, ◌^◌, ◌≤◌, ◌<◌, ◌≡◌, true, Bool-cases, inl, inr, refl, if◌then◌else◌, arith,
}
use native.Mathlib.Nat.{pow-le-pow_right}
use smart_fires_io_t.Base.Int.{pos, pos_part, ◌+ℤ◌, ◌-ℤ◌, ltb_ℤ}
use smart_fires_io_t.Base.Word.{u32}
use smart_fires_io_t.Config.Airtime.{
  Modem, ceil_div, symbol_microseconds, payload_numerator, payload_denominator, coded_blocks,
  payload_symbols, total_quarter_symbols, microseconds, milliseconds,
}

pub record IsLoRa (m : Modem) : Type 0 where
  pub sf_low : 6 ≤ m.spreading_factor
  pub sf_high : m.spreading_factor ≤ 12
  pub wide : 62500 ≤ m.bandwidth_hz
  pub narrow : m.bandwidth_hz ≤ 500000
  pub rate : m.coding_rate_denominator ≤ 8
  pub preamble : m.preamble_symbols ≤ 1000

-- With no wrap the quotient is the least one whose product covers the numerator.
ceil_div_covers :
    (n d : ℕ) → 0 < d → n + d < 4294967296 → (n ≤ d * ceil_div n d) × (d * ceil_div n d < n + d)
unfolding ceil_div
ceil_div_covers n d p h = grind arith

ceil_div_mono : (a b d : ℕ) → a ≤ b → 0 < d → b + d < 4294967296 → ceil_div a d ≤ ceil_div b d
ceil_div_mono a b d h p q = grind (arith, ceil_div_covers a d, ceil_div_covers b d)

ceil_div-le : (n d q : ℕ) → 0 < d → n + d < 4294967296 → n ≤ d * q → ceil_div n d ≤ q
ceil_div-le n d q p h k = grind (arith, ceil_div_covers n d)

pow_sf-le : (sf : ℕ) → sf ≤ 12 → 2 ^ sf ≤ 4096
pow_sf-le sf h = pow-le-pow_right {n = 2} (omega arith) h

mul-le : (a b x y : ℕ) → a ≤ x → b ≤ y → a * b ≤ x * y
mul-le a b x y p q = grind arith

-- A symbol's time in whole microseconds is not below the exact time.
symbol_covers :
    (m : Modem)
    → IsLoRa m
    → (2 ^ m.spreading_factor * 1000000 ≤ m.bandwidth_hz * symbol_microseconds m)
      × (symbol_microseconds m ≤ 65536)
unfolding symbol_microseconds
symbol_covers m v =
    let low : 2 ^ m.spreading_factor * 1000000 ≤ 4096000000 =
      omega (arith, pow_sf-le m.spreading_factor v.sf_high) in
    let exact : u32 (2 ^ m.spreading_factor * 1000000) ≡ 2 ^ m.spreading_factor * 1000000 =
      omega arith in
    let n = 2 ^ m.spreading_factor * 1000000 in
    rw exact (
      (ceil_div_covers n m.bandwidth_hz (omega arith) (omega arith)).0,
      ceil_div-le n m.bandwidth_hz 65536 (omega arith) (omega arith) (omega arith),
    )

numerator-le :
    (bytes : ℕ) (m : Modem) → IsLoRa m → bytes ≤ 259 → pos_part (payload_numerator bytes m) ≤ 2092
unfolding payload_numerator
numerator-le bytes m v h = ground arith

denominator_bounds :
    (m : Modem) → IsLoRa m → (16 ≤ payload_denominator m) × (payload_denominator m ≤ 48)
unfolding payload_denominator
denominator_bounds m v = ground arith

blocks-le : (bytes : ℕ) (m : Modem) → IsLoRa m → bytes ≤ 259 → coded_blocks bytes m ≤ 131
unfolding coded_blocks
blocks-le bytes m v h = elim (Bool-cases (ltb_ℤ (pos 0) (payload_numerator bytes m))) [
  | inl some_left ↦ rw some_left (
      ceil_div-le n d 131 (omega (arith, bd)) (omega (arith, bd, bn))
        (omega (arith, bn, mul-le 16 131 d 131 bd.0 (omega arith))))
  | inr none_left ↦ rw none_left (omega arith)
]
  where
    n : ℕ
    n = pos_part (payload_numerator bytes m)

    d : ℕ
    d = payload_denominator m

    bd : (16 ≤ d) × (d ≤ 48)
    bd = denominator_bounds m v

    bn : n ≤ 2092
    bn = numerator-le bytes m v h

-- The number of quarter symbols, with nothing wrapped.
quarters_exact :
    (bytes : ℕ) (m : Modem)
    → IsLoRa m
    → bytes ≤ 259
    → (total_quarter_symbols bytes m
        ≡ 4 * m.preamble_symbols + 17 + 4 * (8 + coded_blocks bytes m * m.coding_rate_denominator))
      × (total_quarter_symbols bytes m ≤ 8241)
unfolding total_quarter_symbols payload_symbols
quarters_exact bytes m v h =
    let p =
      mul-le (coded_blocks bytes m) m.coding_rate_denominator 131 8 (blocks-le bytes m v h)
        v.rate in
    omega arith

-- The product of symbols and symbol time fits 32 bits.
product_fits :
    (bytes : ℕ) (m : Modem)
    → IsLoRa m
    → bytes ≤ 259
    → total_quarter_symbols bytes m * symbol_microseconds m ≤ 8241 * 65536
product_fits bytes m v h =
    mul-le (total_quarter_symbols bytes m) (symbol_microseconds m) 8241 65536
      (quarters_exact bytes m v h).1 (symbol_covers m v).1

microseconds_exact :
    (bytes : ℕ) (m : Modem)
    → IsLoRa m
    → bytes ≤ 259
    → microseconds bytes m ≡ ceil_div (total_quarter_symbols bytes m * symbol_microseconds m) 4
unfolding microseconds
microseconds_exact bytes m v h =
    let exact : u32 (total_quarter_symbols bytes m * symbol_microseconds m)
        ≡ total_quarter_symbols bytes m * symbol_microseconds m =
      omega (arith, product_fits bytes m v h) in
    rw exact refl

scaled : (q t e w u : ℕ) → e ≤ w * t → q * t ≤ 4 * u → q * e ≤ 4 * (w * u)
scaled q t e w u h k =
    let a : q * e ≤ q * (w * t) = mul-le q e q (w * t) (omega arith) h in
    let b : w * (q * t) ≤ w * (4 * u) = mul-le w (q * t) w (4 * u) (omega arith) k in omega arith

-- On a LoRa modem and for a frame of at most 259 bytes, the airtime in microseconds that the 32-bit
-- formula gives is not below the exact airtime of the frame's symbols, both sides multiplied out.
pub microseconds_cover :
    (bytes : ℕ) (m : Modem)
    → IsLoRa m
    → bytes ≤ 259
    → (4 * m.preamble_symbols + 17 + 4 * (8 + coded_blocks bytes m * m.coding_rate_denominator))
        * (2 ^ m.spreading_factor * 1000000)
      ≤ 4 * (m.bandwidth_hz * microseconds bytes m)
microseconds_cover bytes m v h =
    rw (microseconds_exact bytes m v h, ← (quarters_exact bytes m v h).0)
      (scaled (total_quarter_symbols bytes m) (symbol_microseconds m)
        (2 ^ m.spreading_factor * 1000000) m.bandwidth_hz _ (symbol_covers m v).0
        (ceil_div_covers (total_quarter_symbols bytes m * symbol_microseconds m) 4 (omega arith)
          (omega (arith, product_fits bytes m v h))).0)

signed_sum :
    (x k c e : ℕ) → pos_part (pos x -ℤ pos k +ℤ pos 28 +ℤ pos c -ℤ pos e) ≡ x + 28 + c - (k + e)
signed_sum x k c e = ground arith

numerator_mono :
    (a b : ℕ) (m : Modem)
    → a ≤ b
    → pos_part (payload_numerator a m) ≤ pos_part (payload_numerator b m)
unfolding payload_numerator
numerator_mono a b m h =
    let crc : ℕ = if m.payload_crc then 16 else 0 in
    let hdr : ℕ = if m.explicit_header then 0 else 20 in
    omega (
      arith,
      signed_sum (8 * a) (4 * m.spreading_factor) crc hdr,
      signed_sum (8 * b) (4 * m.spreading_factor) crc hdr,
    )

-- A shorter frame has a positive numerator only if a longer one has.
sign_mono :
    (a b : ℕ) (m : Modem)
    → a ≤ b
    → ltb_ℤ (pos 0) (payload_numerator a m) ≡ true
    → ltb_ℤ (pos 0) (payload_numerator b m) ≡ true
unfolding payload_numerator
sign_mono a b m h k = ground arith

blocks_mono :
    (a b : ℕ) (m : Modem) → IsLoRa m → a ≤ b → b ≤ 259 → coded_blocks a m ≤ coded_blocks b m
unfolding coded_blocks
blocks_mono a b m v h k = elim (Bool-cases (ltb_ℤ (pos 0) (payload_numerator a m))) [
  | inl some_left ↦
      rw (some_left, sign_mono a b m h some_left)
        (ceil_div_mono (pos_part (payload_numerator a m)) (pos_part (payload_numerator b m))
          (payload_denominator m) (numerator_mono a b m h) (omega (arith, denominator_bounds m v))
          (omega (arith, denominator_bounds m v, numerator-le b m v k)))
  | inr none_left ↦ rw none_left (omega arith)
]

quarters_mono :
    (a b : ℕ) (m : Modem)
    → IsLoRa m
    → a ≤ b
    → b ≤ 259
    → total_quarter_symbols a m ≤ total_quarter_symbols b m
quarters_mono a b m v h k =
    let p =
      mul-le (coded_blocks a m) m.coding_rate_denominator (coded_blocks b m)
        m.coding_rate_denominator (blocks_mono a b m v h k) (omega arith) in
    omega (arith, quarters_exact a m v (omega arith), quarters_exact b m v k)

microseconds_mono :
    (a b : ℕ) (m : Modem) → IsLoRa m → a ≤ b → b ≤ 259 → microseconds a m ≤ microseconds b m
microseconds_mono a b m v h k =
    rw (microseconds_exact a m v (omega arith), microseconds_exact b m v k)
      (ceil_div_mono _ _ 4
        (mul-le (total_quarter_symbols a m) (symbol_microseconds m) (total_quarter_symbols b m)
          (symbol_microseconds m) (quarters_mono a b m v h k) (omega arith))
        (omega arith) (omega (arith, product_fits b m v k)))

microseconds-le :
    (bytes : ℕ) (m : Modem) → IsLoRa m → bytes ≤ 259 → microseconds bytes m ≤ 135020544
microseconds-le bytes m v h = rw (microseconds_exact bytes m v h) (
    ceil_div-le (total_quarter_symbols bytes m * symbol_microseconds m) 4 135020544 (omega arith)
      (omega (arith, product_fits bytes m v h)) (omega (arith, product_fits bytes m v h)))

-- On a LoRa modem, of two frames of at most 259 bytes the longer has no shorter airtime.
pub milliseconds_mono :
    (a b : ℕ) (m : Modem) → IsLoRa m → a ≤ b → b ≤ 259 → milliseconds a m ≤ milliseconds b m
unfolding milliseconds
milliseconds_mono a b m v h k =
    ceil_div_mono (microseconds a m) (microseconds b m) 1000 (microseconds_mono a b m v h k)
      (omega arith) (omega (arith, microseconds-le b m v k))

pub milliseconds-le :
    (bytes : ℕ) (m : Modem) → IsLoRa m → bytes ≤ 259 → milliseconds bytes m ≤ 135021
unfolding milliseconds
milliseconds-le bytes m v h =
    ceil_div-le (microseconds bytes m) 1000 135021 (omega arith)
      (omega (arith, microseconds-le bytes m v h)) (omega (arith, microseconds-le bytes m v h))
