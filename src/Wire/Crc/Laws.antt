-- ===== src/Wire/Crc/Laws.antt =====
-- The step of `crc8` over one bit and over one byte.
use Prim.Native.Nat.{bit_xor}
use smart_fires_io_t.Base.{
  ℕ, zero, suc, ◌-◌, ◌+◌, ◌/◌, ◌<◌, ◌≡◌, List, [], ◌∷◌, ◌++◌, Bool, true, ◌&&◌, ◌==◌, eq→==, ltb,
  length, get_or, set, length-append, take-append_length, if◌then◌else◌, ◌%◌, arith, refl, ap, ◌∙◌,
}
use smart_fires_io_t.Base.Table.{law_below, law_below_at}
use smart_fires_io_t.Wire.Crc.{crc_bit, crc_bits, crc8_from, crc8, seal, crc_ok}

-- Toggling twice by the same byte gives the first byte back, and bytes stay bytes.
xor_law : ℕ → ℕ → Bool
xor_law c b =
    bit_xor c (bit_xor c b) == b
    && bit_xor (bit_xor c b) b == c
    && ltb (bit_xor c b) 256
    && bit_xor b b == 0

xor_table : law_below (λ c. law_below (xor_law c) 256) 256 ≡ true
unfolding law_below xor_law
xor_table = refl

xor-bytes : (c b : ℕ) → c < 256 → b < 256 → xor_law c b ≡ true
xor-bytes c b hc hb =
    law_below_at (xor_law c) b 256 hb
      (law_below_at (λ k. law_below (xor_law k) 256) c 256 hc xor_table)

pub xor-lt : (c b : ℕ) → c < 256 → b < 256 → bit_xor c b < 256
unfolding xor_law
xor-lt c b hc hb = ground (arith, xor-bytes c b hc hb)

pub xor_self : (b : ℕ) → b < 256 → bit_xor b b ≡ 0
unfolding xor_law
xor_self b hb = ground (arith, xor-bytes b b hb hb)

pub xor_cancel_left : (c a b : ℕ) → c < 256 → a < 256 → b < 256 → bit_xor c a ≡ bit_xor c b → a ≡ b
unfolding xor_law
xor_cancel_left c a b hc ha hb e =
    ground (arith, xor-bytes c a hc ha, xor-bytes c b hc hb, ap (λ k. bit_xor c k) e)

xor_cancel_right : (c d b : ℕ) → c < 256 → d < 256 → b < 256 → bit_xor c b ≡ bit_xor d b → c ≡ d
unfolding xor_law
xor_cancel_right c d b hc hd hb e =
    ground (arith, xor-bytes c b hc hb, xor-bytes d b hd hb, ap (λ k. bit_xor k b) e)

-- One round is undone by looking at the bit that it shifted in.
crc_unbit : ℕ → ℕ
crc_unbit y = if y % 2 == 1 then bit_xor y 0x31 / 2 + 128 else y / 2

bit_law : ℕ → Bool
bit_law x = crc_unbit (crc_bit x) == x && ltb (crc_bit x) 256

bit_table : law_below bit_law 256 ≡ true
unfolding law_below bit_law crc_unbit crc_bit
bit_table = refl

crc_bit-lt : (x : ℕ) → x < 256 → crc_bit x < 256
unfolding bit_law
crc_bit-lt x h = ground (arith, law_below_at bit_law x 256 h bit_table)

crc_bit-injective : (x y : ℕ) → x < 256 → y < 256 → crc_bit x ≡ crc_bit y → x ≡ y
unfolding bit_law
crc_bit-injective x y hx hy e = ground (
  arith,
  law_below_at bit_law x 256 hx bit_table,
  law_below_at bit_law y 256 hy bit_table,
  ap crc_unbit e,
)

crc_bits-lt : (n x : ℕ) → x < 256 → crc_bits n x < 256
unfolding crc_bits
crc_bits-lt zero x h = h
crc_bits-lt (suc n) x h = crc_bits-lt n (crc_bit x) (crc_bit-lt x h)

pub crc_bits-injective : (n x y : ℕ) → x < 256 → y < 256 → crc_bits n x ≡ crc_bits n y → x ≡ y
unfolding crc_bits
crc_bits-injective zero x y hx hy e = e
crc_bits-injective (suc n) x y hx hy e =
    crc_bit-injective x y hx hy
      (crc_bits-injective n (crc_bit x) (crc_bit y) (crc_bit-lt x hx) (crc_bit-lt y hy) e)

-- Every element is a byte.
abbrev pub IsBytes : List ℕ → Type 0
IsBytes [] = Unit {0}
IsBytes (b ∷ bs) = (b < 256) × IsBytes bs

-- The value of `crc` after one byte.
crc_byte : ℕ → ℕ → ℕ
crc_byte c b = crc_bits 8 (bit_xor c b)

crc_byte-lt : (c b : ℕ) → c < 256 → b < 256 → crc_byte c b < 256
unfolding crc_byte
crc_byte-lt c b hc hb = crc_bits-lt 8 (bit_xor c b) (xor-lt c b hc hb)

pub crc8_from-lt : (c : ℕ) (bs : List ℕ) → c < 256 → IsBytes bs → crc8_from c bs < 256
unfolding crc8_from crc_byte
crc8_from-lt c [] hc v = hc
crc8_from-lt c (b ∷ bs) hc (hb, v) = crc8_from-lt (crc_byte c b) bs (crc_byte-lt c b hc hb) v

crc8_from-injective :
    (c d : ℕ) (bs : List ℕ)
    → c < 256
    → d < 256
    → IsBytes bs
    → crc8_from c bs ≡ crc8_from d bs
    → c ≡ d
unfolding crc8_from crc_byte
crc8_from-injective c d [] hc hd v e = e
crc8_from-injective c d (b ∷ bs) hc hd (hb, v) e = xor_cancel_right c d b hc hd hb (
    crc_bits-injective 8 (bit_xor c b) (bit_xor d b) (xor-lt c b hc hb) (xor-lt d b hd hb) (
      crc8_from-injective (crc_byte c b) (crc_byte d b) bs (crc_byte-lt c b hc hb)
        (crc_byte-lt d b hd hb) v e))

-- Changing one byte changes the checksum.
pub crc8_from-set :
    (c : ℕ) (bs : List ℕ) (i v : ℕ)
    → c < 256
    → IsBytes bs
    → i < length bs
    → v < 256
    → crc8_from c (set bs i v) ≡ crc8_from c bs
    → v ≡ get_or bs i 0
unfolding crc8_from crc_byte
crc8_from-set c [] i v hc w lt hv e = absurd (omega arith)
crc8_from-set c (b ∷ bs) zero v hc (hb, w) lt hv e = xor_cancel_left c v b hc hv hb (
    crc_bits-injective 8 (bit_xor c v) (bit_xor c b) (xor-lt c v hc hv) (xor-lt c b hc hb) (
      crc8_from-injective (crc_byte c v) (crc_byte c b) bs (crc_byte-lt c v hc hv)
        (crc_byte-lt c b hc hb) w e))
crc8_from-set c (b ∷ bs) (suc i) v hc (hb, w) lt hv e =
    crc8_from-set (crc_byte c b) bs i v (crc_byte-lt c b hc hb) w (omega arith) hv e

length-snoc : (bs : List ℕ) (x : ℕ) → length (bs ++ (x ∷ [])) - 1 ≡ length bs
length-snoc bs x = omega (arith, length-append bs (x ∷ []))

get_or-snoc : (bs : List ℕ) (x : ℕ) → get_or (bs ++ (x ∷ [])) (length bs) 0 ≡ x
get_or-snoc [] x = refl
get_or-snoc (b ∷ bs) x = get_or-snoc bs x

-- On a frame that ends in the byte `x` the test compares `x` with the checksum of the rest.
pub crc_ok-snoc : (bs : List ℕ) (x : ℕ) → crc_ok (bs ++ (x ∷ [])) ≡ (crc8 bs == x)
unfolding crc_ok
crc_ok-snoc bs x = rw (length-snoc bs x, take-append_length bs (x ∷ []), get_or-snoc bs x)

-- What an encoder seals passes the decoders' integrity test.
pub crc_ok-seal : (bs : List ℕ) → crc_ok (seal bs) ≡ true
unfolding seal
crc_ok-seal bs = crc_ok-snoc bs (crc8 bs) ∙ eq→== _ _ refl
