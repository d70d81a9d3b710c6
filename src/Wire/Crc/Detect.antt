-- ===== src/Wire/Crc/Detect.antt =====
-- Errors that the trailing checksum of a frame detects.
use Prim.Native.Nat.{bit_xor}
use smart_fires_io_t.Base.{
  ℕ, zero, suc, ◌+◌, ◌<◌, ◌≡◌, ◌≢◌, ◌↔◌, ◌⊎◌, inl, inr, List, [], ◌∷◌, ◌++◌, true, false, ◌==◌,
  ==→eq, eq→==, length, get_or, set, length-append, arith, subst, refl, sym, ap, ◌∙◌,
}
use smart_fires_io_t.Wire.Crc.{crc_bits, crc8_from, crc8, crc_ok}
use smart_fires_io_t.Wire.Crc.Laws.{
  IsBytes, crc8_from-lt, crc8_from-set, crc_ok-snoc, crc_bits-injective, xor-lt, xor_self,
  xor_cancel_left,
}

unsnoc : (b : ℕ) (bs : List ℕ) → (xs : List ℕ) × (x : ℕ) × (b ∷ bs ≡ xs ++ (x ∷ []))
unsnoc b [] = ([], b, refl)
unsnoc b (c ∷ bs) = let (xs, x, e) = unsnoc c bs in (b ∷ xs, x, ap (λ l. b ∷ l) e)

IsBytes-left : (bs : List ℕ) (x : ℕ) → IsBytes (bs ++ (x ∷ [])) → IsBytes bs × (x < 256)
IsBytes-left [] x (h, _) = (tt, h)
IsBytes-left (b ∷ bs) x (h, v) = ((h, (IsBytes-left bs x v).0), (IsBytes-left bs x v).1)

set-snoc_inside :
    (bs : List ℕ) (x i v : ℕ) → i < length bs → set (bs ++ (x ∷ [])) i v ≡ set bs i v ++ (x ∷ [])
set-snoc_inside [] x i v h = absurd (omega arith)
set-snoc_inside (b ∷ bs) x zero v h = refl
set-snoc_inside (b ∷ bs) x (suc i) v h = ap (λ l. b ∷ l) (set-snoc_inside bs x i v (omega arith))

set-snoc_last :
    (bs : List ℕ) (x i v : ℕ) → i ≡ length bs → set (bs ++ (x ∷ [])) i v ≡ bs ++ (v ∷ [])
set-snoc_last [] x zero v h = refl
set-snoc_last [] x (suc i) v h = absurd (omega arith)
set-snoc_last (b ∷ bs) x zero v h = absurd (omega arith)
set-snoc_last (b ∷ bs) x (suc i) v h = ap (λ l. b ∷ l) (set-snoc_last bs x i v (omega arith))

get_or-snoc_inside :
    (bs : List ℕ) (x i : ℕ) → i < length bs → get_or (bs ++ (x ∷ [])) i 0 ≡ get_or bs i 0
get_or-snoc_inside [] x i h = absurd (omega arith)
get_or-snoc_inside (b ∷ bs) x zero h = refl
get_or-snoc_inside (b ∷ bs) x (suc i) h = get_or-snoc_inside bs x i (omega arith)

get_or-snoc_last : (bs : List ℕ) (x i : ℕ) → i ≡ length bs → get_or (bs ++ (x ∷ [])) i 0 ≡ x
get_or-snoc_last [] x zero h = refl
get_or-snoc_last [] x (suc i) h = absurd (omega arith)
get_or-snoc_last (b ∷ bs) x zero h = absurd (omega arith)
get_or-snoc_last (b ∷ bs) x (suc i) h = get_or-snoc_last bs x i (omega arith)

ne→==_false : (a b : ℕ) → a ≢ b → (a == b) ≡ false
ne→==_false a b h = ground arith

-- The body of a frame changed: the checksum of the new body differs.
changed_inside :
    (bs : List ℕ) (x i v : ℕ)
    → IsBytes bs
    → crc8 bs ≡ x
    → i < length bs
    → v < 256
    → v ≢ get_or bs i 0
    → crc_ok (set bs i v ++ (x ∷ [])) ≡ false
unfolding crc8
changed_inside bs x i v w e lt hv ne =
    crc_ok-snoc (set bs i v) x
    ∙ ne→==_false (crc8 (set bs i v)) x
        (λ p. ne (crc8_from-set 0 bs i v (omega arith) w lt hv (p ∙ sym e)))

changed_snoc :
    (bs : List ℕ) (x i v : ℕ)
    → IsBytes bs
    → crc8 bs ≡ x
    → i < length bs + 1
    → v < 256
    → v ≢ get_or (bs ++ (x ∷ [])) i 0
    → crc_ok (set (bs ++ (x ∷ [])) i v) ≡ false
changed_snoc bs x i v w e lt hv ne = elim (last_or_inside i (length bs) lt) [
  | inl p ↦
      rw (set-snoc_inside bs x i v p)
        (changed_inside bs x i v w e p hv (λ q. ne (q ∙ sym (get_or-snoc_inside bs x i p))))
  | inr p ↦ rw (set-snoc_last bs x i v p) (
      crc_ok-snoc bs v
      ∙ ne→==_false (crc8 bs) v (λ q. ne (sym q ∙ e ∙ sym (get_or-snoc_last bs x i p))))
]
  where
    last_or_inside : (j n : ℕ) → j < n + 1 → (j < n) ⊎ (j ≡ n)
    last_or_inside j n h = omega arith

-- A statement of all lists follows from that of the empty one and of those with a last element.
on_snoc {ℓ} :
    (P : List ℕ → Type ℓ)
    → P []
    → ((bs : List ℕ) (x : ℕ) → P (bs ++ (x ∷ [])))
    → (raw : List ℕ) → P raw
on_snoc P empty snoc [] = empty
on_snoc P empty snoc (b ∷ bs) = let (xs, x, e) = unsnoc b bs in subst P (sym e) (snoc xs x)

abbrev Detects : ℕ → ℕ → List ℕ → Type 0
Detects i v raw =
    IsBytes raw
    → crc_ok raw ≡ true
    → i < length raw
    → v < 256
    → v ≢ get_or raw i 0
    → crc_ok (set raw i v) ≡ false

Detects-empty : (i v : ℕ) → Detects i v []
Detects-empty i v w okay lt = absurd (omega arith)

Detects-snoc : (i v : ℕ) (bs : List ℕ) (x : ℕ) → Detects i v (bs ++ (x ∷ []))
Detects-snoc i v bs x w okay lt hv ne =
    changed_snoc bs x i v (IsBytes-left bs x w).0 (==→eq _ _ (sym (crc_ok-snoc bs x) ∙ okay))
      (omega (arith, length-append bs (x ∷ []))) hv ne

crc8_from-snoc :
    (c : ℕ) (bs : List ℕ) (x : ℕ)
    → crc8_from c (bs ++ (x ∷ [])) ≡ crc_bits 8 (bit_xor (crc8_from c bs) x)
unfolding crc8_from
crc8_from-snoc c [] x = refl
crc8_from-snoc c (b ∷ bs) x = crc8_from-snoc (crc_bits 8 (bit_xor c b)) bs x

crc_bits_zero : crc_bits 8 0 ≡ 0
unfolding crc_bits
crc_bits_zero = refl

-- The step over the last byte gives 0 exactly if that byte is the value so far.
residue_step : (c x : ℕ) → c < 256 → x < 256 → (c ≡ x) ↔ (crc_bits 8 (bit_xor c x) ≡ 0)
residue_step c x hc hx = (forth, back)
  where
    forth : c ≡ x → crc_bits 8 (bit_xor c x) ≡ 0
    forth e = rw (e, xor_self x hx) crc_bits_zero

    back : crc_bits 8 (bit_xor c x) ≡ 0 → c ≡ x
    back e = xor_cancel_left c c x hc hc hx (
        xor_self c hc
        ∙ sym (
            crc_bits-injective 8 (bit_xor c x) 0 (xor-lt c x hc hx) (omega arith)
              (e ∙ sym crc_bits_zero)))

abbrev HasResidue : List ℕ → Type 0
HasResidue raw = IsBytes raw → 0 < length raw → (crc_ok raw ≡ true) ↔ (crc8 raw ≡ 0)

residue_snoc : (bs : List ℕ) (x : ℕ) → HasResidue (bs ++ (x ∷ []))
unfolding crc8
residue_snoc bs x w h =
    let (v, hx) = IsBytes-left bs x w in
    let step = residue_step (crc8 bs) x (crc8_from-lt 0 bs (omega arith) v) hx in
    (
      (λ okay. crc8_from-snoc 0 bs x ∙ step.0 (==→eq _ _ (sym (crc_ok-snoc bs x) ∙ okay))),
      (λ zero_crc. crc_ok-snoc bs x ∙ eq→== _ _ (step.1 (sym (crc8_from-snoc 0 bs x) ∙ zero_crc))),
    )

-- A frame that passes the integrity test no longer passes it when any one of its bytes, the
-- checksum byte included, is replaced by another byte.
pub single_byte_detected :
    (raw : List ℕ) (i v : ℕ)
    → IsBytes raw
    → crc_ok raw ≡ true
    → i < length raw
    → v < 256
    → v ≢ get_or raw i 0
    → crc_ok (set raw i v) ≡ false
single_byte_detected raw i v w okay lt hv ne =
    on_snoc (Detects i v) (Detects-empty i v) (Detects-snoc i v) raw w okay lt hv ne

-- A frame of bytes passes the integrity test exactly if the checksum of the whole frame, checksum
-- byte included, is 0.
pub crc_ok_iff_residue :
    (raw : List ℕ) → IsBytes raw → 0 < length raw → (crc_ok raw ≡ true) ↔ (crc8 raw ≡ 0)
crc_ok_iff_residue raw w h = on_snoc HasResidue (λ _ k. absurd (omega arith)) residue_snoc raw w h
