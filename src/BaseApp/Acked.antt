-- ===== src/BaseApp/Acked.antt =====
-- The acknowledgement that a tracker of SmartFiresBaseApp.cpp stands for, as the node reads it in
-- `applyAckSummary` of TdmaRadioService.cpp.
use Prim.Native.Nat.{bit_and, bit_or}
use smart_fires_io_t.Base.{
  ℕ, zero, suc, ◌+◌, ◌-◌, ◌/◌, ◌%◌, ◌^◌, ◌≤◌, ◌<◌, ◌≡◌, ◌≢◌, ◌⊎◌, inl, inr, ◌==◌, refl, sym, ap,
  ◌∙◌, Bool, true, not, ◌&&◌, ◌||◌, ltb, leb, if_both, if_cases, arith,
}
use native.Mathlib.Nat.{pow-succ'}
use smart_fires_io_t.Base.Table.{law_below, law_below_at}
use smart_fires_io_t.Base.Bits.{digit, digit-suc, bit_or-lt, digit-bit_or, digit-power, bit_and-one}
use smart_fires_io_t.Base.Word.{u8, sub_u8}
use smart_fires_io_t.Wire.Packet.{AckSummaryPayload}
use smart_fires_io_t.Tdma.Radio.Window.{is_acked}
use smart_fires_io_t.BaseApp.Tracker.{AckTracker, advance, record_telemetry_sequence}

-- The summary that the base sends for a tracker.
abbrev pub summary_of : AckTracker → AckSummaryPayload
summary_of t = record { node_id = t.node_id; ack_base_seq = t.ack_base_seq; ack_mask = t.ack_mask }

-- The same test on a base number and a mask, by digits.
abbrev covers : ℕ → ℕ → ℕ → Bool
covers base mask seq =
    ltb (sub_u8 base seq) 128
    || leb 1 (sub_u8 seq base) && leb (sub_u8 seq base) 16 && digit (sub_u8 seq base - 1) mask == 1

is_acked-covers :
    (ack : AckSummaryPayload) (seq : ℕ)
    → is_acked ack seq ≡ covers ack.ack_base_seq ack.ack_mask seq
unfolding is_acked
is_acked-covers ack seq =
    let k = sub_u8 seq ack.ack_base_seq - 1 in ground (arith, bit_and-one (ack.ack_mask / 2 ^ k))

digit-pred : (a m : ℕ) → 2 ≤ a → digit (a - 1) m ≡ digit (a - 2) (m / 2)
digit-pred a m h = ap (λ k. digit k m) (omega arith) ∙ digit-suc (a - 2) m

next_ahead :
    (base seq : ℕ)
    → base < 256
    → seq < 256
    → sub_u8 seq base ≢ 0
    → sub_u8 seq (u8 (base + 1)) ≡ sub_u8 seq base - 1
next_ahead base seq a b ne = omega arith

-- A number that is not at the far end of the numbers counted as old is covered as before when the base
-- moves on over the next number, which is acknowledged.
covers-next :
    (base mask seq : ℕ)
    → base < 256
    → seq < 256
    → mask < 65536
    → mask % 2 ≡ 1
    → sub_u8 base seq ≢ 127
    → covers (u8 (base + 1)) (mask / 2) seq ≡ covers base mask seq
covers-next base mask seq a b c odd near =
    let ahead = sub_u8 seq base in
    let last : digit 15 (mask / 2) ≡ 0 = omega arith in
    let first : digit 0 mask ≡ 1 = omega arith in
    ground (arith, digit-pred ahead mask, next_ahead base seq a b, last, first)

-- How far a number may lie behind the base for the base to move on by `n`.
abbrev pub Near : ℕ → ℕ → Type 0
Near n behind = (behind + n < 128) ⊎ (128 ≤ behind)

Near-next :
    (n base seq : ℕ)
    → n < 100
    → base < 256
    → seq < 256
    → Near (suc n) (sub_u8 base seq)
    → Near n (sub_u8 (u8 (base + 1)) seq)
Near-next n base seq small a b (inl near) = inl (omega (arith, near))
Near-next n base seq small a b (inr far) = ground (arith, far)

advance-covers :
    (n : ℕ) (t : AckTracker) (seq : ℕ)
    → n < 100
    → t.ack_base_seq < 256
    → t.ack_mask < 65536
    → seq < 256
    → Near n (sub_u8 t.ack_base_seq seq)
    → covers (advance n t).ack_base_seq (advance n t).ack_mask seq
      ≡ covers t.ack_base_seq t.ack_mask seq
unfolding advance
advance-covers zero t seq small a b c near = refl
advance-covers (suc n) t seq small a b c near =
    let t' : AckTracker = record t {
      ack_base_seq = u8 (t.ack_base_seq + 1);
      ack_mask = t.ack_mask / 2;
    } in
    let rest =
      advance-covers n t' seq (omega arith) (omega arith) (omega arith) c
        (Near-next n t.ack_base_seq seq (omega arith) a c near) in
    let far : sub_u8 t.ack_base_seq seq ≢ 127 = ground (arith, near) in
    if_cases
      (λ (u : AckTracker).
        covers u.ack_base_seq u.ack_mask seq ≡ covers t.ack_base_seq t.ack_mask seq)
      (bit_and t.ack_mask 1 == 0) (λ _. refl)
      (λ odd.
        rest
        ∙ covers-next t.ack_base_seq t.ack_mask seq a c b
            (ground (arith, odd, bit_and-one t.ack_mask)) far)

-- The lowest bit is clear after as many rounds as the mask has bits.
pub advance_even : (n : ℕ) (t : AckTracker) → t.ack_mask < 2 ^ n → (advance n t).ack_mask % 2 ≡ 0
unfolding advance
advance_even zero t h = omega (arith, h)
advance_even (suc n) t h =
    let t' : AckTracker = record t {
      ack_base_seq = u8 (t.ack_base_seq + 1);
      ack_mask = t.ack_mask / 2;
    } in
    let rest = advance_even n t' (omega (arith, h, pow-succ' 2 n)) in
    if_cases (λ (u : AckTracker). u.ack_mask % 2 ≡ 0) (bit_and t.ack_mask 1 == 0)
      (λ even. ground (arith, even, bit_and-one t.ack_mask)) (λ odd. rest)

-- The fields of a tracker are bytes and words.
pub record IsSized (t : AckTracker) : Type 0 where
  pub base_byte : t.ack_base_seq < 256
  pub mask_word : t.ack_mask < 65536

advance-IsSized : (n : ℕ) (t : AckTracker) → IsSized t → IsSized (advance n t)
unfolding advance
advance-IsSized zero t h = h
advance-IsSized (suc n) t h =
    let t' : AckTracker = record t {
      ack_base_seq = u8 (t.ack_base_seq + 1);
      ack_mask = t.ack_mask / 2;
    } in
    let rest =
      advance-IsSized n t'
        (record { base_byte = omega arith; mask_word = omega (arith, h.mask_word) }) in
    if_both IsSized (bit_and t.ack_mask 1 == 0) h rest

or_table : law_below (λ j. ltb (2 ^ j) 65536) 16 ≡ true
unfolding law_below
or_table = refl

-- With a new bit in the mask, a number more is covered.
covers-bit_or :
    (base mask seq other : ℕ)
    → base < 256
    → seq < 256
    → other < 256
    → 1 ≤ sub_u8 seq base
    → sub_u8 seq base ≤ 16
    → covers base (bit_or mask (2 ^ (sub_u8 seq base - 1))) other
      ≡ (covers base mask other || other == seq)
covers-bit_or base mask seq other a b c low high =
    let delta = sub_u8 seq base in
    let ahead = sub_u8 other base in
    ground (
      arith,
      digit-bit_or (ahead - 1) mask (2 ^ (delta - 1)),
      digit-power (delta - 1) (ahead - 1) (omega arith),
    )

marked-lt : (mask j : ℕ) → mask < 65536 → j < 16 → bit_or mask (2 ^ j) < 65536
marked-lt mask j a b =
    bit_or-lt 16 mask (2 ^ j) a
      (ground (arith, law_below_at (λ j. ltb (2 ^ j) 65536) j 16 b or_table))

-- A number that is covered already.
covered :
    {c : Bool} (base mask seq other : ℕ)
    → c ≡ covers base mask other
    → (other ≡ seq → covers base mask other ≡ true)
    → c ≡ (covers base mask other || other == seq)
covered base mask seq other same old = ground (arith, same, old)

record_covers :
    (t : AckTracker) (seq other : ℕ)
    → t.initialized ≡ true
    → IsSized t
    → seq < 256
    → other < 256
    → (sub_u8 seq t.ack_base_seq ≤ 16) ⊎ (128 < sub_u8 seq t.ack_base_seq)
    → Near 16 (sub_u8 t.ack_base_seq other)
    → let t' = record_telemetry_sequence seq t in
      covers t'.ack_base_seq t'.ack_mask other
      ≡ (covers t.ack_base_seq t.ack_mask other || other == seq)
unfolding record_telemetry_sequence
record_covers t seq other started h b c close near =
    let delta = sub_u8 seq t.ack_base_seq in
    let base = t.ack_base_seq in
    let marked : AckTracker = record t { ack_mask = bit_or t.ack_mask (2 ^ (delta - 1)) } in
    let fits = h.base_byte in
    let P : AckTracker → Type 0 = λ u.
      covers u.ack_base_seq u.ack_mask other ≡ (covers base t.ack_mask other || other == seq) in
    if_cases P (not t.initialized) (λ off. absurd (ground (arith, off, started)))
      (λ _.
        if_cases P (delta == 0)
          (λ same. covered base t.ack_mask seq other refl (λ e. ground (arith, same, e, fits)))
          (λ ne.
            if_cases P (ltb delta 128)
              (λ ahead.
                if_cases P (leb delta 16)
                  (λ near_by.
                    advance-covers 16 marked other (omega arith) fits
                      (marked-lt t.ack_mask (delta - 1) h.mask_word (ground (arith, near_by))) c
                      near
                    ∙ covers-bit_or base t.ack_mask seq other fits b c (ground (arith, ne))
                        (ground (arith, near_by)))
                  (λ jump. absurd (ground (arith, jump, ahead, close))))
              (λ old.
                covered base t.ack_mask seq other refl
                  (λ e. ground (arith, old, ne, close, e, fits, b)))))

-- `recordTelemetrySequence` acknowledges exactly one number more, the one received: on a started tracker, for a
-- number that is at most 16 after the base or less than 128 before it, the summary acknowledges another
-- number afterwards, as the node reads it, if and only if it did before or it is the one received. The
-- other number is less than 112 before the base or ahead of it.
pub record_telemetry_sequence_acks :
    (t : AckTracker) (seq other : ℕ)
    → t.initialized ≡ true
    → IsSized t
    → seq < 256
    → other < 256
    → (sub_u8 seq t.ack_base_seq ≤ 16) ⊎ (128 < sub_u8 seq t.ack_base_seq)
    → Near 16 (sub_u8 t.ack_base_seq other)
    → is_acked (summary_of (record_telemetry_sequence seq t)) other
      ≡ (is_acked (summary_of t) other || other == seq)
record_telemetry_sequence_acks t seq other started h b c close near =
    is_acked-covers (summary_of (record_telemetry_sequence seq t)) other
    ∙ record_covers t seq other started h b c close near
    ∙ sym (ap (λ acked. acked || other == seq) (is_acked-covers (summary_of t) other))

-- The loop of `recordTelemetrySequence` has ended within its 16 rounds: on a tracker whose lowest mask bit
-- is clear, it is clear again afterwards, so the number after the base is still missing; and the base is
-- a byte and the mask has 16 bits again.
pub record_telemetry_sequence_ends :
    (t : AckTracker) (seq : ℕ)
    → IsSized t
    → seq < 256
    → t.ack_mask % 2 ≡ 0
    → let t' = record_telemetry_sequence seq t in IsSized t' × (t'.ack_mask % 2 ≡ 0)
unfolding record_telemetry_sequence
record_telemetry_sequence_ends t seq h b even =
    let delta = sub_u8 seq t.ack_base_seq in
    let marked : AckTracker = record t { ack_mask = bit_or t.ack_mask (2 ^ (delta - 1)) } in
    let P : AckTracker → Type 0 = λ u. IsSized u × (u.ack_mask % 2 ≡ 0) in
    let restarted : IsSized (record t { ack_base_seq = seq; ack_mask = 0 }) = record {
      base_byte = b;
      mask_word = omega arith;
    } in
    if_both P (not t.initialized) (record { base_byte = b; mask_word = omega arith }, omega arith)
      (if_both P (delta == 0) (h, even)
        (if_both P (ltb delta 128)
          (if_cases P (leb delta 16)
            (λ close.
              let word = marked-lt t.ack_mask (delta - 1) h.mask_word (ground (arith, close)) in
              (
                advance-IsSized 16 marked (record { base_byte = h.base_byte; mask_word = word }),
                advance_even 16 marked word,
              ))
            (λ _. (restarted, omega arith)))
          (h, even)))

-- A jump gives up what is missing: where a frame arrives whose number is more than 16 and less than 128
-- after the base, the summary acknowledges every number less than 128 before it, received or not.
pub record_jump_acks_all :
    (t : AckTracker) (seq other : ℕ)
    → t.initialized ≡ true
    → 16 < sub_u8 seq t.ack_base_seq
    → sub_u8 seq t.ack_base_seq < 128
    → sub_u8 seq other < 128
    → is_acked (summary_of (record_telemetry_sequence seq t)) other ≡ true
unfolding record_telemetry_sequence is_acked
record_jump_acks_all t seq other started far near old = ground (arith, started, far, near, old)
