-- ===== src/BaseApp/Receipts.antt =====
-- The receipt window of a tracker of SmartFiresBaseApp.cpp: 20 numbers from a start on, and the mask of
-- those received.
use smart_fires_io_t.Base.{
  ℕ, zero, suc, ◌+◌, ◌*◌, ◌^◌, ◌<◌, ◌≡◌, ◌==◌, Bool, true, false, ◌&&◌, leb, ltb, if_cases, refl,
  arith,
}
use smart_fires_io_t.Base.Table.{law_below, law_below_at}
use smart_fires_io_t.Base.Bits.{digit, digit-bit_or}
use smart_fires_io_t.Base.Word.{u8, sub_u8}
use smart_fires_io_t.BaseApp.Tracker.{AckTracker, slide, update_telemetry_receipt_window}

-- The start after some rounds, where they suffice.
slide-start :
    (fuel seq : ℕ) (t : AckTracker)
    → t.receipt_window_start_seq < 256
    → seq < 256
    → sub_u8 seq t.receipt_window_start_seq < 20 * fuel + 20
    → sub_u8 seq t.receipt_window_start_seq < 128
    → sub_u8 seq (slide fuel seq t).receipt_window_start_seq < 20
unfolding slide
slide-start zero seq t a b h k = omega (arith, h)
slide-start (suc fuel) seq t a b h k =
    let start = t.receipt_window_start_seq in
    let moved : AckTracker = record t {
      receipt_window_start_seq = u8 (start + 20);
      receipt_window_mask = 0;
    } in
    if_cases (λ (u : AckTracker). sub_u8 seq u.receipt_window_start_seq < 20)
      (ltb (sub_u8 seq start) 20) (λ near. ground (arith, near))
      (λ far.
        let moved_on : sub_u8 seq (u8 (start + 20)) + 20 ≡ sub_u8 seq start =
          ground (arith, far, a, b, k) in
        slide-start fuel seq moved (omega arith) b (omega (arith, moved_on, h))
          (omega (arith, moved_on, k)))

digit_word : (k m : ℕ) → digit k m < 2
digit_word k m = omega arith

own_digit_law : ℕ → Bool
own_digit_law k = digit k (2 ^ k) == 1

own_digit_table : law_below own_digit_law 20 ≡ true
unfolding law_below own_digit_law
own_digit_table = refl

own_digit : (k : ℕ) → k < 20 → digit k (2 ^ k) ≡ 1
unfolding own_digit_law
own_digit k h = ground (arith, law_below_at own_digit_law k 20 h own_digit_table)

-- A receipt is noted in the window: for a number that is less than 128 ahead of the window's start, or on a
-- window that has not begun, the loop of `updateTelemetryReceiptWindow` has ended within its 7 rounds, so
-- the number is one of the 20 from the new start on, and its bit in the mask is set.
pub update_telemetry_receipt_window_notes :
    (t : AckTracker) (seq : ℕ)
    → t.receipt_window_start_seq < 256
    → seq < 256
    → t.receipt_window_initialized && leb 128 (sub_u8 seq t.receipt_window_start_seq) ≡ false
    → let t' = update_telemetry_receipt_window seq t in
      let k = sub_u8 seq t'.receipt_window_start_seq in
      (k < 20) × (digit k t'.receipt_window_mask ≡ 1)
unfolding update_telemetry_receipt_window
update_telemetry_receipt_window_notes t seq a b near =
    let slid = slide 7 seq t in
    let k = sub_u8 seq slid.receipt_window_start_seq in
    let first : sub_u8 seq seq ≡ 0 = omega arith in
    ground (
      arith,
      near,
      first,
      slide-start 7 seq t a b,
      own_digit k,
      digit-bit_or k slid.receipt_window_mask (2 ^ k),
      digit_word k slid.receipt_window_mask,
    )
