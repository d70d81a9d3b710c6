-- ===== src/TxPower/Samples.antt =====
-- The SNR samples of one decision window (`snrSumDb`, `snrCount`) and their average.
use smart_fires_io_t.Base.{ℕ, ◌*◌, ◌/◌, ◌≤◌, ◌<◌, ◌≡◌, arith, refl}
use smart_fires_io_t.Base.Int.{
  ℤ, pos_part, neg_part, times, quot, int16, int32, InRange, from_bits-to_bits_16,
  from_bits-to_bits_32,
}
use smart_fires_io_t.TxPower.Node.{Node, hear, close_window, average_snr_db_x10}

-- The sum is one of as many samples of an int8 as the count says.
pub record IsSampled (n : Node) : Type 0 where
  pub high : pos_part n.snr_sum_db ≤ 128 * n.snr_count
  pub low : neg_part n.snr_sum_db ≤ 128 * n.snr_count
  pub counted : n.snr_count ≤ 65535

-- Hearing a frame, while the 16-bit count is not full, and closing the window keep the sum within what
-- the count of samples allows.
pub hear-IsSampled :
    (snr_db : ℤ) (retx fail now : ℕ) (n : Node)
    → IsSampled n
    → InRange 128 snr_db
    → n.snr_count < 65535
    → IsSampled (hear snr_db now n) × IsSampled (close_window retx fail now n)
unfolding hear close_window
hear-IsSampled snr_db retx fail now n v fits room = (
  record { high = ground arith; low = ground arith; counted = ground arith },
  record { high = ground arith; low = ground arith; counted = ground arith },
)

quot-le : (a k c : ℕ) → 0 < k → a ≤ c * k → a / k ≤ c
quot-le a k c p h = grind arith

times_parts :
    (z : ℤ) (k : ℕ)
    → (pos_part (times z k) ≤ pos_part z * k) × (neg_part (times z k) ≤ neg_part z * k)
times_parts z k = ground arith

quot_fits :
    (z : ℤ) (k : ℕ)
    → 0 < k
    → pos_part z ≤ 1280 * k
    → neg_part z ≤ 1280 * k
    → (neg_part (quot z k) ≤ 1280) × (pos_part (quot z k) ≤ 1280)
quot_fits z k p h l =
    ground (arith, quot-le (pos_part z) k 1280 p h, quot-le (neg_part z) k 1280 p l)

-- With at least one sample and a sum of samples of an int8, the average is the exact one in tenths of
-- a dB, rounded towards 0: no operation wraps. It lies between -128 dB and 128 dB.
pub average_exact :
    (n : Node)
    → IsSampled n
    → 0 < n.snr_count
    → (average_snr_db_x10 n ≡ quot (times n.snr_sum_db 10) n.snr_count)
      × (neg_part (average_snr_db_x10 n) ≤ 1280)
      × (pos_part (average_snr_db_x10 n) ≤ 1280)
unfolding average_snr_db_x10
average_exact n v p =
    let parts = times_parts n.snr_sum_db 10 in
    let wide : int32 (times n.snr_sum_db 10) ≡ times n.snr_sum_db 10 =
      from_bits-to_bits_32 (times n.snr_sum_db 10)
        (omega (arith, v.high, v.low, v.counted), omega (arith, v.high, v.low, v.counted)) in
    let fits =
      quot_fits (times n.snr_sum_db 10) n.snr_count p (omega (arith, v.high, parts))
        (omega (arith, v.low, parts)) in
    let narrow : int16 (quot (times n.snr_sum_db 10) n.snr_count)
        ≡ quot (times n.snr_sum_db 10) n.snr_count =
      from_bits-to_bits_16 _ (omega (arith, fits), omega (arith, fits)) in
    rw (wide, narrow) (refl, fits.0, fits.1)
