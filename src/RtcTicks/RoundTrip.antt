-- ===== src/RtcTicks/RoundTrip.antt =====
-- Conversions of the tick counter, there and back and across its wrap.
use smart_fires_io_t.Base.{ℕ, ◌+◌, ◌*◌, ◌≤◌, ◌<◌, ◌≡◌, arith}
use smart_fires_io_t.Base.Word.{u32}
use smart_fires_io_t.RtcTicks.{ms_to_ticks, ticks_to_ms, tick_delta}

-- For a duration of at most 4,194,303,999 ms, the ticks are not shorter than the duration, at most one
-- tick longer, and convert back to the duration.
pub ticks_roundtrip :
    (ms : ℕ)
    → ms ≤ 4194303999
    → (ms * 1024 ≤ ms_to_ticks ms * 1000)
      × (ms_to_ticks ms * 1000 < ms * 1024 + 1000)
      × (ticks_to_ms (ms_to_ticks ms) ≡ ms)
unfolding ms_to_ticks ticks_to_ms
ticks_roundtrip ms h = omega arith

-- The ticks from a counter value to the value it has `n` ticks later, wrapped or not, are `n`, for fewer
-- than 2^32 ticks.
pub tick_delta-elapsed :
    (start n : ℕ) → start < 4294967296 → n < 4294967296 → tick_delta start (u32 (start + n)) ≡ n
unfolding tick_delta
tick_delta-elapsed start n h k = omega arith
