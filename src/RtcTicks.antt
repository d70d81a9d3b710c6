-- ===== src/RtcTicks.antt =====
-- Samd21RtcTicks (platformio/include/platform/Samd21RtcTicks.h): milliseconds and ticks of the 1024 Hz
-- counter. `uint64_t` intermediates do not wrap on 32-bit arguments.
pub mod RoundTrip
use smart_fires_io_t.Base.{ℕ, ◌+◌, ◌*◌, ◌/◌}
use smart_fires_io_t.Base.Word.{u32, sub_u32}

abbrev pub ticks_per_second : ℕ
ticks_per_second = 1024

unfoldable pub ms_to_ticks : ℕ → ℕ
ms_to_ticks ms = u32 ((ms * ticks_per_second + 999) / 1000)

unfoldable pub ticks_to_ms : ℕ → ℕ
ticks_to_ms ticks = u32 (ticks * 1000 / ticks_per_second)

unfoldable pub tick_delta : ℕ → ℕ → ℕ
tick_delta start_ticks end_ticks = sub_u32 end_ticks start_ticks
