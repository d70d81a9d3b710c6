-- ===== src/Config/Profile/Checks.antt =====
-- The theorems on profiles, applied to the SF7 profile and to two selectors.
use smart_fires_io_t.Base.{◌+◌, ◌*◌, ◌<◌, arith}
use smart_fires_io_t.Config.Profile.{application_airtime_ms}
use smart_fires_io_t.Config.Profile.Builtin.{sf7, profile_for_selector}
use smart_fires_io_t.Config.Profile.Slots.{selected_is_valid, admitted_frame_fits}

-- A STATUS frame of 27 bytes at SF7.
admitted_frame_fits_example : application_airtime_ms sf7 27 + 22 + 2 * 20 < 900
unfolding profile_for_selector
admitted_frame_fits_example =
    admitted_frame_fits sf7 27 (selected_is_valid 7) (omega arith) (omega arith) (omega arith)
