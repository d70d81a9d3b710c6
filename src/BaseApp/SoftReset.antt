-- ===== src/BaseApp/SoftReset.antt =====
-- The soft reset of the base in `handleJetsonCommandPayload` of SmartFiresBaseApp.cpp.
use smart_fires_io_t.Base.{◌<◌, ◌≡◌, refl, true, false, ltb, [], arith}
use smart_fires_io_t.Base.Word.{sub_u32}
use smart_fires_io_t.Config.Profile.{NetworkProfile}
use smart_fires_io_t.BaseApp.State.{BaseApp}
use smart_fires_io_t.BaseApp.Jetson.{reset_self}
use smart_fires_io_t.BaseApp.Loop.{Window, maybe_send_periodic_time_sync}

-- A soft reset in the first minutes brings no TIME_SYNC: where none was asked for and the clock reads less
-- than the period of the time syncs, a call of `maybeSendPeriodicTimeSync` after the reset sends nothing
-- and changes nothing.
pub soft_reset_holds_sync :
    (profile : NetworkProfile) (t : Window) (b : BaseApp)
    → b.manual_time_sync_pending ≡ false
    → t.periodic_at < profile.periodic_time_sync_ms
    → t.periodic_at < 4294967296
    → maybe_send_periodic_time_sync profile t (reset_self b) ≡ (reset_self b, [])
unfolding maybe_send_periodic_time_sync reset_self
soft_reset_holds_sync profile t b none_asked early word =
    let since : sub_u32 t.periodic_at 0 ≡ t.periodic_at = ground (arith, word) in
    let recent : ltb (sub_u32 t.periodic_at 0) profile.periodic_time_sync_ms ≡ true =
      ground (arith, since, early) in
    rw (none_asked, recent) refl
