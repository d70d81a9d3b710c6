-- ===== src/Tdma/Clock/Session.antt =====
-- The session clock between two TIME_SYNCs, and what each update of it leaves alone.
use smart_fires_io_t.Base.{ℕ, ◌+◌, ◌<◌, ◌≡◌, ◌↔◌, true, false, ◌||◌, not, arith, ◌==◌}
use smart_fires_io_t.Base.Word.{u32, u32_mod, sub_u32-add}
use smart_fires_io_t.Tdma.Clock.{
  Clock, apply_sync, consume_session_changed, sync_stale, session_now_ms,
}

-- The clock has a sync that is not stale: slot times can be trusted.
abbrev pub IsLive : Clock → ℕ → Type 0
IsLive c now = (c.synced ≡ true) × (sync_stale c now ≡ false)

-- After TIME_SYNC set the session clock to `s` at local time `t`, the session clock reads `s + d`
-- a time `d` later, wrapping at 32 bits, whether or not the local counter has wrapped meanwhile;
-- and the sync is stale exactly if `d` exceeds the configured age.
pub session_now_ms-apply_sync :
    (c : Clock) (id s t d : ℕ)
    → t < u32_mod
    → d < u32_mod
    → (session_now_ms (apply_sync id s t c) (u32 (t + d)) ≡ u32 (s + d))
      × ((sync_stale (apply_sync id s t c) (u32 (t + d)) ≡ true) ↔ (c.cfg.sync_stale_ms < d))
unfolding session_now_ms apply_sync sync_stale
session_now_ms-apply_sync c id s t d ht hd = ground (arith, sub_u32-add t d ht hd)

-- A TIME_SYNC raises the session-changed flag exactly if it names another session or the flag was
-- raised already; reading the flag returns it and clears it, so a second read returns false.
pub session_changed_once :
    (c : Clock) (id s t : ℕ)
    → let c' = apply_sync id s t c in
      let (seen, c'') = consume_session_changed c' in
      (seen ≡ (not (id == c.session_id) || c.session_changed))
      × (c''.session_id ≡ id)
      × ((consume_session_changed c'').0 ≡ false)
      × (session_now_ms c'' t ≡ session_now_ms c' t)
unfolding apply_sync consume_session_changed session_now_ms
session_changed_once c id s t = ground arith
