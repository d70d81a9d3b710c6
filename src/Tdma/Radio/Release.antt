-- ===== src/Tdma/Radio/Release.antt =====
-- What each loop over the window in TdmaRadioService.cpp does to each entry.
use smart_fires_io_t.Base.{
  ℕ, zero, suc, ◌+◌, ◌-◌, ◌≤◌, ◌<◌, ◌≡◌, Bool, true, false, ◌&&◌, ◌==◌, refl, if◌then◌else◌, ltb,
  List, [], ◌∷◌, get_or, arith,
}
use smart_fires_io_t.Base.Word.{u32, u32_mod, sub_u32}
use smart_fires_io_t.Wire.Packet.{AckSummaryPayload}
use smart_fires_io_t.Tdma.Radio.Types.{RadioConfig, PendingEntry, Window, Service}
use smart_fires_io_t.Tdma.Radio.Window.{
  release_from, drop_expired_pending, release_acked, shift_from, empty_pending, window_depth,
  is_expired, is_acked, next_drop,
}
use smart_fires_io_t.Tdma.Radio.Service.{
  shift_pending_timestamps, notify_mcu_standby, hold_pending_retries_for_ack_round_trip, hold_ms,
}
use smart_fires_io_t.Tdma.Radio.Receive.{apply_ack_summary}

-- The entry at an index.
abbrev pub entry_at : Window → ℕ → PendingEntry
entry_at w i = get_or w.entries i empty_pending

release_from_at :
    (test : PendingEntry → Bool) (bump : ℕ → ℕ) (n : ℕ) (es : List PendingEntry) (count drops i : ℕ)
    → let e = get_or es i empty_pending in
      get_or (release_from test bump n es count drops).entries i empty_pending
      ≡ (if ltb i n && e.in_use && test e then (record e { in_use = false }) else e)
unfolding release_from
release_from_at test bump zero es count drops i = ground arith
release_from_at test bump (suc n) [] count drops i = ground arith
release_from_at test bump (suc n) (e ∷ es) count drops zero = ground arith
release_from_at test bump (suc n) (e ∷ es) count drops (suc i) =
    let gone = e.in_use && test e in
    ground (
      arith,
      release_from_at test bump n es (if gone then count - 1 else count)
          (if gone then bump drops else drops) i,
    )

-- What the loop of `applyAckSummary` leaves of each entry.
release_acked_at :
    (cfg : RadioConfig) (ack : AckSummaryPayload) (w : Window) (i : ℕ)
    → let e = entry_at w i in
      (entry_at (release_acked cfg ack w) i ≡ (
        if ltb i (window_depth cfg) && e.in_use && (e.sent_successfully && is_acked ack e.seq)
        then (record e { in_use = false })
        else e))
unfolding release_acked
release_acked_at cfg ack w i =
    release_from_at (λ e. e.sent_successfully && is_acked ack e.seq) (λ drops. drops)
      (window_depth cfg) w.entries w.count w.drops i

-- Where nothing is added for an entry that is freed, the count of drops stays.
release_from_drops :
    (test : PendingEntry → Bool) (n : ℕ) (es : List PendingEntry) (count drops : ℕ)
    → (release_from test (λ d. d) n es count drops).drops ≡ drops
unfolding release_from
release_from_drops test zero es count drops = refl
release_from_drops test (suc n) [] count drops = refl
release_from_drops test (suc n) (e ∷ es) count drops =
    let gone = e.in_use && test e in
    ground (
      arith,
      release_from_drops test n es (if gone then count - 1 else count)
          (if gone then drops else drops),
    )

-- `applyAckSummary` frees exactly the entries in use, within the window's depth, that were sent
-- successfully and that the summary acknowledges, where the summary names this node, and else none. Every
-- other entry is as it was, and no drop is counted.
pub apply_ack_summary_at :
    (now : ℕ) (ack : AckSummaryPayload) (s : Service) (i : ℕ)
    → let e = entry_at s.window i in
      let s' = apply_ack_summary now ack s in
      (entry_at s'.window i ≡ (
        if ack.node_id == s.cfg.node_id
          && (ltb i (window_depth s.cfg) && e.in_use && (e.sent_successfully && is_acked ack e.seq))
        then (record e { in_use = false })
        else e))
      × (s'.window.drops ≡ s.window.drops)
unfolding apply_ack_summary release_acked
apply_ack_summary_at now ack s i =
    let test : PendingEntry → Bool = λ e. e.sent_successfully && is_acked ack e.seq in
    ground (
      arith,
      release_acked_at s.cfg ack s.window i,
      release_from_drops test (window_depth s.cfg) s.window.entries s.window.count s.window.drops,
    )

-- `dropExpiredPending` frees exactly the entries in use, within the window's depth, that are older than
-- the limit or were sent as often as allowed; without application reliability it changes nothing.
pub drop_expired_pending_at :
    (cfg : RadioConfig) (now : ℕ) (w : Window) (i : ℕ)
    → let e = entry_at w i in
      entry_at (drop_expired_pending cfg now w) i ≡ (
        if cfg.enable_app_reliability
          && (ltb i (window_depth cfg) && e.in_use && is_expired cfg now e)
        then (record e { in_use = false })
        else e)
unfolding drop_expired_pending
drop_expired_pending_at cfg now w i = ground (
  arith,
  release_from_at (is_expired cfg now) next_drop (window_depth cfg) w.entries w.count w.drops i,
)

shift_from_at :
    (ms n : ℕ) (es : List PendingEntry) (i : ℕ)
    → let e = get_or es i empty_pending in
      get_or (shift_from ms n es) i empty_pending ≡ (
        if ltb i n && e.in_use
        then (record e {
          first_sent_ms = u32 (e.first_sent_ms + ms);
          last_sent_ms = u32 (e.last_sent_ms + ms);
        })
        else e)
unfolding shift_from
shift_from_at ms zero es i = ground arith
shift_from_at ms (suc n) [] i = ground arith
shift_from_at ms (suc n) (e ∷ es) zero = ground arith
shift_from_at ms (suc n) (e ∷ es) (suc i) = ground (arith, shift_from_at ms n es i)

sub_u32-shift :
    (now t ms : ℕ)
    → now < u32_mod
    → t < u32_mod
    → sub_u32 (u32 (now + ms)) (u32 (t + ms)) ≡ sub_u32 now t
sub_u32-shift now t ms a b = omega arith

-- An MCU standby ages no pending frame: with application reliability, after `notifyMcuStandby` of the time
-- slept, every entry in use within the window's depth has, on a clock that is that much later, the same
-- age and the same time since it was last sent as before, also where the 32-bit clock wraps. So it is
-- expired after the standby if and only if it was before.
pub notify_mcu_standby_age :
    (slept now : ℕ) (s : Service) (i : ℕ)
    → now < u32_mod
    → (entry_at s.window i).first_sent_ms < u32_mod
    → (entry_at s.window i).last_sent_ms < u32_mod
    → i < window_depth s.cfg
    → (entry_at s.window i).in_use ≡ true
    → s.cfg.enable_app_reliability ≡ true
    → let e = entry_at s.window i in
      let e' = entry_at (notify_mcu_standby slept s).window i in
      let now' = u32 (now + slept) in
      (sub_u32 now' e'.first_sent_ms ≡ sub_u32 now e.first_sent_ms)
      × (sub_u32 now' e'.last_sent_ms ≡ sub_u32 now e.last_sent_ms)
      × (is_expired s.cfg now' e' ≡ is_expired s.cfg now e)
unfolding notify_mcu_standby shift_pending_timestamps
notify_mcu_standby_age slept now s i lt1 lt2 lt3 inside on enabled =
    let e = entry_at s.window i in
    ground (
      arith,
      shift_from_at slept (window_depth s.cfg) s.window.entries i,
      sub_u32-shift now e.first_sent_ms slept,
      sub_u32-shift now e.last_sent_ms slept,
    )

-- A hold drops young frames: if `PKT_WINDOW_BEGIN` goes out less than the hold after a pending frame was
-- first sent, then the next `dropExpiredPending` within the hold frees that frame's entry, where the clock
-- does not wrap meanwhile and the age limit is below 2^32 less the hold: its age has wrapped.
pub hold_drops_young :
    (later : ℕ) (s : Service) (i : ℕ)
    → (entry_at s.window i).first_sent_ms ≤ later
    → later < (entry_at s.window i).first_sent_ms + hold_ms s.cfg
    → later + hold_ms s.cfg < u32_mod
    → s.cfg.reliability_max_age_ms < u32_mod - hold_ms s.cfg
    → i < window_depth s.cfg
    → (entry_at s.window i).in_use ≡ true
    → s.cfg.enable_app_reliability ≡ true
    → let held = (hold_pending_retries_for_ack_round_trip s).window in
      (entry_at (drop_expired_pending s.cfg later held) i).in_use ≡ false
unfolding hold_pending_retries_for_ack_round_trip shift_pending_timestamps
hold_drops_young later s i a b c d inside on enabled = ground (
  arith,
  shift_from_at (hold_ms s.cfg) (window_depth s.cfg) s.window.entries i,
  drop_expired_pending_at s.cfg later (hold_pending_retries_for_ack_round_trip s).window i,
)
