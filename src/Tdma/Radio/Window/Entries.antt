-- ===== src/Tdma/Radio/Window/Entries.antt =====
-- The entries of the window of unacknowledged frames in TdmaRadioService.cpp, and the loops over `_pending` that
-- free them and move their times. A loop runs over the first `depth` entries of the array.
use Prim.Native.Nat.{bit_and}
use smart_fires_io_t.Base.{
  ℕ, zero, suc, ◌+◌, ◌-◌, ◌*◌, ◌/◌, ◌^◌, ◌==◌, Bool, true, false, not, ◌&&◌, ◌||◌, ltb, leb,
  if◌then◌else◌, List, [], ◌∷◌, replicate,
}
use smart_fires_io_t.Base.Word.{u32, sub_u8, sub_u32}
use smart_fires_io_t.Wire.Packet.{AckSummaryPayload}
use smart_fires_io_t.Tdma.Radio.Types.{
  RadioConfig, PendingEntry, Window, ReliabilityMode, strict_link_ack, app_layer_ack_summary,
  max_reliability_window,
}

abbrev pub empty_pending : PendingEntry
empty_pending = record {
  in_use = false;
  seq = 0;
  payload = [];
  first_sent_ms = 0;
  last_sent_ms = 0;
  attempts = 0;
  sent_successfully = false;
  ack_gate_opened = false;
}

abbrev pub new_window : Window
new_window = record {
  entries = replicate max_reliability_window empty_pending;
  count = 0;
  drops = 0;
}

abbrev pub is_app_layer : ReliabilityMode → Bool
is_app_layer strict_link_ack = false
is_app_layer app_layer_ack_summary = true

unfoldable pub compute_retry_wait_ms : RadioConfig → ℕ
compute_retry_wait_ms cfg =
    let scaled = u32 (cfg.expected_ack_interval_ms * cfg.retry_wait_multiplier_permille) / 1000 in
    if ltb scaled cfg.retry_wait_min_ms
    then cfg.retry_wait_min_ms
    else if ltb cfg.retry_wait_max_ms scaled
    then cfg.retry_wait_max_ms
    else scaled

abbrev pub window_depth : RadioConfig → ℕ
window_depth cfg =
    if ltb max_reliability_window cfg.reliability_window_depth
    then max_reliability_window
    else cfg.reliability_window_depth

abbrev pub is_expired : RadioConfig → ℕ → PendingEntry → Bool
is_expired cfg now e =
    ltb cfg.reliability_max_age_ms (sub_u32 now e.first_sent_ms)
    || leb cfg.reliability_max_attempts e.attempts

-- A loop that frees the entries in use for which the test holds, with the count of entries and, where
-- `bump` is not the identity, the count of drops.
unfoldable pub release_from :
    (PendingEntry → Bool) → (ℕ → ℕ) → ℕ → List PendingEntry → ℕ → ℕ → Window
release_from test bump zero es count drops = record { entries = es; count = count; drops = drops }
release_from test bump (suc rounds) [] count drops = record {
  entries = [];
  count = count;
  drops = drops;
}
release_from test bump (suc rounds) (e ∷ es) count drops =
    let gone = e.in_use && test e in
    let rest =
      release_from test bump rounds es (if gone then count - 1 else count)
        (if gone then bump drops else drops) in
    record rest { entries = (if gone then (record e { in_use = false }) else e) ∷ rest.entries }

abbrev pub next_drop : ℕ → ℕ
next_drop drops = u32 (drops + 1)

unfoldable pub drop_expired_pending : RadioConfig → ℕ → Window → Window
unfolding release_from
drop_expired_pending cfg now w =
    if not cfg.enable_app_reliability
    then w
    else release_from (is_expired cfg now) next_drop (window_depth cfg) w.entries w.count w.drops

-- The test of `applyAckSummary` on one sequence number. A shift by `n` is a division by `2 ^ n`.
unfoldable pub is_acked : AckSummaryPayload → ℕ → Bool
is_acked ack seq =
    if ltb (sub_u8 ack.ack_base_seq seq) 128
    then true
    else let ahead = sub_u8 seq ack.ack_base_seq in
      if leb 1 ahead && leb ahead 16
      then not (bit_and (ack.ack_mask / 2 ^ (ahead - 1)) 1 == 0)
      else false

-- The loop of `applyAckSummary`.
unfoldable pub release_acked : RadioConfig → AckSummaryPayload → Window → Window
unfolding release_from is_acked
release_acked cfg ack w =
    release_from (λ e. e.sent_successfully && is_acked ack e.seq) (λ drops. drops)
      (window_depth cfg) w.entries w.count w.drops

-- The loop of `shiftPendingTimestamps`.
unfoldable pub shift_from : ℕ → ℕ → List PendingEntry → List PendingEntry
shift_from shift_ms zero es = es
shift_from shift_ms (suc rounds) [] = []
shift_from shift_ms (suc rounds) (e ∷ es) =
    (if e.in_use
      then (record e {
        first_sent_ms = u32 (e.first_sent_ms + shift_ms);
        last_sent_ms = u32 (e.last_sent_ms + shift_ms);
      })
      else e)
    ∷ shift_from shift_ms rounds es
