-- ===== src/BaseApp/Flush.antt =====
-- What the base sends in its own slot, in SmartFiresBaseApp.cpp: `sendPendingAckSummary` and what it
-- calls. The clock's readings and the radio's answers are arguments, by the place of the call.
use smart_fires_io_t.Base.{
  ℕ, zero, suc, ◌+◌, ◌-◌, ◌%◌, ◌==◌, is_some, Bool, true, false, not, ◌&&◌, ◌||◌, ltb, leb,
  if◌then◌else◌, List, [], ◌∷◌, ◌++◌, none, some, get_or, set,
}
use smart_fires_io_t.Base.Word.{u8, u32, sub_u32}
use smart_fires_io_t.Config.Profile.{NetworkProfile, tx_budget_ms}
use smart_fires_io_t.Wire.Constants.{ack_summary_lora_size}
use smart_fires_io_t.Wire.Encode.{encode_ack_summary}
use smart_fires_io_t.BaseApp.Tracker.{AckTracker, Acks, empty_tracker, max_ack_tracked_nodes}

-- `kMaxAckSummarySendAttempts`.
abbrev pub max_ack_summary_send_attempts : ℕ
max_ack_summary_send_attempts = 3

-- The settings: `ackSummaryMinIntervalMs`, `kAckSummaryNodeSilenceMs`, `kSlotWidthMs` and `kGuardMs`.
pub record Timing : Type 0 where
  pub ack_summary_min_interval_ms : ℕ
  pub node_silence_ms : ℕ
  pub slot_width_ms : ℕ
  pub guard_ms : ℕ

unfoldable pub base_tx_deadline_allows : NetworkProfile → Timing → ℕ → ℕ → Bool
base_tx_deadline_allows profile cfg position_ms application_len =
    let slot_end_ms = cfg.slot_width_ms - cfg.guard_ms in
    leb (tx_budget_ms profile application_len)
      (if ltb position_ms slot_end_ms then slot_end_ms - position_ms else 0)

-- A frame that the base sends: the address and the bytes.
pub record Sent : Type 0 where
  pub to_addr : ℕ
  pub bytes : List ℕ

unfoldable pub send_ack_summary : Bool → ℕ → ℕ → ℕ → Acks → Bool × Acks × List Sent
send_ack_summary radio_ok node_id ack_base_seq ack_mask s =
    let s' : Acks = record s { ack_summary_seq = u8 (s.ack_summary_seq + 1) } in
    let encoded =
      encode_ack_summary s.ack_summary_seq
        (record { node_id = node_id; ack_base_seq = ack_base_seq; ack_mask = ack_mask })
        ack_summary_lora_size 0 in
    let sent : List Sent = elim encoded [
      | none ↦ []
      | some payload ↦ record { to_addr = node_id; bytes = payload } ∷ []
    ] in
    if is_some encoded && radio_ok
    then (true, record s' { ack_tx_count = u32 (s.ack_tx_count + 1) }, sent)
    else (false, s', sent)

-- What `sendPendingAckSummary` decides on a tracker.
pub data Due : Type 0 where
  skipped suppressed due : Due

unfoldable pub due_of : Timing → ℕ → AckTracker → Due
due_of cfg now t =
    if not t.in_use || not t.initialized || not t.dirty || t.retry_held
    then skipped
    else if t.asleep || t.last_heard_valid && leb cfg.node_silence_ms (sub_u32 now t.last_heard_ms)
    then skipped
    else if t.last_sent_initialized
        && not t.force_resend
        && t.last_sent_ack_base_seq == t.ack_base_seq
        && t.last_sent_ack_mask == t.ack_mask
    then suppressed
    else due

abbrev pub failed_once_more : AckTracker → AckTracker
failed_once_more t =
    let failures = u8 (t.failed_send_attempts + 1) in
    record t {
      failed_send_attempts = failures;
      retry_held = leb max_ack_summary_send_attempts failures || t.retry_held;
    }

abbrev pub summary_sent : AckTracker → AckTracker
summary_sent t = record t {
  failed_send_attempts = 0;
  force_resend = false;
  last_sent_initialized = true;
  last_sent_ack_base_seq = t.ack_base_seq;
  last_sent_ack_mask = t.ack_mask;
  dirty = false;
}

-- The slot position at the deadline test and the radio's answer, for each offset of the loop.
pub record Env : Type 0 where
  pub now : ℕ
  pub slot_index : ℕ
  pub position_at : ℕ → ℕ
  pub radio_ok : ℕ → Bool

abbrev pub with_tracker : ℕ → AckTracker → Acks → Acks
with_tracker i t s = record s { trackers = set s.trackers i t }

-- How a round of the loop ends: the call returns, or the loop goes on.
pub data Turn : Type 0 where
  returned : Bool → Acks → List Sent → Turn
  next : Acks → List Sent → Turn

-- A round in which the tracker's summary is due.
unfoldable pub flush_due : NetworkProfile → Timing → Env → ℕ → ℕ → AckTracker → Acks → Turn
unfolding base_tx_deadline_allows send_ack_summary
flush_due profile cfg env offset i t s =
    let (ok, s', sent) =
      send_ack_summary (env.radio_ok offset) t.node_id t.ack_base_seq t.ack_mask s in
    if not (base_tx_deadline_allows profile cfg (env.position_at offset) ack_summary_lora_size)
    then returned false s []
    else if not ok
    then next (with_tracker i (failed_once_more t) s') sent
    else returned true
        (record (with_tracker i (summary_sent t) s') {
          last_flush_ms = env.now;
          last_flush_slot_index = env.slot_index;
          next_flush_index = u8 ((i + 1) % max_ack_tracked_nodes);
        })
        sent

unfoldable pub flush_round : NetworkProfile → Timing → Env → ℕ → Acks → Turn
unfolding due_of flush_due
flush_round profile cfg env offset s =
    let i = u8 ((s.next_flush_index + offset) % max_ack_tracked_nodes) in
    let t = get_or s.trackers i empty_tracker in
    elim (due_of cfg env.now t) [
      | skipped ↦ next s []
      | suppressed ↦ next (with_tracker i (record t { dirty = false }) s) []
      | due ↦ flush_due profile cfg env offset i t s
    ]

-- The loop, with the rounds left.
unfoldable pub flush_from : NetworkProfile → Timing → Env → ℕ → ℕ → Acks → Bool × Acks × List Sent
unfolding flush_round
flush_from profile cfg env zero offset s = (false, s, [])
flush_from profile cfg env (suc left) offset s = elim (flush_round profile cfg env offset s) [
  | returned ok s' sent ↦ (ok, s', sent)
  | next s' sent ↦
      let rest = flush_from profile cfg env left (offset + 1) s' in (rest.0, rest.1, sent ++ rest.2)
]

unfoldable pub send_pending_ack_summary :
    NetworkProfile → Timing → Env → Acks → Bool × Acks × List Sent
unfolding flush_from
send_pending_ack_summary profile cfg env s =
    if not s.flush_requested
      && ltb 0 cfg.ack_summary_min_interval_ms
      && ltb (sub_u32 env.now s.last_flush_ms) cfg.ack_summary_min_interval_ms
    then (false, s, [])
    else flush_from profile cfg env max_ack_tracked_nodes 0 (record s { flush_requested = false })
