-- ===== src/Tdma/Radio/Drain/Select.antt =====
-- The choice of the next frame in `drainTxQueue` of TdmaRadioService.cpp.
use smart_fires_io_t.Base.{
  ℕ, ◌-◌, ◌==◌, Bool, true, false, not, ◌&&◌, ltb, if◌then◌else◌, List, [], Option, none, some,
  length,
}
use smart_fires_io_t.Config.Profile.{NetworkProfile, tx_budget_ms}
use smart_fires_io_t.Wire.Constants.{pkt_window_begin}
use smart_fires_io_t.Tdma.Clock.{session_now_ms}
use smart_fires_io_t.Tdma.TxQueue.{dequeue, peek_packet_type, is_empty}
use smart_fires_io_t.Tdma.Radio.Types.{RadioConfig, Service, strict_link_ack, app_layer_ack_summary}
use smart_fires_io_t.Tdma.Radio.Window.{Traffic, pick_retransmit_candidate}

abbrev pub telemetry_uses_link_ack : RadioConfig → Bool
telemetry_uses_link_ack cfg = elim cfg.reliability_mode [
  | strict_link_ack ↦ cfg.enable_link_ack
  | app_layer_ack_summary ↦ false
]

-- What `millis` reads at the budget test, at the first and the second choice of a retransmission, at the
-- fit test, and at the two notes after the send; and what the driver answers to the sends, in order. Behind
-- the end of the list a send succeeds, so that every list stands for a call that returns.
pub record Round : Type 0 where
  pub budget_at : ℕ
  pub pick_at : ℕ
  pub repick_at : ℕ
  pub fit_at : ℕ
  pub sent_at : ℕ
  pub fresh_at : ℕ
  pub answers : List Bool

abbrev pub slot_end_ms : RadioConfig → ℕ
slot_end_ms cfg =
    if ltb cfg.guard_ms cfg.slot_width_ms
    then cfg.slot_width_ms - cfg.guard_ms
    else cfg.slot_width_ms

abbrev pub max_sends_per_update : ℕ
max_sends_per_update = 3

-- The frame chosen for the air: from the queue, or the pending entry at an index.
pub data Selected : Type 0 where
  nothing : Selected
  queued : List ℕ → Selected
  pending : ℕ → List ℕ → Selected

abbrev pub bytes_of : Selected → List ℕ
bytes_of nothing = []
bytes_of (queued bytes) = bytes
bytes_of (pending i bytes) = bytes

abbrev pub traffic_of : Service → Traffic
traffic_of s = record {
  has_fresh = s.has_fresh_telemetry_sent;
  last_fresh_ms = s.last_fresh_telemetry_sent_ms;
  has_ack = s.has_received_ack_summary;
  last_ack_ms = s.last_ack_summary_session_ms;
}

abbrev pub pending_of : Option (ℕ × List ℕ) → Selected
pending_of none = nothing
pending_of (some (i, bytes)) = pending i bytes

abbrev pub queued_of : Option (List ℕ) → Selected
queued_of none = nothing
queued_of (some bytes) = queued bytes

abbrev pub is_selected : Selected → Bool
is_selected nothing = false
is_selected (queued bytes) = true
is_selected (pending i bytes) = true

unfoldable pub pick : ℕ → Service → Selected × Service
pick now s =
    let (candidate, w) = pick_retransmit_candidate s.cfg now (traffic_of s) s.window in
    (pending_of candidate, record s { window = w })

abbrev pub is_window_begin : Option ℕ → Bool
is_window_begin none = false
is_window_begin (some pkt_type) = pkt_type == pkt_window_begin

unfoldable pub allow_retx : Bool → ℕ → Service → Bool
allow_retx use_app slot_index s =
    use_app
    && not (is_window_begin (peek_packet_type s.queue))
    && not (s.last_retx_attempt_slot_index == slot_index)

-- The choice behind the first one: the queue, or else again the pending entries.
unfoldable pub select_next : Bool → Round → Service → Selected × Service
unfolding pick
select_next use_app r s =
    let (taken, queue) = dequeue s.queue true in
    if not (is_empty s.queue)
    then (queued_of taken, record s { queue = queue })
    else if use_app
    then pick (session_now_ms s.tdma_clock r.repick_at) s
    else (nothing, s)

unfoldable pub select : Bool → ℕ → Round → Service → Selected × Service
unfolding allow_retx pick select_next
select use_app slot_index r s =
    let (first, s') = pick (session_now_ms s.tdma_clock r.pick_at) s in
    if not (allow_retx use_app slot_index s)
    then select_next use_app r s
    else if is_selected first
    then (first, record s' { last_retx_attempt_slot_index = slot_index })
    else select_next use_app r s'

unfoldable pub estimate_tx_budget_ms : NetworkProfile → List ℕ → ℕ
estimate_tx_budget_ms profile bytes =
    if length bytes == 0 then 0 else tx_budget_ms profile (length bytes)
