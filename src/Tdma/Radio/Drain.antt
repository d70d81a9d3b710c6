-- ===== src/Tdma/Radio/Drain.antt =====
-- `drainTxQueue` and `update` of TdmaRadioService.cpp. The clock's readings and the driver's answers in a
-- call are arguments, one record for each round of the loop.
pub mod Select
use smart_fires_io_t.Base.{
  ℕ, zero, suc, ◌+◌, ◌-◌, ◌==◌, Bool, true, false, not, ◌&&◌, ltb, leb, if◌then◌else◌, List, [],
  ◌∷◌, ◌++◌, Option, none, some, length, get_or,
}
use smart_fires_io_t.Base.Word.{u8, u32}
use smart_fires_io_t.Config.Profile.{NetworkProfile, tx_budget_ms}
use smart_fires_io_t.Wire.Constants.{header_size, pkt_window_begin}
use smart_fires_io_t.Wire.Layout
use smart_fires_io_t.Tdma.Clock.{sync_stale, session_now_ms, position_in_slot_ms, my_turn}
use smart_fires_io_t.Tdma.TxQueue.{dequeue, enqueue, peek_packet_type, is_empty}
use smart_fires_io_t.Tdma.Radio.Types.{
  RadioConfig, Service, strict_link_ack, app_layer_ack_summary, DriverCall, sleep_radio, send_to,
  send_to_wait, enqueue_failed, send_failed,
}
use smart_fires_io_t.Tdma.Radio.Window.{
  Traffic, drop_expired_pending, pick_retransmit_candidate, mark_retransmit_sent,
}
use smart_fires_io_t.Tdma.Radio.Service.{
  is_ready, hold_pending_retries_for_ack_round_trip, remember_sent_telemetry,
  note_retransmit_health,
}
use smart_fires_io_t.Tdma.Radio.Receive.{Arrival, update_rx_power}
use smart_fires_io_t.Tdma.Radio.Drain.Select.{telemetry_uses_link_ack}
unfoldable pub use smart_fires_io_t.Tdma.Radio.Drain.Select.{
  slot_end_ms, max_sends_per_update, bytes_of, traffic_of, pick, allow_retx, select_next, select,
  estimate_tx_budget_ms,
}
pub use smart_fires_io_t.Tdma.Radio.Drain.Select.{Round, Selected, nothing, queued, pending}

-- The frame's budget against what is left of the slot.
unfoldable pub fits_in_slot : NetworkProfile → ℕ → List ℕ → Service → Bool
fits_in_slot profile now bytes s =
    leb (estimate_tx_budget_ms profile bytes)
      (slot_end_ms s.cfg - position_in_slot_ms s.tdma_clock now)

-- A frame that does not fit goes to the back of the queue it came from; a pending one stays pending.
unfoldable pub defer : Selected → Service → Service
defer nothing s = s
defer (pending i bytes) s = s
defer (queued bytes) s =
    let (accepted, queue) = enqueue s.queue (some bytes) (length bytes) in
    if accepted
    then (record s { queue = queue })
    else (record s { queue = queue; radio_error = enqueue_failed })

abbrev pub max_attempts : RadioConfig → ℕ
max_attempts cfg = if ltb 0xff (cfg.max_retries + 1) then 0xff else cfg.max_retries + 1

-- The loop of attempts with a link acknowledgement, from a value of `attempt` on: the attempts made, and
-- whether one succeeded. `attempt` is a byte and wraps, so that at a `limit` of 255 the loop ends only by a success.
unfoldable pub attempt_from : List Bool → ℕ → ℕ → ℕ × Bool
attempt_from [] limit attempt = if leb attempt limit then (1, true) else (0, false)
attempt_from (answer ∷ answers) limit attempt =
    let rest = attempt_from answers limit (u8 (attempt + 1)) in
    if not (leb attempt limit)
    then (0, false)
    else if answer
    then (1, true)
    else (suc rest.0, rest.1)

abbrev pub repeated {ℓ} : {A : Type ℓ} → ℕ → A → List A
repeated zero a = []
repeated (suc n) a = a ∷ repeated n a

-- The send itself: whether it succeeded, and the calls on the driver.
unfoldable pub transmit : RadioConfig → List Bool → List ℕ → Bool × List DriverCall
unfolding attempt_from
transmit cfg answers bytes =
    let (attempts, ok) = attempt_from answers (max_attempts cfg) 1 in
    if telemetry_uses_link_ack cfg
    then (ok, repeated attempts (send_to_wait cfg.base_addr bytes))
    else (get_or answers 0 true, send_to cfg.base_addr bytes ∷ [])

abbrev pub sent_type : List ℕ → ℕ
sent_type bytes = if leb header_size (length bytes) then (Layout.header_of bytes).pkt_type else 0

unfoldable pub count_sent : Service → Service
count_sent s = record s { radio_asleep = false; sent_count = u32 (s.sent_count + 1) }

unfoldable pub hold_after : List ℕ → Service → Service
hold_after bytes s =
    if sent_type bytes == pkt_window_begin then hold_pending_retries_for_ack_round_trip s else s

-- With application reliability, what is kept of a frame that was sent.
unfoldable pub keep_sent : Round → Selected → Service → Service
keep_sent r nothing s = s
keep_sent r (queued bytes) s =
    let kept : Service =
      remember_sent_telemetry (session_now_ms s.tdma_clock r.sent_at) bytes true s in
    record kept {
      last_fresh_telemetry_sent_ms = session_now_ms s.tdma_clock r.fresh_at;
      has_fresh_telemetry_sent = true;
    }
keep_sent r (pending i bytes) s = record s {
  retransmit_count = u32 (s.retransmit_count + 1);
  window = mark_retransmit_sent (session_now_ms s.tdma_clock r.sent_at) i s.window;
}

-- The notes after a send that succeeded.
unfoldable pub note_sent : Bool → Round → Selected → Service → Service
unfolding count_sent hold_after keep_sent
note_sent use_app r selected s =
    let held = hold_after (bytes_of selected) (count_sent s) in
    if use_app then keep_sent r selected held else held

-- Without link acknowledgements the radio is awake after a send that failed, too.
unfoldable pub count_failed : Service → Service
count_failed s = record s {
  radio_asleep = if telemetry_uses_link_ack s.cfg then s.radio_asleep else false;
  failed_send_count = u32 (s.failed_send_count + 1);
  radio_error = send_failed;
}

unfoldable pub retain_failed : Round → Selected → Service → Service
retain_failed r nothing s = s
retain_failed r (queued bytes) s =
    remember_sent_telemetry (session_now_ms s.tdma_clock r.sent_at) bytes false s
retain_failed r (pending i bytes) s = s

-- The notes after a send that failed.
unfoldable pub note_failed : Bool → Round → Selected → Service → Service
unfolding count_failed retain_failed
note_failed use_app r selected s =
    let counted = count_failed s in if use_app then retain_failed r selected counted else counted

-- How a round ends: the call returns, or the loop goes on.
pub data Progress : Type 0 where
  stopped went_on : Service → List DriverCall → Progress

unfoldable pub send_selected : Bool → Round → Selected → Service → Progress
unfolding transmit note_sent note_failed
send_selected use_app r selected s =
    let (ok, calls) = transmit s.cfg r.answers (bytes_of selected) in
    let s' : Service =
      if ok then note_sent use_app r selected s else note_failed use_app r selected s in
    if is_empty s'.queue && not use_app then stopped s' calls else went_on s' calls

-- A choice that was made goes on the air if it fits.
unfoldable pub send_or_defer : NetworkProfile → Bool → Bool → Round → Selected → Service → Progress
unfolding fits_in_slot defer send_selected
send_or_defer profile fresh use_app r nothing s = stopped s []
send_or_defer profile fresh use_app r (queued bytes) s =
    if fresh && not (fits_in_slot profile r.fit_at bytes s)
    then stopped (defer (queued bytes) s) []
    else send_selected use_app r (queued bytes) s
send_or_defer profile fresh use_app r (pending i bytes) s =
    if fresh && not (fits_in_slot profile r.fit_at bytes s)
    then stopped (defer (pending i bytes) s) []
    else send_selected use_app r (pending i bytes) s

-- One round of the loop; `sends` is `sendsThisUpdate`.
unfoldable pub drain_round : NetworkProfile → Bool → Bool → ℕ → ℕ → Round → Service → Progress
unfolding select send_or_defer
drain_round profile fresh use_app slot_index sends r s =
    let (selected, s') = select use_app slot_index r s in
    if fresh && leb (slot_end_ms s.cfg) (position_in_slot_ms s.tdma_clock r.budget_at)
    then stopped s []
    else if not fresh && ltb 0 sends
    then stopped s []
    else send_or_defer profile fresh use_app r selected s'

-- The loop, with the number of rounds left; round `n` has the readings `rounds n`.
unfoldable pub drain_from :
    NetworkProfile → Bool → Bool → ℕ → (ℕ → Round) → ℕ → ℕ → Service → Service × List DriverCall
unfolding drain_round
drain_from profile fresh use_app slot_index rounds zero sends s = (s, [])
drain_from profile fresh use_app slot_index rounds (suc left) sends s =
    elim (drain_round profile fresh use_app slot_index sends (rounds sends) s) [
      | stopped s' calls ↦ (s', calls)
      | went_on s' calls ↦
          let rest = drain_from profile fresh use_app slot_index rounds left (sends + 1) s' in
          (rest.0, calls ++ rest.1)
    ]

-- The readings of a call of `drainTxQueue`.
pub record Readings : Type 0 where
  pub expire_at : ℕ
  pub stale_at : ℕ
  pub turn_at : ℕ
  pub rounds : ℕ → Round

unfoldable pub drain_tx_queue : NetworkProfile → Readings → Service → Service × List DriverCall
unfolding drop_expired_pending drain_from
drain_tx_queue profile t s =
    let s' : Service = record s {
      window = drop_expired_pending s.cfg (session_now_ms s.tdma_clock t.expire_at) s.window;
    } in
    let fresh = s.tdma_clock.synced && not (sync_stale s.tdma_clock t.stale_at) in
    let (mine, slot_index) = my_turn s.tdma_clock t.turn_at in
    if not mine
    then (s', [])
    else drain_from profile fresh (s.cfg.enable_app_reliability && fresh) slot_index t.rounds
        max_sends_per_update 0 (record s' { last_tx_slot_index = slot_index })

-- The readings and the received packets of a call of `update`.
pub record Pass : Type 0 where
  pub rx_at : ℕ
  pub incoming : List (Option Arrival)
  pub draining : Readings
  pub health_at : ℕ

unfoldable pub update : NetworkProfile → Pass → Service → Service × List DriverCall
unfolding update_rx_power drain_tx_queue note_retransmit_health
update profile t s =
    let (heard, calls) = update_rx_power t.rx_at t.incoming s in
    let (drained, later) = drain_tx_queue profile t.draining heard in
    if not (is_ready s.radio_state)
    then (s, [])
    else if s.duty_sleep_requested
    then (if not s.radio_asleep
        then (record s { radio_asleep = true }, sleep_radio ∷ [])
        else (s, []))
    else (
      note_retransmit_health (session_now_ms drained.tdma_clock t.health_at) drained,
      calls ++ later,
    )
