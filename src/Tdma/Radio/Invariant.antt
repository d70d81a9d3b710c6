-- ===== src/Tdma/Radio/Invariant.antt =====
-- What every call of TdmaRadioService.cpp keeps: the window's counter and the queue's representation.
pub mod Draining
use smart_fires_io_t.Base.{
  ℕ, zero, suc, ◌+◌, Bool, true, false, not, ◌&&◌, if◌then◌else◌, if_both, List, [], ◌∷◌, ◌++◌,
  Option, none, some, length, arith,
}
use smart_fires_io_t.Base.Word.{u32}
use smart_fires_io_t.Config.Profile.{NetworkProfile}
use smart_fires_io_t.Wire.Packet.{AckSummaryPayload}
use smart_fires_io_t.Tdma.Clock.{session_now_ms, my_turn, sync_stale}
use smart_fires_io_t.Tdma.TxQueue.Valid.{IsValid, enqueue-IsValid, dequeue-IsValid}
use smart_fires_io_t.Tdma.Radio.Types.{RadioConfig, Window, Service, DriverCall}
use smart_fires_io_t.Tdma.Radio.Window.{drop_expired_pending, window_depth}
use smart_fires_io_t.Tdma.Radio.Service.{
  shift_pending_timestamps, hold_pending_retries_for_ack_round_trip, hold_ms, decode_header,
  remember_if, remember_sent_telemetry, telemetry_seq, note_retransmit_health,
}
use smart_fires_io_t.Tdma.Radio.Receive.{
  Arrival, remember_pending_command, is_command, Sync, handle_sync, apply_assigned_node_id,
  apply_ack_summary, handle_packet, time_sync_packet, ack_of, check_incoming_time_sync,
  update_rx_power,
}
use smart_fires_io_t.Tdma.Radio.Drain.{
  Round, Readings, Pass, Selected, nothing, queued, pending, Progress, stopped, went_on, traffic_of,
  pick, select_next, select, defer, count_sent, hold_after, keep_sent, count_failed, retain_failed,
  bytes_of, note_sent, max_sends_per_update, note_failed, send_selected, send_or_defer, drain_round,
  drain_from, drain_tx_queue, update,
}
use smart_fires_io_t.Tdma.Radio.Count.{
  IsCounted, drop_expired_pending-IsCounted, release_acked-IsCounted, shift_from-IsCounted,
  mark_retransmit_sent-IsCounted, remember-IsCounted, pick_retransmit_candidate-IsCounted,
}
use smart_fires_io_t.Tdma.Radio.Invariant.Draining.{drain_tx_queue-IsConsistent}
pub use smart_fires_io_t.Tdma.Radio.Invariant.Draining.{IsConsistent}

handle_sync-IsConsistent :
    (a : Arrival) (sync : Sync) (s : Service)
    → IsConsistent s
    → IsConsistent (handle_sync a sync s).0
unfolding handle_sync apply_assigned_node_id
handle_sync-IsConsistent a sync s h = ground (arith, h.counted, h.ring)

apply_ack_summary-IsConsistent :
    (now : ℕ) (ack : AckSummaryPayload) (s : Service)
    → IsConsistent s
    → IsConsistent (apply_ack_summary now ack s)
unfolding apply_ack_summary
apply_ack_summary-IsConsistent now ack s h =
    ground (arith, h.ring, release_acked-IsCounted s.cfg ack s.window h.counted)

handle_packet-IsConsistent :
    (a : Arrival) (s : Service) → IsConsistent s → IsConsistent (handle_packet a s).0
unfolding handle_packet remember_pending_command
handle_packet-IsConsistent a s h =
    heard (time_sync_packet s.cfg.node_id a.packet.bytes) (ack_of s a.packet.bytes)
  where
    heard :
        (sync : Option Sync) (ack : Option AckSummaryPayload)
        → IsConsistent
            (elim sync as (λ _. Service × List DriverCall) [
              | some sync ↦ handle_sync a sync s
              | none ↦ elim ack [
                | some ack ↦ (
                  apply_ack_summary a.session_now ack
                      (record s { ack_summary_count = u32 (s.ack_summary_count + 1) }),
                  [],
                )
                | none ↦
                    if is_command (decode_header a.packet.bytes)
                    then (remember_pending_command a.packet s, [])
                    else (s, [])
              ]
            ]).0
    heard (some sync) ack = handle_sync-IsConsistent a sync s h
    heard none (some ack) =
        apply_ack_summary-IsConsistent a.session_now ack
          (record s { ack_summary_count = u32 (s.ack_summary_count + 1) })
          (record { counted = h.counted; ring = h.ring })
    heard none none = ground (arith, h.counted, h.ring)

check_incoming_time_sync-IsConsistent :
    (incoming : List (Option Arrival)) (s : Service)
    → IsConsistent s
    → IsConsistent (check_incoming_time_sync incoming s).0
unfolding check_incoming_time_sync
check_incoming_time_sync-IsConsistent [] s h = h
check_incoming_time_sync-IsConsistent (none ∷ rest) s h = h
check_incoming_time_sync-IsConsistent (some a ∷ rest) s h =
    check_incoming_time_sync-IsConsistent rest (handle_packet a s).0
      (handle_packet-IsConsistent a s h)

pub update_rx_power-IsConsistent :
    (now : ℕ) (incoming : List (Option Arrival)) (s : Service)
    → IsConsistent s
    → IsConsistent (update_rx_power now incoming s).0
unfolding update_rx_power
update_rx_power-IsConsistent now incoming s h =
    let heard =
      check_incoming_time_sync-IsConsistent incoming (record s { radio_asleep = false })
        (record { counted = h.counted; ring = h.ring }) in
    ground (arith, heard, h.counted, h.ring)

note_retransmit_health-IsConsistent :
    (now : ℕ) (s : Service) → IsConsistent s → IsConsistent (note_retransmit_health now s)
unfolding note_retransmit_health
note_retransmit_health-IsConsistent now s h = ground (arith, h.counted, h.ring)

-- Whatever the packets received, the clock's readings and the driver's answers: after `update` the
-- pending counter is again the number of the eight entries that are in use, and the queue's
-- representation invariant holds again.
pub update-IsConsistent :
    (profile : NetworkProfile) (t : Pass) (s : Service)
    → IsConsistent s
    → IsConsistent (update profile t s).0
unfolding update
update-IsConsistent profile t s h =
    let (heard, calls) = update_rx_power t.rx_at t.incoming s in
    let drained = drain_tx_queue profile t.draining heard in
    let kept =
      drain_tx_queue-IsConsistent profile t.draining heard
        (update_rx_power-IsConsistent t.rx_at t.incoming s h) in
    let noted =
      note_retransmit_health-IsConsistent (session_now_ms drained.0.tdma_clock t.health_at)
        drained.0 kept in
    ground (arith, noted, h.counted, h.ring)
