-- ===== src/Tdma/Radio/Invariant/Draining.antt =====
-- The invariant of TdmaRadioService.cpp, and `drainTxQueue`.
use smart_fires_io_t.Base.{
  ℕ, zero, suc, ◌+◌, Bool, true, false, not, ◌&&◌, if_both, List, ◌++◌, Option, none, some, length,
  arith,
}
use smart_fires_io_t.Config.Profile.{NetworkProfile}
use smart_fires_io_t.Tdma.Clock.{session_now_ms, my_turn, sync_stale}
use smart_fires_io_t.Tdma.TxQueue.Valid.{IsValid, enqueue-IsValid, dequeue-IsValid}
use smart_fires_io_t.Tdma.Radio.Types.{RadioConfig, Window, Service, DriverCall}
use smart_fires_io_t.Tdma.Radio.Window.{drop_expired_pending, window_depth}
use smart_fires_io_t.Tdma.Radio.Service.{
  shift_pending_timestamps, hold_pending_retries_for_ack_round_trip, hold_ms, remember_if,
  remember_sent_telemetry, telemetry_seq,
}
use smart_fires_io_t.Tdma.Radio.Drain.{
  Round, Readings, Selected, nothing, queued, pending, Progress, stopped, went_on, traffic_of, pick,
  select_next, select, defer, count_sent, hold_after, keep_sent, count_failed, retain_failed,
  bytes_of, note_sent, max_sends_per_update, note_failed, send_selected, send_or_defer, drain_round,
  drain_from, drain_tx_queue,
}
use smart_fires_io_t.Tdma.Radio.Count.{
  IsCounted, drop_expired_pending-IsCounted, shift_from-IsCounted, mark_retransmit_sent-IsCounted,
  remember-IsCounted, pick_retransmit_candidate-IsCounted,
}

pub record IsConsistent (s : Service) : Type 0 where
  pub counted : IsCounted s.window
  pub ring : IsValid s.queue

pub shift_pending_timestamps-IsConsistent :
    (ms : ℕ) (s : Service) → IsConsistent s → IsConsistent (shift_pending_timestamps ms s)
unfolding shift_pending_timestamps
shift_pending_timestamps-IsConsistent ms s h =
    ground (arith, shift_from-IsCounted ms (window_depth s.cfg) s.window h.counted)

remember_if-IsCounted :
    (cfg : RadioConfig) (now : ℕ) (bytes : List ℕ) (ok : Bool) (seq : Option ℕ) (w : Window)
    → IsCounted w
    → IsCounted (remember_if cfg now bytes ok seq w)
remember_if-IsCounted cfg now bytes ok none w h = h
remember_if-IsCounted cfg now bytes ok (some seq) w h = remember-IsCounted cfg now seq bytes ok w h

remember_sent_telemetry-IsConsistent :
    (now : ℕ) (bytes : List ℕ) (ok : Bool) (s : Service)
    → IsConsistent s
    → IsConsistent (remember_sent_telemetry now bytes ok s)
unfolding remember_sent_telemetry
remember_sent_telemetry-IsConsistent now bytes ok s h = record {
  counted =
      remember_if-IsCounted s.cfg now bytes ok (telemetry_seq s.cfg.node_id bytes) s.window
        h.counted;
  ring = h.ring;
}

pick-IsConsistent : (now : ℕ) (s : Service) → IsConsistent s → IsConsistent (pick now s).1
unfolding pick
pick-IsConsistent now s h = record {
  counted = pick_retransmit_candidate-IsCounted s.cfg now (traffic_of s) s.window h.counted;
  ring = h.ring;
}

select_next-IsConsistent :
    (use_app : Bool) (r : Round) (s : Service)
    → IsConsistent s
    → IsConsistent (select_next use_app r s).1
unfolding select_next
select_next-IsConsistent use_app r s h = ground (
  arith,
  dequeue-IsValid s.queue true h.ring,
  pick-IsConsistent (session_now_ms s.tdma_clock r.repick_at) s h,
)

select-IsConsistent :
    (use_app : Bool) (slot : ℕ) (r : Round) (s : Service)
    → IsConsistent s
    → IsConsistent (select use_app slot r s).1
unfolding select
select-IsConsistent use_app slot r s h =
    let picked = pick-IsConsistent (session_now_ms s.tdma_clock r.pick_at) s h in
    ground (
      arith,
      picked,
      select_next-IsConsistent use_app r s h,
      select_next-IsConsistent use_app r (pick (session_now_ms s.tdma_clock r.pick_at) s).1 picked,
    )

defer-IsConsistent : (x : Selected) (s : Service) → IsConsistent s → IsConsistent (defer x s)
unfolding defer
defer-IsConsistent nothing s h = h
defer-IsConsistent (pending i bytes) s h = h
defer-IsConsistent (queued bytes) s h =
    ground (arith, enqueue-IsValid s.queue (some bytes) (length bytes))

hold_after-IsConsistent :
    (bytes : List ℕ) (s : Service) → IsConsistent s → IsConsistent (hold_after bytes s)
unfolding hold_after hold_pending_retries_for_ack_round_trip
hold_after-IsConsistent bytes s h =
    ground (arith, shift_pending_timestamps-IsConsistent (hold_ms s.cfg) s h)

keep_sent-IsConsistent :
    (r : Round) (x : Selected) (s : Service) → IsConsistent s → IsConsistent (keep_sent r x s)
unfolding keep_sent
keep_sent-IsConsistent r nothing s h = h
keep_sent-IsConsistent r (queued bytes) s h =
    let now = session_now_ms s.tdma_clock r.sent_at in
    let kept = remember_sent_telemetry-IsConsistent now bytes true s h in
    record { counted = kept.counted; ring = kept.ring }
keep_sent-IsConsistent r (pending i bytes) s h = record {
  counted =
      mark_retransmit_sent-IsCounted (session_now_ms s.tdma_clock r.sent_at) i s.window h.counted;
  ring = h.ring;
}

note_sent-IsConsistent :
    (use_app : Bool) (r : Round) (x : Selected) (s : Service)
    → IsConsistent s
    → IsConsistent (note_sent use_app r x s)
unfolding note_sent count_sent
note_sent-IsConsistent use_app r x s h =
    let counted : IsConsistent (count_sent s) = record { counted = h.counted; ring = h.ring } in
    let held = hold_after-IsConsistent (bytes_of x) (count_sent s) counted in
    if_both IsConsistent use_app
      (keep_sent-IsConsistent r x (hold_after (bytes_of x) (count_sent s)) held) held

retain_failed-IsConsistent :
    (r : Round) (x : Selected) (s : Service) → IsConsistent s → IsConsistent (retain_failed r x s)
unfolding retain_failed
retain_failed-IsConsistent r nothing s h = h
retain_failed-IsConsistent r (queued bytes) s h =
    remember_sent_telemetry-IsConsistent (session_now_ms s.tdma_clock r.sent_at) bytes false s h
retain_failed-IsConsistent r (pending i bytes) s h = h

note_failed-IsConsistent :
    (use_app : Bool) (r : Round) (x : Selected) (s : Service)
    → IsConsistent s
    → IsConsistent (note_failed use_app r x s)
unfolding note_failed count_failed
note_failed-IsConsistent use_app r x s h =
    let counted : IsConsistent (count_failed s) = record { counted = h.counted; ring = h.ring } in
    if_both IsConsistent use_app (retain_failed-IsConsistent r x (count_failed s) counted) counted

abbrev service_of : Progress → Service
service_of (stopped s calls) = s
service_of (went_on s calls) = s

send_selected-IsConsistent :
    (use_app : Bool) (r : Round) (x : Selected) (s : Service)
    → IsConsistent s
    → IsConsistent (service_of (send_selected use_app r x s))
unfolding send_selected
send_selected-IsConsistent use_app r x s h =
    let sent = note_sent-IsConsistent use_app r x s h in
    let lost = note_failed-IsConsistent use_app r x s h in ground (arith, sent, lost)

send_or_defer-IsConsistent :
    (profile : NetworkProfile) (fresh use_app : Bool) (r : Round) (x : Selected) (s : Service)
    → IsConsistent s
    → IsConsistent (service_of (send_or_defer profile fresh use_app r x s))
unfolding send_or_defer
send_or_defer-IsConsistent profile fresh use_app r nothing s h = h
send_or_defer-IsConsistent profile fresh use_app r (queued bytes) s h =
    let put_back = defer-IsConsistent (queued bytes) s h in
    ground (arith, put_back, send_selected-IsConsistent use_app r (queued bytes) s h)
send_or_defer-IsConsistent profile fresh use_app r (pending i bytes) s h =
    let put_back = defer-IsConsistent (pending i bytes) s h in
    ground (arith, put_back, send_selected-IsConsistent use_app r (pending i bytes) s h)

drain_round-IsConsistent :
    (profile : NetworkProfile) (fresh use_app : Bool) (slot sends : ℕ) (r : Round) (s : Service)
    → IsConsistent s
    → IsConsistent (service_of (drain_round profile fresh use_app slot sends r s))
unfolding drain_round
drain_round-IsConsistent profile fresh use_app slot sends r s h =
    let (x, s') = select use_app slot r s in
    let sent =
      send_or_defer-IsConsistent profile fresh use_app r x s'
        (select-IsConsistent use_app slot r s h) in
    ground (arith, sent)

drain_from-IsConsistent :
    (profile : NetworkProfile) (fresh use_app : Bool) (slot : ℕ) (rounds : ℕ → Round)
    (left sends : ℕ) (s : Service)
    → IsConsistent s
    → IsConsistent (drain_from profile fresh use_app slot rounds left sends s).0
unfolding drain_from
drain_from-IsConsistent profile fresh use_app slot rounds zero sends s h = h
drain_from-IsConsistent profile fresh use_app slot rounds (suc left) sends s h =
    after (drain_from-IsConsistent profile fresh use_app slot rounds left (sends + 1))
      (drain_round profile fresh use_app slot sends (rounds sends) s)
      (drain_round-IsConsistent profile fresh use_app slot sends (rounds sends) s h)
  where
    after :
        ((s' : Service)
          → IsConsistent s'
          → IsConsistent (drain_from profile fresh use_app slot rounds left (sends + 1) s').0)
        → (p : Progress) → IsConsistent (service_of p)
        → IsConsistent
            (elim p as (λ _. Service × List DriverCall) [
              | stopped s' calls ↦ (s', calls)
              | went_on s' calls ↦
                  let rest = drain_from profile fresh use_app slot rounds left (sends + 1) s' in
                  (rest.0, calls ++ rest.1)
            ]).0
    after again (stopped s' calls) k = k
    after again (went_on s' calls) k = again s' k

pub drain_tx_queue-IsConsistent :
    (profile : NetworkProfile) (t : Readings) (s : Service)
    → IsConsistent s
    → IsConsistent (drain_tx_queue profile t s).0
unfolding drain_tx_queue
drain_tx_queue-IsConsistent profile t s h =
    let now = session_now_ms s.tdma_clock t.expire_at in
    let kept = drop_expired_pending-IsCounted s.cfg now s.window h.counted in
    let (mine, slot) = my_turn s.tdma_clock t.turn_at in
    let fresh = s.tdma_clock.synced && not (sync_stale s.tdma_clock t.stale_at) in
    let s' : Service = record s {
      window = drop_expired_pending s.cfg now s.window;
      last_tx_slot_index = slot;
    } in
    let drained =
      drain_from-IsConsistent profile fresh (s.cfg.enable_app_reliability && fresh) slot t.rounds
        max_sends_per_update 0 s' (record { counted = kept; ring = h.ring }) in
    ground (arith, kept, drained)
