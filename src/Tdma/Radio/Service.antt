-- ===== src/Tdma/Radio/Service.antt =====
-- The calls of TdmaRadioService.cpp outside its update loop. A call on the driver stands in the list of
-- calls that an operation returns, and its answer is an argument; `now` is what `sessionNowMs` reads.
use smart_fires_io_t.Base.{
  ℕ, zero, suc, ◌+◌, ◌*◌, ◌==◌, Bool, true, false, not, ◌||◌, ltb, if◌then◌else◌, List, [], ◌∷◌,
  Option, none, some, length, take,
}
use smart_fires_io_t.Base.Int.{ℤ, pos, ltb_ℤ}
use smart_fires_io_t.Base.Word.{u32, sub_u32}
use smart_fires_io_t.Wire.Constants.{
  pkt_magic, pkt_awaken, header_size, pkt_bundle, pkt_status, pkt_full_state,
}
use smart_fires_io_t.Wire.Layout
use smart_fires_io_t.Wire.Packet.{PktHeader}
use smart_fires_io_t.Tdma.Clock.{Clock}
use smart_fires_io_t.Tdma.TxQueue.{TxQueue, dequeue, enqueue, clear}
use smart_fires_io_t.Tdma.Radio.Types.{
  RadioConfig, PendingEntry, Window, Service, ReceivedCommand, RadioState, ready, off, failed,
  no_error, begin_failed, enqueue_failed, send_failed, DriverCall, begin_radio, sleep_radio,
  send_to, send_to_wait, set_power, max_reliability_window,
}
use smart_fires_io_t.Tdma.Radio.Window.{
  empty_pending, new_window, window_depth, shift_from, remember,
}

abbrev pub no_command : ReceivedCommand
no_command = record { bytes = []; rssi = pos 0; from_addr = 0 }

-- The constructor and the initial values of the members.
unfoldable pub new_service : RadioConfig → Clock → TxQueue → Service
new_service cfg tdma_clock queue = record {
  cfg = cfg;
  tdma_clock = tdma_clock;
  queue = queue;
  window = new_window;
  radio_state = off;
  radio_error = no_error;
  sent_count = 0;
  enqueued_count = 0;
  failed_send_count = 0;
  retransmit_count = 0;
  ack_summary_count = 0;
  time_sync_count = 0;
  last_ack_summary_session_ms = 0;
  has_received_ack_summary = false;
  last_tx_slot_index = 0xffffffff;
  last_retx_attempt_slot_index = 0xffffffff;
  last_fresh_telemetry_sent_ms = 0;
  last_retx_health_log_ms = 0;
  has_fresh_telemetry_sent = false;
  has_pending_command = false;
  pending_command = no_command;
  radio_asleep = false;
  duty_sleep_requested = false;
}

abbrev pub is_ready : RadioState → Bool
is_ready off = false
is_ready ready = true
is_ready failed = false

unfoldable pub decode_header : List ℕ → Option PktHeader
decode_header payload =
    let hdr = Layout.header_of payload in
    if ltb (length payload) header_size
    then none
    else if hdr.magic == pkt_magic
    then some hdr
    else none

abbrev pub has_type : ℕ → Option PktHeader → Bool
has_type pkt_type none = false
has_type pkt_type (some hdr) = hdr.pkt_type == pkt_type

-- What a call returns, the service afterwards and the calls on the driver.
pub record Outcome : Type 0 where
  pub result : Bool
  pub service : Service
  pub calls : List DriverCall

unfoldable pub begin : Bool → Service → Outcome
begin driver_began s =
    if not driver_began
    then (record {
      result = false;
      service = record s { radio_state = failed; radio_error = begin_failed };
      calls = begin_radio ∷ [];
    })
    else (record {
      result = true;
      service = record s { radio_state = ready; radio_error = no_error };
      calls = begin_radio ∷ [];
    })

unfoldable pub send_awaken_handshake : Bool → List ℕ → Service → Outcome
unfolding decode_header
send_awaken_handshake ok payload s =
    if not (is_ready s.radio_state) || not (has_type pkt_awaken (decode_header payload))
    then (record { result = false; service = s; calls = [] })
    else (record {
      result = ok;
      service = record s {
        radio_asleep = false;
        radio_error = if ok then s.radio_error else send_failed;
      };
      calls = send_to s.cfg.base_addr payload ∷ [];
    })

unfoldable pub send_immediate : Bool → List ℕ → Bool → Service → Outcome
send_immediate ok payload require_link_ack s =
    let calls =
      (if require_link_ack
        then send_to_wait s.cfg.base_addr payload
        else send_to s.cfg.base_addr payload)
      ∷ [] in
    if not (is_ready s.radio_state) || length payload == 0
    then (record { result = false; service = s; calls = [] })
    else if not ok
    then (record {
      result = false;
      service = record s {
        radio_asleep = false;
        radio_error = send_failed;
        failed_send_count = u32 (s.failed_send_count + 1);
      };
      calls = calls;
    })
    else (record {
      result = true;
      service = record s { radio_asleep = false; sent_count = u32 (s.sent_count + 1) };
      calls = calls;
    })

-- The command that was waiting, once.
unfoldable pub take_pending_command : Service → Option ReceivedCommand × Service
take_pending_command s = if not s.has_pending_command then (none, s) else (
  some s.pending_command,
  record s { has_pending_command = false; pending_command = no_command },
)

-- A payload that may be a null pointer is an option.
unfoldable pub enqueue_telemetry : Option (List ℕ) → ℕ → Service → Bool × Service
unfolding decode_header
enqueue_telemetry payload len s =
    let awaken : Bool = elim payload [
      | none ↦ false
      | some bytes ↦ has_type pkt_awaken (decode_header (take len bytes))
    ] in
    let (accepted, queue) = enqueue s.queue payload len in
    if not (is_ready s.radio_state)
    then (false, s)
    else if awaken
    then (false, s)
    else if not accepted
    then (false, record s { queue = queue; radio_error = enqueue_failed })
    else (true, record s { queue = queue; enqueued_count = u32 (s.enqueued_count + 1) })

-- The loop of `flushTelemetryBuffers` over the queue, on fuel.
unfoldable pub drain_all : ℕ → TxQueue → TxQueue
drain_all zero q = q
drain_all (suc fuel) q =
    let (taken, q') = dequeue q true in
    let rest = drain_all fuel q' in elim taken [ none ↦ q' | some bytes ↦ rest ]

abbrev pub flush_entry : PendingEntry → PendingEntry
flush_entry e = if e.in_use then empty_pending else e

unfoldable pub flush_entries : ℕ → List PendingEntry → List PendingEntry
flush_entries zero es = es
flush_entries (suc n) [] = []
flush_entries (suc n) (e ∷ es) = flush_entry e ∷ flush_entries n es

unfoldable pub flush_telemetry_buffers : Service → Service
unfolding drain_all flush_entries
flush_telemetry_buffers s =
    let w = s.window in
    record s {
      queue = clear (drain_all (s.queue.count + 1) s.queue);
      window = record w { entries = flush_entries max_reliability_window w.entries; count = 0 };
      has_fresh_telemetry_sent = false;
    }

abbrev pub min_tx_power_dbm : ℤ
min_tx_power_dbm = pos 5

abbrev pub max_tx_power_dbm : ℤ
max_tx_power_dbm = pos 20

-- The call on the driver. Whatever its answer, the result is what the driver reports afterwards.
unfoldable pub set_tx_power : ℤ → List DriverCall
set_tx_power dbm =
    set_power (
      if ltb_ℤ dbm min_tx_power_dbm
      then min_tx_power_dbm
      else if ltb_ℤ max_tx_power_dbm dbm
      then max_tx_power_dbm
      else dbm)
    ∷ []

unfoldable pub set_duty_sleep : Bool → Service → Service × List DriverCall
set_duty_sleep true s =
    if s.duty_sleep_requested
    then (s, [])
    else if not s.radio_asleep
    then (record s { duty_sleep_requested = true; radio_asleep = true }, sleep_radio ∷ [])
    else (record s { duty_sleep_requested = true }, [])
set_duty_sleep false s =
    if s.duty_sleep_requested
    then (record s { duty_sleep_requested = false; radio_asleep = false }, [])
    else (s, [])

unfoldable pub shift_pending_timestamps : ℕ → Service → Service
unfolding shift_from
shift_pending_timestamps shift_ms s =
    let w = s.window in
    if not s.cfg.enable_app_reliability || shift_ms == 0 then s else (record s {
      window = record w { entries = shift_from shift_ms (window_depth s.cfg) w.entries };
      last_ack_summary_session_ms =
          if s.has_received_ack_summary
          then u32 (s.last_ack_summary_session_ms + shift_ms)
          else s.last_ack_summary_session_ms;
    })

unfoldable pub notify_mcu_standby : ℕ → Service → Service
notify_mcu_standby slept_ms s = shift_pending_timestamps slept_ms s

-- `kAckRoundTripFrames`.
abbrev pub ack_round_trip_frames : ℕ
ack_round_trip_frames = 2

unfoldable pub hold_ms : RadioConfig → ℕ
hold_ms cfg = u32 (u32 (cfg.num_slots * cfg.slot_width_ms) * ack_round_trip_frames)

unfoldable pub hold_pending_retries_for_ack_round_trip : Service → Service
unfolding hold_ms shift_pending_timestamps
hold_pending_retries_for_ack_round_trip s = shift_pending_timestamps (hold_ms s.cfg) s

-- The sequence number of a telemetry frame of this node.
unfoldable pub telemetry_seq : ℕ → List ℕ → Option ℕ
telemetry_seq node_id payload =
    let hdr = Layout.header_of payload in
    if ltb (length payload) header_size
    then none
    else if not (hdr.magic == pkt_magic) || not (hdr.node_id == node_id)
    then none
    else if hdr.pkt_type == pkt_bundle
        || hdr.pkt_type == pkt_status
        || hdr.pkt_type == pkt_full_state
    then some hdr.seq
    else none

abbrev pub remember_if : RadioConfig → ℕ → List ℕ → Bool → Option ℕ → Window → Window
remember_if cfg now payload sent_ok none w = w
remember_if cfg now payload sent_ok (some seq) w = remember cfg now seq payload sent_ok w

unfoldable pub remember_sent_telemetry : ℕ → List ℕ → Bool → Service → Service
unfolding telemetry_seq
remember_sent_telemetry now payload sent_ok s =
    let seq = telemetry_seq s.cfg.node_id payload in
    record s { window = remember_if s.cfg now payload sent_ok seq s.window }

-- `maybeLogRetransmitHealth`: what it keeps is the time of the last report.
unfoldable pub note_retransmit_health : ℕ → Service → Service
note_retransmit_health now s =
    if not s.cfg.enable_app_reliability
    then s
    else if ltb (sub_u32 now s.last_retx_health_log_ms) 10000
    then s
    else (record s { last_retx_health_log_ms = now })
