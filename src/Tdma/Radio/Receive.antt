-- ===== src/Tdma/Radio/Receive.antt =====
-- What TdmaRadioService.cpp does with received packets: `checkIncomingTimeSync` and its handlers. A
-- packet comes with the driver's answers and the clock's readings for the handling of it.
use smart_fires_io_t.Base.{
  ℕ, ◌+◌, ◌==◌, Bool, true, false, not, ◌&&◌, ◌||◌, if◌then◌else◌, List, [], ◌∷◌, ◌++◌, Option,
  none, some, take,
}
use smart_fires_io_t.Base.Word.{u32}
use smart_fires_io_t.Wire.Constants.{pkt_cmd_calibrate, pkt_cmd_reset, pkt_cmd_set_tx_power}
use smart_fires_io_t.Wire.Decode.{decode_time_sync, decode_ack_summary}
use smart_fires_io_t.Wire.Packet.{PktHeader, AckSummaryPayload, TimeSyncPayload}
use smart_fires_io_t.Tdma.Clock.{apply_sync, apply_assignment, base_rx_window_open}
use smart_fires_io_t.Tdma.TxQueue.{max_payload_len}
use smart_fires_io_t.Tdma.Radio.Types.{
  Service, ReceivedPacket, DriverCall, sleep_radio, set_local_address,
}
use smart_fires_io_t.Tdma.Radio.Window.{is_app_layer, release_acked}
use smart_fires_io_t.Tdma.Radio.Service.{decode_header, has_type}

-- A time sync that this node accepts.
pub record Sync : Type 0 where
  pub session_id : ℕ
  pub session_ms : ℕ
  pub assigned_node_id : ℕ

abbrev pub accepted_sync : ℕ → PktHeader × TimeSyncPayload → Option Sync
accepted_sync node_id (hdr, ts) =
    let sync : Sync = record {
      session_id = ts.session_id;
      session_ms = ts.session_time_ms;
      assigned_node_id = hdr.node_id;
    } in
    if node_id == 0
    then (if hdr.node_id == 0 then none else some sync)
    else if not (hdr.node_id == 0) && not (hdr.node_id == node_id)
    then none
    else some sync

unfoldable pub time_sync_packet : ℕ → List ℕ → Option Sync
time_sync_packet node_id raw = elim (decode_time_sync raw) [
  | none ↦ none
  | some got ↦ accepted_sync node_id got
]

-- `driver_set` is the driver's answer to `setLocalAddress`.
unfoldable pub apply_assigned_node_id : Bool → ℕ → Service → Bool × Service × List DriverCall
apply_assigned_node_id driver_set node_id s =
    let cfg = s.cfg in
    if node_id == 0
    then (false, s, [])
    else if cfg.node_id == node_id
    then (true, s, [])
    else if not driver_set
    then (false, s, set_local_address node_id ∷ [])
    else (
      true,
      record s {
        cfg = record cfg { node_id = node_id };
        tdma_clock = apply_assignment node_id cfg.num_slots s.tdma_clock;
      },
      set_local_address node_id ∷ [],
    )

unfoldable pub apply_ack_summary : ℕ → AckSummaryPayload → Service → Service
apply_ack_summary now ack s = if not (ack.node_id == s.cfg.node_id) then s else (record s {
  last_ack_summary_session_ms = now;
  has_received_ack_summary = true;
  window = release_acked s.cfg ack s.window;
})

unfoldable pub remember_pending_command : ReceivedPacket → Service → Service
remember_pending_command packet s = record s {
  pending_command = record {
    bytes = take max_payload_len packet.bytes;
    rssi = packet.rssi;
    from_addr = packet.from_addr;
  };
  has_pending_command = true;
}

abbrev pub is_command : Option PktHeader → Bool
is_command h =
    has_type pkt_cmd_calibrate h || has_type pkt_cmd_reset h || has_type pkt_cmd_set_tx_power h

-- A packet that `receive` returns, with the driver's answer to `setLocalAddress`, and what `millis` and
-- `sessionNowMs` read while it is handled.
pub record Arrival : Type 0 where
  pub packet : ReceivedPacket
  pub driver_set : Bool
  pub now : ℕ
  pub session_now : ℕ

-- The branch of a time sync.
unfoldable pub handle_sync : Arrival → Sync → Service → Service × List DriverCall
unfolding apply_assigned_node_id
handle_sync a sync s =
    let (applied, s', calls) = apply_assigned_node_id a.driver_set sync.assigned_node_id s in
    let synced : Service → Service = λ t. record t {
      tdma_clock = apply_sync sync.session_id sync.session_ms a.now t.tdma_clock;
      time_sync_count = u32 (t.time_sync_count + 1);
    } in
    if sync.assigned_node_id == 0
    then (synced s, [])
    else if not applied
    then (s', calls)
    else (synced s', calls)

unfoldable pub ack_of : Service → List ℕ → Option AckSummaryPayload
ack_of s raw =
    if s.cfg.enable_app_reliability
    then elim (decode_ack_summary raw) [ none ↦ none | some got ↦ some got.1 ]
    else none

-- One round of the loop.
unfoldable pub handle_packet : Arrival → Service → Service × List DriverCall
unfolding time_sync_packet handle_sync ack_of apply_ack_summary remember_pending_command
    decode_header
handle_packet a s =
    let raw = a.packet.bytes in
    elim (time_sync_packet s.cfg.node_id raw) [
      | some sync ↦ handle_sync a sync s
      | none ↦ elim (ack_of s raw) [
        | some ack ↦ (
          apply_ack_summary a.session_now ack
              (record s { ack_summary_count = u32 (s.ack_summary_count + 1) }),
          [],
        )
        | none ↦
            if is_command (decode_header raw)
            then (remember_pending_command a.packet s, [])
            else (s, [])
      ]
    ]

-- The loop, over what `receive` answers while `available` holds. It ends where `receive` fails.
unfoldable pub check_incoming_time_sync :
    List (Option Arrival) → Service → Service × List DriverCall
unfolding handle_packet
check_incoming_time_sync [] s = (s, [])
check_incoming_time_sync (none ∷ rest) s = (s, [])
check_incoming_time_sync (some a ∷ rest) s =
    let (s', calls) = handle_packet a s in
    let (s'', later) = check_incoming_time_sync rest s' in (s'', calls ++ later)

unfoldable pub want_rx : ℕ → Service → Bool
want_rx now s = not (is_app_layer s.cfg.reliability_mode) || base_rx_window_open s.tdma_clock now

unfoldable pub update_rx_power : ℕ → List (Option Arrival) → Service → Service × List DriverCall
unfolding want_rx check_incoming_time_sync
update_rx_power now incoming s =
    if want_rx now s
    then check_incoming_time_sync incoming (record s { radio_asleep = false })
    else if not s.radio_asleep
    then (record s { radio_asleep = true }, sleep_radio ∷ [])
    else (s, [])
