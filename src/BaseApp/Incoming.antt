-- ===== src/BaseApp/Incoming.antt =====
-- `processIncomingLoRa` of SmartFiresBaseApp.cpp: what the base does with a received frame.
use smart_fires_io_t.Base.{
  ℕ, ◌+◌, ◌-◌, ◌==◌, Bool, true, not, ◌&&◌, ◌||◌, leb, if◌then◌else◌, List, [], ◌∷◌, ◌++◌, Option,
  none, some, length, take, set, get_or,
}
use smart_fires_io_t.Base.Int.{ℤ}
use smart_fires_io_t.Base.Word.{u32}
use smart_fires_io_t.Config.Profile.{NetworkProfile}
use smart_fires_io_t.Wire.Constants.{
  pkt_magic, header_size, pkt_awaken, pkt_bundle, pkt_status, pkt_full_state, pkt_cmd_ack,
  pkt_window_begin, pkt_window_end, pkt_cmd_set_tx_power, awaken_lora_size, awaken_lora_size_legacy,
  status_tx_power_static,
}
use smart_fires_io_t.Wire.Crc.{crc8}
use smart_fires_io_t.Wire.Layout
use smart_fires_io_t.Wire.Packet.{PktHeader}
use smart_fires_io_t.Wire.Encode.{encode_base_frame}
use smart_fires_io_t.Wire.Decode.{
  decode_awaken, decode_status, decode_cmd_ack, decode_window_marker,
}
use smart_fires_io_t.Telemetry.Types.{has_flag}
use smart_fires_io_t.TxPower.Controller.{on_packet_received, on_status, on_cmd_ack, on_awaken}
use smart_fires_io_t.BaseApp.Tracker.{handle_telemetry_ack_summary, handle_window_marker}
use smart_fires_io_t.BaseApp.Assign.{NodeAssignment, no_assignment, find_or_create_node_assignment}
use smart_fires_io_t.BaseApp.State.{
  BaseApp, RxCounts, Effect, to_jetson, dynamic_tx_power_default_enabled,
}
use smart_fires_io_t.BaseApp.Jetson.{forget_node, send_tx_power_decision}

-- A frame that `receive` answers, with what `millis` reads after it, at the margin sample, in the handler
-- of its type, and where its sequence number is tracked.
pub record Arrival : Type 0 where
  pub from_addr : ℕ
  pub bytes : List ℕ
  pub rssi : ℤ
  pub snr : ℤ
  pub received_at : ℕ
  pub sampled_at : ℕ
  pub handled_at : ℕ
  pub tracked_at : ℕ

-- The size of the frame that goes to the Jetson, and its buffer.
abbrev pub base_frame_size : ℕ
base_frame_size = 260

abbrev pub is_telemetry_packet_type : ℕ → Bool
is_telemetry_packet_type t = t == pkt_bundle || t == pkt_status || t == pkt_full_state

abbrev pub is_window_marker_packet_type : ℕ → Bool
is_window_marker_packet_type t = t == pkt_window_begin || t == pkt_window_end

unfoldable pub count_received : Bool → ℕ → RxCounts → RxCounts
count_received valid t c =
    if not valid
    then (record c { raw = u32 (c.raw + 1) })
    else if t == pkt_awaken
    then (record c { awaken = u32 (c.awaken + 1) })
    else if t == pkt_bundle
    then (record c { bundle = u32 (c.bundle + 1) })
    else if t == pkt_status
    then (record c { status = u32 (c.status + 1) })
    else if t == pkt_full_state
    then (record c { full_state = u32 (c.full_state + 1) })
    else if t == pkt_cmd_ack
    then (record c { cmd_ack = u32 (c.cmd_ack + 1) })
    else c

unfoldable pub forward : ℤ → List ℕ → BaseApp → BaseApp × List Effect
forward rssi bytes b =
    let rx = b.rx in
    elim (encode_base_frame rssi bytes base_frame_size) [
      | none ↦ (b, [])
      | some frame ↦
          (record b { rx = record rx { forwarded = u32 (rx.forwarded + 1) } }, to_jetson frame ∷ [])
    ]

-- An AWAKEN frame for the Jetson: cut to its layout, and with the id and a new checksum where one is given.
unfoldable pub patched_awaken : Option ℕ → List ℕ → List ℕ
patched_awaken node_id bytes =
    let awaken_len =
      if leb awaken_lora_size (length bytes) then awaken_lora_size else awaken_lora_size_legacy in
    let cut = take awaken_len bytes in
    elim node_id [
      | none ↦ cut
      | some id ↦
          let patched = take (awaken_len - 1) (set cut 2 id) in patched ++ (crc8 patched ∷ [])
    ]

-- The reply to an AWAKEN waits for the base's slot; the node starts again in the tables.
unfoldable pub welcome : NetworkProfile → Arrival → PktHeader → ℕ → BaseApp → BaseApp
welcome profile a hdr i b =
    let old = get_or b.syncs.assignments i no_assignment in
    let waiting : NodeAssignment = record old {
      pending_direct_sync = true;
      pending_radio_addr = a.from_addr;
      pending_trigger_seq = hdr.seq;
    } in
    let syncs = b.syncs in
    record (forget_node old.node_id b) {
      syncs = record syncs { assignments = set syncs.assignments i waiting };
      tx_power = on_awaken profile old.node_id a.handled_at b.tx_power;
    }

unfoldable pub handle_awaken : NetworkProfile → Arrival → BaseApp → BaseApp × List Effect
unfolding welcome patched_awaken forward
handle_awaken profile a b = elim (decode_awaken a.bytes) [
  | none ↦ (b, [])
  | some (hdr, awaken) ↦
      let (place, assignments) =
        find_or_create_node_assignment awaken.uid_hash b.syncs.assignments in
      let syncs = b.syncs in
      let known : BaseApp = record b { syncs = record syncs { assignments = assignments } } in
      elim place [
        | none ↦ forward a.rssi (patched_awaken none a.bytes) known
        | some i ↦
            forward a.rssi
              (patched_awaken (some (get_or assignments i no_assignment).node_id) a.bytes)
              (welcome profile a hdr i known)
      ]
]

unfoldable pub handle_status : NetworkProfile → Arrival → BaseApp → BaseApp
handle_status profile a b = elim (decode_status a.bytes) [
  | none ↦ b
  | some (hdr, status) ↦
      let pinned = has_flag status.flags status_tx_power_static in
      let (d, tx_power) =
        on_status profile hdr.node_id status.retx_total status.fail_total status.tx_power_dbm pinned
          a.handled_at b.tx_power in
      let heard : BaseApp = record b { tx_power = tx_power } in
      if dynamic_tx_power_default_enabled profile
      then send_tx_power_decision a.handled_at d heard
      else heard
]

unfoldable pub handle_cmd_ack : Arrival → BaseApp → BaseApp
handle_cmd_ack a b = elim (decode_cmd_ack a.bytes) [
  | none ↦ b
  | some (hdr, ack) ↦
      if ack.cmd_type == pkt_cmd_set_tx_power
      then (record b { tx_power = on_cmd_ack hdr.node_id a.handled_at b.tx_power })
      else b
]

unfoldable pub track_telemetry : Arrival → PktHeader → BaseApp → BaseApp
track_telemetry a hdr b = record b {
  acks = (handle_telemetry_ack_summary a.tracked_at hdr.node_id hdr.seq hdr.flags b.acks).1;
}

unfoldable pub track_marker : Arrival → BaseApp → BaseApp
track_marker a b = elim (decode_window_marker a.bytes) [
  | none ↦ b
  | some (hdr, marker) ↦ record b {
    acks = (handle_window_marker a.tracked_at hdr.node_id hdr.pkt_type b.acks).1;
  }
]

-- A frame with a header, of any type but AWAKEN.
unfoldable pub handle_frame : NetworkProfile → Arrival → PktHeader → BaseApp → BaseApp
unfolding handle_status handle_cmd_ack track_telemetry track_marker
handle_frame profile a hdr b =
    let handled =
      if hdr.pkt_type == pkt_status
      then handle_status profile a b
      else if hdr.pkt_type == pkt_cmd_ack
      then handle_cmd_ack a b
      else b in
    if is_telemetry_packet_type hdr.pkt_type
    then track_telemetry a hdr handled
    else if is_window_marker_packet_type hdr.pkt_type
    then track_marker a handled
    else handled

-- The counts and the margin sample, which come first.
unfoldable pub note_received : NetworkProfile → Arrival → Bool → PktHeader → BaseApp → BaseApp
unfolding count_received
note_received profile a valid hdr b = record b {
  last_rx_ms = a.received_at;
  rx = count_received valid hdr.pkt_type b.rx;
  tx_power =
      if valid && not (hdr.node_id == 0) && not (hdr.pkt_type == pkt_awaken)
      then on_packet_received profile hdr.node_id a.snr a.sampled_at b.tx_power
      else b.tx_power;
}

unfoldable pub process_packet : NetworkProfile → Arrival → BaseApp → BaseApp × List Effect
unfolding note_received handle_awaken handle_frame forward
process_packet profile a b =
    let hdr = Layout.header_of a.bytes in
    let valid = leb header_size (length a.bytes) && hdr.magic == pkt_magic in
    let noted = note_received profile a valid hdr b in
    if valid && hdr.pkt_type == pkt_awaken
    then handle_awaken profile a noted
    else if valid
    then forward a.rssi a.bytes (handle_frame profile a hdr noted)
    else forward a.rssi a.bytes noted

-- The loop over what `receive` answers while `available` holds; it ends where `receive` fails.
unfoldable pub process_incoming_lora :
    NetworkProfile → List (Option Arrival) → BaseApp → BaseApp × List Effect
unfolding process_packet
process_incoming_lora profile [] b = (b, [])
process_incoming_lora profile (none ∷ rest) b =
    let rx = b.rx in (record b { rx = record rx { failures = u32 (rx.failures + 1) } }, [])
process_incoming_lora profile (some a ∷ rest) b =
    let (b', effects) = process_packet profile a b in
    let (b'', later) = process_incoming_lora profile rest b' in (b'', effects ++ later)
