-- ===== src/Wire/Encode.antt =====
-- The encoders of BinaryPacket.h. `buf_size` is the space that the caller offers; `none` is the
-- return value 0, with nothing written, and `some` the bytes written, whose number is returned.
use smart_fires_io_t.Base.{
  ℕ, ◌+◌, ◌*◌, ◌-◌, List, [], ◌∷◌, ◌++◌, not, ◌&&◌, ◌||◌, Option, none, some, ltb, ◌==◌,
  if◌then◌else◌, length, take,
}
use mathlib.Core.Option
use smart_fires_io_t.Base.Int.{ℤ, to_bits}
use smart_fires_io_t.Wire.Constants.{
  pkt_magic, frame_m0, frame_m1, pkt_bundle, pkt_window_begin, pkt_window_end, pkt_network_profile,
  header_size, full_state_size, delta_size, bundle_max_deltas, window_marker_lora_size,
  network_profile_uart_payload_size, pkt_time_sync, pkt_ack_summary, pkt_cmd_calibrate,
  pkt_cmd_reset, pkt_cmd_set_tx_power, pkt_cmd_ack, pkt_awaken, pkt_status, time_sync_lora_size,
  ack_summary_lora_size, cmd_calibrate_lora_size, cmd_reset_lora_size, cmd_set_tx_power_lora_size,
  cmd_ack_lora_size, awaken_lora_size, status_lora_size,
}
use smart_fires_io_t.Wire.Crc.{crc8, seal}
use smart_fires_io_t.Wire.Layout
use smart_fires_io_t.Wire.Packet.{
  PktHeader, WindowMarkerPayload, FullStatePayload, DeltaPayload, NetworkProfilePayload,
  TimeSyncPayload, AckSummaryPayload, CmdCalibratePayload, CmdResetPayload, CmdSetTxPowerPayload,
  CmdAckPayload, AwakenPayload, StatusPayload,
}

abbrev pub header : ℕ → ℕ → ℕ → ℕ → PktHeader
header pkt_type node_id seq flags = record {
  magic = pkt_magic;
  pkt_type = pkt_type;
  node_id = node_id;
  seq = seq;
  flags = flags;
}

-- The body that the encoders of one fixed payload share: the size test, the header, the payload and
-- the checksum.
unfoldable pub encode_fixed : ℕ → ℕ → PktHeader → List ℕ → Option (List ℕ)
encode_fixed size buf_size hdr payload =
    if ltb buf_size size then none else some (seal (Layout.header_bytes hdr payload))

unfoldable pub encode_time_sync : ℕ → ℕ → TimeSyncPayload → ℕ → ℕ → Option (List ℕ)
unfolding encode_fixed
encode_time_sync node_id seq p buf_size flags =
    encode_fixed time_sync_lora_size buf_size (header pkt_time_sync node_id seq flags)
      (Layout.time_sync_bytes p [])

unfoldable pub encode_ack_summary : ℕ → AckSummaryPayload → ℕ → ℕ → Option (List ℕ)
unfolding encode_fixed
encode_ack_summary seq p buf_size flags =
    encode_fixed ack_summary_lora_size buf_size (header pkt_ack_summary 0 seq flags)
      (Layout.ack_summary_bytes p [])

unfoldable pub encode_cmd_calibrate : ℕ → CmdCalibratePayload → ℕ → ℕ → Option (List ℕ)
unfolding encode_fixed
encode_cmd_calibrate seq p buf_size flags =
    encode_fixed cmd_calibrate_lora_size buf_size (header pkt_cmd_calibrate 0 seq flags)
      (Layout.cmd_calibrate_bytes p [])

unfoldable pub encode_cmd_reset : ℕ → CmdResetPayload → ℕ → ℕ → Option (List ℕ)
unfolding encode_fixed
encode_cmd_reset seq p buf_size flags =
    encode_fixed cmd_reset_lora_size buf_size (header pkt_cmd_reset 0 seq flags)
      (Layout.cmd_reset_bytes p [])

unfoldable pub encode_cmd_set_tx_power : ℕ → CmdSetTxPowerPayload → ℕ → ℕ → Option (List ℕ)
unfolding encode_fixed
encode_cmd_set_tx_power seq p buf_size flags =
    encode_fixed cmd_set_tx_power_lora_size buf_size (header pkt_cmd_set_tx_power 0 seq flags)
      (Layout.cmd_set_tx_power_bytes p [])

unfoldable pub encode_cmd_ack : ℕ → ℕ → CmdAckPayload → ℕ → ℕ → Option (List ℕ)
unfolding encode_fixed
encode_cmd_ack node_id seq p buf_size flags =
    encode_fixed cmd_ack_lora_size buf_size (header pkt_cmd_ack node_id seq flags)
      (Layout.cmd_ack_bytes p [])

unfoldable pub encode_awaken : ℕ → ℕ → AwakenPayload → ℕ → ℕ → Option (List ℕ)
unfolding encode_fixed
encode_awaken node_id seq p buf_size flags =
    encode_fixed awaken_lora_size buf_size (header pkt_awaken node_id seq flags)
      (Layout.awaken_bytes p [])

unfoldable pub encode_status : ℕ → ℕ → StatusPayload → ℕ → ℕ → Option (List ℕ)
unfolding encode_fixed
encode_status node_id seq p buf_size flags =
    encode_fixed status_lora_size buf_size (header pkt_status node_id seq flags)
      (Layout.status_bytes p [])

-- The sequence number of a window marker is fixed at 0.
unfoldable pub encode_window_marker : ℕ → ℕ → WindowMarkerPayload → ℕ → ℕ → Option (List ℕ)
unfolding encode_fixed
encode_window_marker pkt_type node_id p buf_size flags =
    if ltb buf_size window_marker_lora_size
    then none
    else if not (pkt_type == pkt_window_begin) && not (pkt_type == pkt_window_end)
    then none
    else encode_fixed window_marker_lora_size buf_size (header pkt_type node_id 0 flags)
        (Layout.window_marker_bytes p [])

-- No checksum of its own: the UART frame around it has one.
unfoldable pub encode_network_profile : ℕ → ℕ → NetworkProfilePayload → ℕ → Option (List ℕ)
encode_network_profile node_id seq p buf_size =
    if ltb buf_size network_profile_uart_payload_size
    then none
    else some (
        Layout.header_bytes (header pkt_network_profile node_id seq 0)
          (Layout.network_profile_bytes p []))

-- The loop over `i`.
unfoldable pub deltas_bytes : List DeltaPayload → List ℕ
deltas_bytes [] = []
deltas_bytes (d ∷ ds) = Layout.delta_bytes d (deltas_bytes ds)

-- `deltas` points to at least `n_deltas` entries.
unfoldable pub encode_bundle :
    ℕ → ℕ → FullStatePayload → List DeltaPayload → ℕ → ℕ → ℕ → Option (List ℕ)
unfolding deltas_bytes
encode_bundle node_id seq ref deltas n_deltas buf_size flags =
    let len = header_size + full_state_size + 1 + n_deltas * delta_size + 1 in
    if ltb bundle_max_deltas n_deltas
    then none
    else if ltb buf_size len
    then none
    else some (
        seal (
          Layout.header_bytes (header pkt_bundle node_id seq flags)
            (Layout.full_state_bytes ref (n_deltas ∷ deltas_bytes (take n_deltas deltas)))))

-- The UART frame that the Jetson sends to the base.
unfoldable pub encode_time_sync_frame : ℕ → ℕ → TimeSyncPayload → ℕ → ℕ → Option (List ℕ)
unfolding encode_time_sync
encode_time_sync_frame node_id seq p buf_size flags =
    if ltb buf_size (2 + 1 + time_sync_lora_size + 1)
    then none
    else Option.bind (encode_time_sync node_id seq p (buf_size - 3) flags) (λ payload.
      if not (length payload == time_sync_lora_size)
      then none
      else some (
          frame_m0 ∷ frame_m1 ∷ (time_sync_lora_size ∷ payload)
          ++ (crc8 (time_sync_lora_size ∷ payload) ∷ [])))

-- The UART frame that the base sends to the Jetson: `rssi`, then the LoRa payload as it came.
unfoldable pub encode_base_frame : ℤ → List ℕ → ℕ → Option (List ℕ)
encode_base_frame rssi payload buf_size =
    let data_len = 1 + length payload in
    let covered = data_len ∷ to_bits 128 rssi ∷ payload in
    if ltb 255 data_len || ltb buf_size (2 + 1 + data_len + 1)
    then none
    else some (frame_m0 ∷ frame_m1 ∷ covered ++ (crc8 covered ∷ []))
