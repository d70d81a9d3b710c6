-- ===== src/Wire/Decode.antt =====
-- The decoders of BinaryPacket.h. A buffer with its length is the list of its bytes; `none` is the
-- return value false, and `some` what the out-parameters hold when true is returned.
use smart_fires_io_t.Base.{
  ℕ, zero, suc, ◌+◌, ◌*◌, List, [], ◌∷◌, not, ◌&&◌, ◌||◌, Option, none, some, ltb, leb, ◌==◌,
  if◌then◌else◌, length, take, drop, get_or,
}
use smart_fires_io_t.Wire.Constants.{
  pkt_magic, pkt_bundle, pkt_window_begin, pkt_window_end, header_size, full_state_size, delta_size,
  bundle_max_deltas, window_marker_lora_size, pkt_time_sync, pkt_ack_summary, pkt_cmd_calibrate,
  pkt_cmd_reset, pkt_cmd_set_tx_power, pkt_cmd_ack, pkt_awaken, pkt_status, time_sync_lora_size,
  ack_summary_lora_size, cmd_calibrate_lora_size, cmd_reset_lora_size, cmd_set_tx_power_lora_size,
  cmd_ack_lora_size, awaken_lora_size, status_lora_size, legacy_header_size,
  awaken_payload_legacy_len, awaken_lora_size_legacy,
}
use smart_fires_io_t.Wire.Crc.{crc_ok}
use smart_fires_io_t.Wire.Layout
use smart_fires_io_t.Wire.Packet.{
  PktHeader, WindowMarkerPayload, FullStatePayload, DeltaPayload, TimeSyncPayload,
  AckSummaryPayload, CmdCalibratePayload, CmdResetPayload, CmdSetTxPowerPayload, CmdAckPayload,
  AwakenPayload, StatusPayload,
}

-- The body that the decoders of one fixed payload share.
unfoldable pub decode_fixed {ℓ} :
    {P : Type ℓ} → ℕ → ℕ → (List ℕ → P) → List ℕ → Option (PktHeader × P)
decode_fixed size pkt_type payload_of raw =
    let hdr = Layout.header_of raw in
    if ltb (length raw) size
    then none
    else if not (crc_ok raw)
    then none
    else if hdr.magic == pkt_magic && hdr.pkt_type == pkt_type
    then some (hdr, payload_of (drop header_size raw))
    else none

unfoldable pub decode_time_sync : List ℕ → Option (PktHeader × TimeSyncPayload)
unfolding decode_fixed
decode_time_sync raw = decode_fixed time_sync_lora_size pkt_time_sync Layout.time_sync_of raw

unfoldable pub decode_ack_summary : List ℕ → Option (PktHeader × AckSummaryPayload)
unfolding decode_fixed
decode_ack_summary raw =
    decode_fixed ack_summary_lora_size pkt_ack_summary Layout.ack_summary_of raw

unfoldable pub decode_cmd_calibrate : List ℕ → Option (PktHeader × CmdCalibratePayload)
unfolding decode_fixed
decode_cmd_calibrate raw =
    decode_fixed cmd_calibrate_lora_size pkt_cmd_calibrate Layout.cmd_calibrate_of raw

unfoldable pub decode_cmd_reset : List ℕ → Option (PktHeader × CmdResetPayload)
unfolding decode_fixed
decode_cmd_reset raw = decode_fixed cmd_reset_lora_size pkt_cmd_reset Layout.cmd_reset_of raw

unfoldable pub decode_cmd_set_tx_power : List ℕ → Option (PktHeader × CmdSetTxPowerPayload)
unfolding decode_fixed
decode_cmd_set_tx_power raw =
    decode_fixed cmd_set_tx_power_lora_size pkt_cmd_set_tx_power Layout.cmd_set_tx_power_of raw

unfoldable pub decode_cmd_ack : List ℕ → Option (PktHeader × CmdAckPayload)
unfolding decode_fixed
decode_cmd_ack raw = decode_fixed cmd_ack_lora_size pkt_cmd_ack Layout.cmd_ack_of raw

unfoldable pub decode_status : List ℕ → Option (PktHeader × StatusPayload)
unfolding decode_fixed
decode_status raw = decode_fixed status_lora_size pkt_status Layout.status_of raw

-- The checksum stands at the fixed end of the marker, also in a longer buffer.
unfoldable pub decode_window_marker : List ℕ → Option (PktHeader × WindowMarkerPayload)
decode_window_marker raw =
    let hdr = Layout.header_of raw in
    if ltb (length raw) window_marker_lora_size
    then none
    else if not (crc_ok (take window_marker_lora_size raw))
    then none
    else if hdr.magic == pkt_magic
        && (hdr.pkt_type == pkt_window_begin || hdr.pkt_type == pkt_window_end)
    then some (hdr, Layout.window_marker_of (drop header_size raw))
    else none

-- What a frame of the given header and payload lengths holds. The structs are zero before `memcpy`,
-- and a read past the end of a list is 0.
unfoldable pub decode_awaken_as : ℕ → ℕ → List ℕ → Option (PktHeader × AwakenPayload)
decode_awaken_as header_len payload_len raw =
    let hdr = Layout.header_of (take header_len raw) in
    if not (crc_ok (take (header_len + payload_len + 1) raw))
    then none
    else if hdr.magic == pkt_magic && hdr.pkt_type == pkt_awaken
    then some (hdr, Layout.awaken_of (take payload_len (drop header_len raw)))
    else none

-- The current and the legacy layout are told apart by the length.
unfoldable pub decode_awaken : List ℕ → Option (PktHeader × AwakenPayload)
unfolding decode_awaken_as
decode_awaken raw =
    if leb awaken_lora_size (length raw)
    then decode_awaken_as 5 6 raw
    else if leb awaken_lora_size_legacy (length raw)
    then decode_awaken_as legacy_header_size awaken_payload_legacy_len raw
    else none

-- The loop over the deltas, from the front of a buffer.
unfoldable pub deltas_of : ℕ → List ℕ → List DeltaPayload
deltas_of zero raw = []
deltas_of (suc n) raw = Layout.delta_of raw ∷ deltas_of n (drop delta_size raw)

-- The deltas are as many as `delta_count_out` says.
unfoldable pub decode_bundle : List ℕ → Option (PktHeader × FullStatePayload × List DeltaPayload)
unfolding deltas_of
decode_bundle raw =
    let hdr = Layout.header_of raw in
    let count = get_or raw (header_size + full_state_size) 0 in
    let off = header_size + full_state_size + 1 in
    if ltb (length raw) (header_size + full_state_size + 1 + 1)
    then none
    else if not (crc_ok raw)
    then none
    else if not (hdr.magic == pkt_magic) || not (hdr.pkt_type == pkt_bundle)
    then none
    else if ltb bundle_max_deltas count
    then none
    else if ltb (length raw) (off + count * delta_size + 1)
    then none
    else some (hdr, Layout.full_state_of (drop header_size raw), deltas_of count (drop off raw))
