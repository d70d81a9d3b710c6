-- ===== src/Wire/RoundTrip.antt =====
-- Encoders against decoders of BinaryPacket.h: the frames of one fixed payload.
use smart_fires_io_t.Base.{
  ℕ, ◌+◌, ◌≤◌, ◌≡◌, List, [], ◌∷◌, ◌++◌, Option, some, length, length-append, drop, arith, refl,
}
use smart_fires_io_t.Wire.Constants.{
  pkt_magic, header_size, pkt_time_sync, pkt_ack_summary, pkt_cmd_calibrate, pkt_cmd_reset,
  pkt_cmd_set_tx_power, pkt_cmd_ack, pkt_status, time_sync_lora_size, ack_summary_lora_size,
  cmd_calibrate_lora_size, cmd_reset_lora_size, cmd_set_tx_power_lora_size, cmd_ack_lora_size,
  status_lora_size,
}
use smart_fires_io_t.Wire.Crc.{crc8, seal}
use smart_fires_io_t.Wire.Crc.Laws.{crc_ok-seal}
use smart_fires_io_t.Wire.Packet.{
  PktHeader, TimeSyncPayload, AckSummaryPayload, CmdCalibratePayload, CmdResetPayload,
  CmdSetTxPowerPayload, CmdAckPayload, StatusPayload,
}
use smart_fires_io_t.Wire.Layout
use smart_fires_io_t.Wire.Fits
use smart_fires_io_t.Wire.ReadBack.{
  header_of-bytes, time_sync_of-bytes, ack_summary_of-bytes, cmd_calibrate_of-bytes,
  cmd_reset_of-bytes, cmd_set_tx_power_of-bytes, cmd_ack_of-bytes, status_of-bytes,
}
use smart_fires_io_t.Wire.Encode.{
  header, encode_fixed, encode_time_sync, encode_ack_summary, encode_cmd_calibrate,
  encode_cmd_reset, encode_cmd_set_tx_power, encode_cmd_ack, encode_status,
}
use smart_fires_io_t.Wire.Decode.{
  decode_fixed, decode_time_sync, decode_ack_summary, decode_cmd_calibrate, decode_cmd_reset,
  decode_cmd_set_tx_power, decode_cmd_ack, decode_status,
}

-- The sealed frame is the header in front of the sealed payload.
pub seal-header :
    (hdr : PktHeader) (payload : List ℕ)
    → seal (Layout.header_bytes hdr payload)
      ≡ Layout.header_bytes hdr (payload ++ (crc8 (Layout.header_bytes hdr payload) ∷ []))
unfolding seal Layout.header_bytes
seal-header hdr payload = refl

pub length-seal : (bytes : List ℕ) → length (seal bytes) ≡ length bytes + 1
unfolding seal
length-seal bytes = omega (arith, length-append bytes (crc8 bytes ∷ []))

pub length-header_bytes :
    (hdr : PktHeader) (payload : List ℕ)
    → length (Layout.header_bytes hdr payload) ≡ length payload + 5
unfolding Layout.header_bytes
length-header_bytes hdr payload = omega arith

pub drop-header_bytes :
    (hdr : PktHeader) (rest : List ℕ) → drop header_size (Layout.header_bytes hdr rest) ≡ rest
unfolding Layout.header_bytes
drop-header_bytes hdr rest = refl

-- The bytes of a frame, what its encoder does with a buffer of `buf_size` bytes and what its decoder
-- makes of them.
abbrev pub Carries {ℓ} :
    {P : Type ℓ} → ℕ → PktHeader → P → Option (List ℕ) → (List ℕ → Option (PktHeader × P)) → Type ℓ
Carries size hdr p encoded decode =
    (raw : List ℕ) × (encoded ≡ some raw) × (length raw ≡ size) × (decode raw ≡ some (hdr, p))

Carries-fixed {ℓ} :
    {P : Type ℓ} (size pkt_type buf_size : ℕ) (hdr : PktHeader) (payload : List ℕ)
    (payload_of : List ℕ → P) (p : P)
    → size ≤ buf_size
    → size ≡ length payload + 6
    → (hdr.magic ≡ pkt_magic) × (hdr.pkt_type ≡ pkt_type)
    → Fits.HeaderFits hdr
    → ((c : ℕ) → payload_of (payload ++ (c ∷ [])) ≡ p)
    → Carries size hdr p
        (encode_fixed size buf_size hdr payload)
        (decode_fixed size pkt_type payload_of)
unfolding encode_fixed decode_fixed
Carries-fixed size pkt_type buf_size hdr payload payload_of p room len (m, t) v back =
    let frame = seal (Layout.header_bytes hdr payload) in
    let n : length frame ≡ size =
      omega
        (arith, length-seal (Layout.header_bytes hdr payload), length-header_bytes hdr payload) in
    let h : Layout.header_of frame ≡ hdr = rw (seal-header hdr payload) (header_of-bytes hdr _ v) in
    let q : payload_of (drop header_size frame) ≡ p =
      rw (seal-header hdr payload, drop-header_bytes hdr) (back _) in
    (frame, ground arith, n, ground (arith, crc_ok-seal (Layout.header_bytes hdr payload)))

-- A TIME_SYNC packet whose fields fit is encoded in any buffer of at least 14 bytes, in 14 bytes, and
-- decodes to itself and its header.
pub time_sync_roundtrip :
    (node_id seq buf_size flags : ℕ) (p : TimeSyncPayload)
    → 14 ≤ buf_size
    → Fits.HeaderFits (header pkt_time_sync node_id seq flags)
    → Fits.TimeSyncFits p
    → Carries 14
        (header pkt_time_sync node_id seq flags)
        p
        (encode_time_sync node_id seq p buf_size flags)
        decode_time_sync
unfolding encode_time_sync decode_time_sync Layout.time_sync_bytes
time_sync_roundtrip node_id seq buf_size flags p room hv v =
    Carries-fixed time_sync_lora_size pkt_time_sync buf_size
      (header pkt_time_sync node_id seq flags) (Layout.time_sync_bytes p []) Layout.time_sync_of p
      room refl (refl, refl) hv (λ c. time_sync_of-bytes p (c ∷ []) v)

-- An ACK_SUMMARY packet whose fields fit is encoded in any buffer of at least 10 bytes, in 10 bytes, and
-- decodes to itself and its header.
pub ack_summary_roundtrip :
    (seq buf_size flags : ℕ) (p : AckSummaryPayload)
    → 10 ≤ buf_size
    → Fits.HeaderFits (header pkt_ack_summary 0 seq flags)
    → Fits.AckSummaryFits p
    → Carries 10
        (header pkt_ack_summary 0 seq flags)
        p
        (encode_ack_summary seq p buf_size flags)
        decode_ack_summary
unfolding encode_ack_summary decode_ack_summary Layout.ack_summary_bytes
ack_summary_roundtrip seq buf_size flags p room hv v =
    Carries-fixed ack_summary_lora_size pkt_ack_summary buf_size
      (header pkt_ack_summary 0 seq flags) (Layout.ack_summary_bytes p []) Layout.ack_summary_of p
      room refl (refl, refl) hv (λ c. ack_summary_of-bytes p (c ∷ []) v)

-- A CMD_CALIBRATE packet whose fields fit is encoded in any buffer of at least 8 bytes, in 8 bytes, and
-- decodes to itself and its header.
pub cmd_calibrate_roundtrip :
    (seq buf_size flags : ℕ) (p : CmdCalibratePayload)
    → 8 ≤ buf_size
    → Fits.HeaderFits (header pkt_cmd_calibrate 0 seq flags)
    → Fits.CmdCalibrateFits p
    → Carries 8
        (header pkt_cmd_calibrate 0 seq flags)
        p
        (encode_cmd_calibrate seq p buf_size flags)
        decode_cmd_calibrate
unfolding encode_cmd_calibrate decode_cmd_calibrate Layout.cmd_calibrate_bytes
cmd_calibrate_roundtrip seq buf_size flags p room hv v =
    Carries-fixed cmd_calibrate_lora_size pkt_cmd_calibrate buf_size
      (header pkt_cmd_calibrate 0 seq flags) (Layout.cmd_calibrate_bytes p [])
      Layout.cmd_calibrate_of p room refl (refl, refl) hv (λ c. cmd_calibrate_of-bytes p (c ∷ []) v)

-- A CMD_RESET packet whose fields fit is encoded in any buffer of at least 8 bytes, in 8 bytes, and
-- decodes to itself and its header.
pub cmd_reset_roundtrip :
    (seq buf_size flags : ℕ) (p : CmdResetPayload)
    → 8 ≤ buf_size
    → Fits.HeaderFits (header pkt_cmd_reset 0 seq flags)
    → Fits.CmdResetFits p
    → Carries 8
        (header pkt_cmd_reset 0 seq flags)
        p
        (encode_cmd_reset seq p buf_size flags)
        decode_cmd_reset
unfolding encode_cmd_reset decode_cmd_reset Layout.cmd_reset_bytes
cmd_reset_roundtrip seq buf_size flags p room hv v =
    Carries-fixed cmd_reset_lora_size pkt_cmd_reset buf_size (header pkt_cmd_reset 0 seq flags)
      (Layout.cmd_reset_bytes p []) Layout.cmd_reset_of p room refl (refl, refl) hv
      (λ c. cmd_reset_of-bytes p (c ∷ []) v)

-- A CMD_SET_TX_POWER packet whose fields fit is encoded in any buffer of at least 9 bytes, in 9 bytes, and
-- decodes to itself and its header.
pub cmd_set_tx_power_roundtrip :
    (seq buf_size flags : ℕ) (p : CmdSetTxPowerPayload)
    → 9 ≤ buf_size
    → Fits.HeaderFits (header pkt_cmd_set_tx_power 0 seq flags)
    → Fits.CmdSetTxPowerFits p
    → Carries 9
        (header pkt_cmd_set_tx_power 0 seq flags)
        p
        (encode_cmd_set_tx_power seq p buf_size flags)
        decode_cmd_set_tx_power
unfolding encode_cmd_set_tx_power decode_cmd_set_tx_power Layout.cmd_set_tx_power_bytes
cmd_set_tx_power_roundtrip seq buf_size flags p room hv v =
    Carries-fixed cmd_set_tx_power_lora_size pkt_cmd_set_tx_power buf_size
      (header pkt_cmd_set_tx_power 0 seq flags) (Layout.cmd_set_tx_power_bytes p [])
      Layout.cmd_set_tx_power_of p room refl (refl, refl) hv
      (λ c. cmd_set_tx_power_of-bytes p (c ∷ []) v)

-- A CMD_ACK packet whose fields fit is encoded in any buffer of at least 12 bytes, in 12 bytes, and
-- decodes to itself and its header.
pub cmd_ack_roundtrip :
    (node_id seq buf_size flags : ℕ) (p : CmdAckPayload)
    → 12 ≤ buf_size
    → Fits.HeaderFits (header pkt_cmd_ack node_id seq flags)
    → Fits.CmdAckFits p
    → Carries 12
        (header pkt_cmd_ack node_id seq flags)
        p
        (encode_cmd_ack node_id seq p buf_size flags)
        decode_cmd_ack
unfolding encode_cmd_ack decode_cmd_ack Layout.cmd_ack_bytes
cmd_ack_roundtrip node_id seq buf_size flags p room hv v =
    Carries-fixed cmd_ack_lora_size pkt_cmd_ack buf_size (header pkt_cmd_ack node_id seq flags)
      (Layout.cmd_ack_bytes p []) Layout.cmd_ack_of p room refl (refl, refl) hv
      (λ c. cmd_ack_of-bytes p (c ∷ []) v)

-- A STATUS packet whose fields fit is encoded in any buffer of at least 27 bytes, in 27 bytes, and
-- decodes to itself and its header.
pub status_roundtrip :
    (node_id seq buf_size flags : ℕ) (p : StatusPayload)
    → 27 ≤ buf_size
    → Fits.HeaderFits (header pkt_status node_id seq flags)
    → Fits.StatusFits p
    → Carries 27
        (header pkt_status node_id seq flags)
        p
        (encode_status node_id seq p buf_size flags)
        decode_status
unfolding encode_status decode_status Layout.status_bytes
status_roundtrip node_id seq buf_size flags p room hv v =
    Carries-fixed status_lora_size pkt_status buf_size (header pkt_status node_id seq flags)
      (Layout.status_bytes p []) Layout.status_of p room refl (refl, refl) hv
      (λ c. status_of-bytes p (c ∷ []) v)
