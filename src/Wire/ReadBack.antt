-- ===== src/Wire/ReadBack.antt =====
-- The layout of each struct of BinaryPacket.h, written and read back.
use smart_fires_io_t.Base.{ℕ, ◌≡◌, List, arith}
use smart_fires_io_t.Wire.Packet.{
  PktHeader, AwakenPayload, NetworkProfilePayload, WindowMarkerPayload, FullStatePayload,
  StatusPayload, CmdCalibratePayload, CmdResetPayload, CmdSetTxPowerPayload, CmdAckPayload,
  TimeSyncPayload, AckSummaryPayload, DeltaPayload,
}
use smart_fires_io_t.Wire.Layout
use smart_fires_io_t.Wire.Fits

pub header_of-bytes :
    (p : PktHeader) (rest : List ℕ)
    → Fits.HeaderFits p
    → Layout.header_of (Layout.header_bytes p rest) ≡ p
unfolding Layout.header_of Layout.header_bytes
header_of-bytes p rest v = ground arith

pub awaken_of-bytes :
    (p : AwakenPayload) (rest : List ℕ)
    → Fits.AwakenFits p
    → Layout.awaken_of (Layout.awaken_bytes p rest) ≡ p
unfolding Layout.awaken_of Layout.awaken_bytes
awaken_of-bytes p rest v = ground arith

pub network_profile_of-bytes :
    (p : NetworkProfilePayload) (rest : List ℕ)
    → Fits.NetworkProfileFits p
    → Layout.network_profile_of (Layout.network_profile_bytes p rest) ≡ p
unfolding Layout.network_profile_of Layout.network_profile_bytes
network_profile_of-bytes p rest v = ground arith

pub window_marker_of-bytes :
    (p : WindowMarkerPayload) (rest : List ℕ)
    → Fits.WindowMarkerFits p
    → Layout.window_marker_of (Layout.window_marker_bytes p rest) ≡ p
unfolding Layout.window_marker_of Layout.window_marker_bytes
window_marker_of-bytes p rest v = ground arith

pub full_state_of-bytes :
    (p : FullStatePayload) (rest : List ℕ)
    → Fits.FullStateFits p
    → Layout.full_state_of (Layout.full_state_bytes p rest) ≡ p
unfolding Layout.full_state_of Layout.full_state_bytes
full_state_of-bytes p rest v = ground arith

pub status_of-bytes :
    (p : StatusPayload) (rest : List ℕ)
    → Fits.StatusFits p
    → Layout.status_of (Layout.status_bytes p rest) ≡ p
unfolding Layout.status_of Layout.status_bytes
status_of-bytes p rest v = ground arith

pub cmd_calibrate_of-bytes :
    (p : CmdCalibratePayload) (rest : List ℕ)
    → Fits.CmdCalibrateFits p
    → Layout.cmd_calibrate_of (Layout.cmd_calibrate_bytes p rest) ≡ p
unfolding Layout.cmd_calibrate_of Layout.cmd_calibrate_bytes
cmd_calibrate_of-bytes p rest v = ground arith

pub cmd_reset_of-bytes :
    (p : CmdResetPayload) (rest : List ℕ)
    → Fits.CmdResetFits p
    → Layout.cmd_reset_of (Layout.cmd_reset_bytes p rest) ≡ p
unfolding Layout.cmd_reset_of Layout.cmd_reset_bytes
cmd_reset_of-bytes p rest v = ground arith

pub cmd_set_tx_power_of-bytes :
    (p : CmdSetTxPowerPayload) (rest : List ℕ)
    → Fits.CmdSetTxPowerFits p
    → Layout.cmd_set_tx_power_of (Layout.cmd_set_tx_power_bytes p rest) ≡ p
unfolding Layout.cmd_set_tx_power_of Layout.cmd_set_tx_power_bytes
cmd_set_tx_power_of-bytes p rest v = ground arith

pub cmd_ack_of-bytes :
    (p : CmdAckPayload) (rest : List ℕ)
    → Fits.CmdAckFits p
    → Layout.cmd_ack_of (Layout.cmd_ack_bytes p rest) ≡ p
unfolding Layout.cmd_ack_of Layout.cmd_ack_bytes
cmd_ack_of-bytes p rest v = ground arith

pub time_sync_of-bytes :
    (p : TimeSyncPayload) (rest : List ℕ)
    → Fits.TimeSyncFits p
    → Layout.time_sync_of (Layout.time_sync_bytes p rest) ≡ p
unfolding Layout.time_sync_of Layout.time_sync_bytes
time_sync_of-bytes p rest v = ground arith

pub ack_summary_of-bytes :
    (p : AckSummaryPayload) (rest : List ℕ)
    → Fits.AckSummaryFits p
    → Layout.ack_summary_of (Layout.ack_summary_bytes p rest) ≡ p
unfolding Layout.ack_summary_of Layout.ack_summary_bytes
ack_summary_of-bytes p rest v = ground arith

pub delta_of-bytes :
    (p : DeltaPayload) (rest : List ℕ)
    → Fits.DeltaFits p
    → Layout.delta_of (Layout.delta_bytes p rest) ≡ p
unfolding Layout.delta_of Layout.delta_bytes
delta_of-bytes p rest v = ground arith
