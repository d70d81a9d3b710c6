-- ===== src/BaseApp/Jetson.antt =====
-- `handleJetsonCommandPayload` of SmartFiresBaseApp.cpp: the commands that come over the serial line, and
-- the decisions on transmit power that join the same queue. A reading of `millis` is an argument.
use Prim.Native.Nat.{bit_and}
use smart_fires_io_t.Base.{
  ℕ, ◌+◌, ◌==◌, Bool, true, false, not, ◌&&◌, ◌||◌, ltb, if◌then◌else◌, List, [], ◌∷◌, Option, none,
  some, length, drop, replicate,
}
use smart_fires_io_t.Config.Profile.{NetworkProfile}
use smart_fires_io_t.Wire.Constants.{
  pkt_magic, header_size, pkt_time_sync, pkt_cmd_calibrate, pkt_cmd_reset, pkt_cmd_set_tx_power,
  cmd_calibrate_lora_size, cmd_reset_lora_size, cmd_set_tx_power_lora_size, tx_power_mode_static,
  tx_power_mode_dynamic,
}
use smart_fires_io_t.Wire.Layout
use smart_fires_io_t.Wire.Packet.{
  PktHeader, CmdCalibratePayload, CmdResetPayload, CmdSetTxPowerPayload,
}
use smart_fires_io_t.Wire.Encode.{encode_cmd_calibrate, encode_cmd_reset, encode_cmd_set_tx_power}
use smart_fires_io_t.Wire.Decode.{
  decode_time_sync, decode_cmd_calibrate, decode_cmd_reset, decode_cmd_set_tx_power,
}
use smart_fires_io_t.TxPower.Node.{no_action, set_power, Decision}
use smart_fires_io_t.TxPower.Controller.{set_mode, on_command_sent, on_command_failed}
use smart_fires_io_t.BaseApp.Tracker.{empty_tracker, max_ack_tracked_nodes, reset_ack_tracker}
use smart_fires_io_t.BaseApp.Assign.{update_jetson_time_source, enqueue_pending_command}
use smart_fires_io_t.BaseApp.State.{BaseApp, Effect, begin_radio, system_reset}

-- `PKT_FLAG_TIME_SYNC_BROADCAST`.
abbrev pub pkt_flag_time_sync_broadcast : ℕ
pkt_flag_time_sync_broadcast = 8

-- A command with its checksum, or else, at the length of the header and the payload alone, without.
unfoldable pub decode_from_jetson {ℓ} :
    {P : Type ℓ}
    → ℕ
    → ℕ
    → (List ℕ → P)
    → (List ℕ → Option (PktHeader × P))
    → List ℕ
    → Option (PktHeader × P)
decode_from_jetson bare_size pkt_type payload_of decode raw =
    let hdr = Layout.header_of raw in
    let legacy =
      if length raw == bare_size && hdr.magic == pkt_magic && hdr.pkt_type == pkt_type
      then some (hdr, payload_of (drop header_size raw))
      else none in
    if ltb (length raw) bare_size
    then none
    else elim (decode raw) [ none ↦ legacy | some p ↦ some p ]

unfoldable pub decode_cmd_calibrate_from_jetson : List ℕ → Option (PktHeader × CmdCalibratePayload)
unfolding decode_from_jetson
decode_cmd_calibrate_from_jetson raw =
    decode_from_jetson (header_size + 2) pkt_cmd_calibrate Layout.cmd_calibrate_of
      decode_cmd_calibrate raw

unfoldable pub decode_cmd_reset_from_jetson : List ℕ → Option (PktHeader × CmdResetPayload)
unfolding decode_from_jetson
decode_cmd_reset_from_jetson raw =
    decode_from_jetson (header_size + 2) pkt_cmd_reset Layout.cmd_reset_of decode_cmd_reset raw

-- What became of a payload: whether it was accepted, the base afterwards, and what was done outside.
abbrev pub Handled : Type 0
Handled = Bool × BaseApp × List Effect

-- Queues an encoded command for a node.
unfoldable pub queue_command : ℕ → Option (List ℕ) → BaseApp → Handled
queue_command node_id none b = (false, b, [])
queue_command node_id (some payload) b =
    let (queued, commands) = enqueue_pending_command node_id (some payload) b.commands in
    (queued, record b { commands = commands }, [])

unfoldable pub handle_time_sync : ℕ → List ℕ → BaseApp → Handled
handle_time_sync now payload b = elim (decode_time_sync payload) [
  | none ↦ (false, b, [])
  | some (hdr, ts) ↦
      let wanted = not (bit_and hdr.flags pkt_flag_time_sync_broadcast == 0) in
      (
        true,
        record b {
          source = update_jetson_time_source now ts b.source;
          manual_time_sync_pending = wanted || b.manual_time_sync_pending;
        },
        [],
      )
]

unfoldable pub handle_cmd_calibrate : List ℕ → BaseApp → Handled
unfolding queue_command
handle_cmd_calibrate payload b = elim (decode_cmd_calibrate_from_jetson payload) [
  | none ↦ (false, b, [])
  | some (hdr, cmd) ↦
      queue_command cmd.node_id (encode_cmd_calibrate hdr.seq cmd cmd_calibrate_lora_size 0) b
]

-- The soft reset of the base itself.
unfoldable pub reset_self : BaseApp → BaseApp
reset_self b =
    let source = b.source in
    let acks = b.acks in
    record b {
      source = record source { has_jetson_time = false };
      acks = record acks { trackers = replicate max_ack_tracked_nodes empty_tracker };
      last_periodic_time_sync_ms = 0;
    }

-- `resetAckTracker` on the base's trackers.
abbrev pub forget_node : ℕ → BaseApp → BaseApp
forget_node node_id b =
    let acks = b.acks in
    record b { acks = record acks { trackers = reset_ack_tracker node_id acks.trackers } }

-- A hard reset of the base does not return.
unfoldable pub handle_cmd_reset : List ℕ → BaseApp → Handled
unfolding queue_command reset_self
handle_cmd_reset payload b = elim (decode_cmd_reset_from_jetson payload) [
  | none ↦ (false, b, [])
  | some (hdr, cmd) ↦
      if cmd.node_id == 0
      then (if cmd.reset_type == 1
          then (true, b, system_reset ∷ [])
          else (true, reset_self b, begin_radio ∷ []))
      else queue_command cmd.node_id (encode_cmd_reset hdr.seq cmd cmd_reset_lora_size 0)
          (forget_node cmd.node_id b)
]

-- The operator's mode is recorded where the command could be encoded, queued or not.
unfoldable pub relay_tx_power :
    NetworkProfile → CmdSetTxPowerPayload → Option (List ℕ) → BaseApp → Handled
unfolding queue_command
relay_tx_power profile cmd none b = (false, b, [])
relay_tx_power profile cmd (some payload) b = queue_command cmd.node_id (some payload) (record b {
  tx_power = set_mode profile cmd.node_id (cmd.mode == tx_power_mode_static) b.tx_power;
})

unfoldable pub handle_cmd_set_tx_power : NetworkProfile → List ℕ → BaseApp → Handled
unfolding relay_tx_power
handle_cmd_set_tx_power profile payload b = elim (decode_cmd_set_tx_power payload) [
  | none ↦ (false, b, [])
  | some (hdr, cmd) ↦
      if cmd.node_id == 0
      then (false, b, [])
      else relay_tx_power profile cmd
          (encode_cmd_set_tx_power hdr.seq cmd cmd_set_tx_power_lora_size 0) b
]

unfoldable pub handle_jetson_command_payload : NetworkProfile → ℕ → List ℕ → BaseApp → Handled
unfolding handle_time_sync handle_cmd_calibrate handle_cmd_reset handle_cmd_set_tx_power
handle_jetson_command_payload profile now payload b =
    let hdr = Layout.header_of payload in
    if ltb (length payload) header_size || not (hdr.magic == pkt_magic)
    then (false, b, [])
    else if hdr.pkt_type == pkt_time_sync
    then handle_time_sync now payload b
    else if hdr.pkt_type == pkt_cmd_calibrate
    then handle_cmd_calibrate payload b
    else if hdr.pkt_type == pkt_cmd_reset
    then handle_cmd_reset payload b
    else if hdr.pkt_type == pkt_cmd_set_tx_power
    then handle_cmd_set_tx_power profile payload b
    else (false, b, [])

-- `sendTxPowerDecision`, behind its test of the action.
unfoldable pub queue_tx_power_decision : ℕ → Decision → Option (List ℕ) → BaseApp → BaseApp
queue_tx_power_decision now d none b = record b {
  tx_power = on_command_failed d.node_id b.tx_power;
}
queue_tx_power_decision now d (some payload) b =
    let (queued, commands) = enqueue_pending_command d.node_id (some payload) b.commands in
    record b {
      commands = commands;
      tx_power =
          if queued
          then on_command_sent d.node_id d.target_dbm now b.tx_power
          else on_command_failed d.node_id b.tx_power;
    }

unfoldable pub send_tx_power_decision : ℕ → Decision → BaseApp → BaseApp
unfolding queue_tx_power_decision
send_tx_power_decision now d b =
    let cmd : CmdSetTxPowerPayload = record {
      node_id = d.node_id;
      tx_power_dbm = d.target_dbm;
      mode = tx_power_mode_dynamic;
    } in
    elim d.action [
      | no_action ↦ b
      | set_power ↦
          queue_tx_power_decision now d
            (encode_cmd_set_tx_power b.syncs.time_sync_seq cmd cmd_set_tx_power_lora_size 0) b
    ]
