-- ===== src/BaseApp/Sound.antt =====
-- What every call of SmartFiresBaseApp.cpp keeps: the table of TxPowerController.cpp and the assignments.
pub mod Incoming
pub mod Sends
use smart_fires_io_t.Base.{ltb, ℕ, ◌<◌, ◌==◌, not, ◌||◌, if_both, List, Option, none, some, length}
use smart_fires_io_t.Config.Profile.{NetworkProfile}
use smart_fires_io_t.Wire.Packet.{CmdSetTxPowerPayload}
use smart_fires_io_t.Wire.Encode.{encode_cmd_set_tx_power}
use smart_fires_io_t.Wire.Decode.{decode_cmd_set_tx_power, decode_time_sync}
use smart_fires_io_t.Wire.Layout
use smart_fires_io_t.Wire.Constants.{
  pkt_magic, header_size, pkt_time_sync, pkt_cmd_calibrate, pkt_cmd_reset, pkt_cmd_set_tx_power,
  cmd_set_tx_power_lora_size, tx_power_mode_static, tx_power_mode_dynamic,
}
use smart_fires_io_t.TxPower.Node.{Decision, no_action, set_power}
use smart_fires_io_t.TxPower.Controller.{Table}
use smart_fires_io_t.TxPower.Upsert.{IsTable}
use smart_fires_io_t.TxPower.Step.{step, step-IsTable, mode_set, command_sent, command_failed}
use smart_fires_io_t.BaseApp.Assign.{NodeAssignment, enqueue_pending_command}
use smart_fires_io_t.BaseApp.Assigned.{IsAssigned}
use smart_fires_io_t.BaseApp.State.{BaseApp}
use smart_fires_io_t.BaseApp.Jetson.{
  Handled, queue_command, handle_time_sync, handle_cmd_calibrate, handle_cmd_reset, relay_tx_power,
  handle_cmd_set_tx_power, handle_jetson_command_payload, queue_tx_power_decision,
  send_tx_power_decision, decode_cmd_calibrate_from_jetson, decode_cmd_reset_from_jetson,
  reset_self,
}

-- The table of the power controller is well formed, and so are the assignments.
pub record AreSound (t : Table) (es : List NodeAssignment) : Type 0 where
  pub table : IsTable t
  pub assigned : IsAssigned es
  pub few : length es < 254

abbrev pub IsSound : BaseApp → Type 0
IsSound b = AreSound b.tx_power b.syncs.assignments

-- A property of both branches of a case of an option.
pub Option-both {ℓ κ μ} :
    {A : Type ℓ} {B : Type κ} (P : B → Type μ) (o : Option A) {d : B} {f : A → B}
    → P d
    → ((a : A) → P (f a))
    → P (elim o [ none ↦ d | some a ↦ f a ])
Option-both P none h k = h
Option-both P (some a) h k = k a

module _ (profile : NetworkProfile) where
  pub with_table :
      (t t' : Table) {es : List NodeAssignment} → IsTable t' → AreSound t es → AreSound t' es
  with_table t t' v h = record { table = v; assigned = h.assigned; few = h.few }

  pub queue_tx_power_decision-IsSound :
      (now : ℕ) (d : Decision) (payload : Option (List ℕ)) (b : BaseApp)
      → IsSound b
      → IsSound (queue_tx_power_decision now d payload b)
  unfolding queue_tx_power_decision step
  queue_tx_power_decision-IsSound now d none b h =
      with_table b.tx_power _ (step-IsTable profile (command_failed d.node_id) b.tx_power h.table) h
  queue_tx_power_decision-IsSound now d (some payload) b h =
      with_table b.tx_power _
        (if_both IsTable (enqueue_pending_command d.node_id (some payload) b.commands).0
          (step-IsTable profile (command_sent d.node_id d.target_dbm now) b.tx_power h.table)
          (step-IsTable profile (command_failed d.node_id) b.tx_power h.table))
        h

  pub send_tx_power_decision-IsSound :
      (now : ℕ) (d : Decision) (b : BaseApp) → IsSound b → IsSound (send_tx_power_decision now d b)
  unfolding send_tx_power_decision
  send_tx_power_decision-IsSound now d b h =
      let sent : BaseApp =
        queue_tx_power_decision now d
          (encode_cmd_set_tx_power b.syncs.time_sync_seq
            (record {
              node_id = d.node_id;
              tx_power_dbm = d.target_dbm;
              mode = tx_power_mode_dynamic;
            })
            cmd_set_tx_power_lora_size 0)
          b in
      elim d.action as (λ a. IsSound (elim a [ no_action ↦ b | set_power ↦ sent ])) [
        | no_action ↦ h
        | set_power ↦ queue_tx_power_decision-IsSound now d _ b h
      ]

  queue_command-IsSound :
      (id : ℕ) (payload : Option (List ℕ)) (b : BaseApp)
      → IsSound b
      → IsSound (queue_command id payload b).1
  unfolding queue_command
  queue_command-IsSound id none b h = h
  queue_command-IsSound id (some payload) b h = h

  relay-IsSound :
      (cmd : CmdSetTxPowerPayload) (payload : Option (List ℕ)) (b : BaseApp)
      → IsSound b
      → IsSound (relay_tx_power profile cmd payload b).1
  unfolding relay_tx_power queue_command step
  relay-IsSound cmd none b h = h
  relay-IsSound cmd (some payload) b h =
      with_table b.tx_power _
        (step-IsTable profile (mode_set cmd.node_id (cmd.mode == tx_power_mode_static)) b.tx_power
          h.table)
        h

  abbrev After : Handled → Type 0
  After x = IsSound x.1

  calibrate-IsSound :
      (payload : List ℕ) (b : BaseApp) → IsSound b → After (handle_cmd_calibrate payload b)
  unfolding handle_cmd_calibrate
  calibrate-IsSound payload b h =
      Option-both After (decode_cmd_calibrate_from_jetson payload) h
        (λ (hdr, cmd). queue_command-IsSound cmd.node_id _ b h)

  reset-IsSound : (payload : List ℕ) (b : BaseApp) → IsSound b → After (handle_cmd_reset payload b)
  unfolding handle_cmd_reset reset_self
  reset-IsSound payload b h =
      Option-both After (decode_cmd_reset_from_jetson payload) h (λ (hdr, cmd).
        if_both After (cmd.node_id == 0) (if_both After (cmd.reset_type == 1) h h)
          (queue_command-IsSound cmd.node_id _ _ h))

  set_power-IsSound :
      (payload : List ℕ) (b : BaseApp)
      → IsSound b
      → After (handle_cmd_set_tx_power profile payload b)
  unfolding handle_cmd_set_tx_power
  set_power-IsSound payload b h =
      Option-both After (decode_cmd_set_tx_power payload) h
        (λ (hdr, cmd). if_both After (cmd.node_id == 0) h (relay-IsSound cmd _ b h))

  time_sync-IsSound :
      (now : ℕ) (payload : List ℕ) (b : BaseApp)
      → IsSound b
      → After (handle_time_sync now payload b)
  unfolding handle_time_sync
  time_sync-IsSound now payload b h =
      Option-both After (decode_time_sync payload) h (λ (hdr, ts). h)

  pub handle_jetson_command_payload-IsSound :
      (now : ℕ) (payload : List ℕ) (b : BaseApp)
      → IsSound b
      → IsSound (handle_jetson_command_payload profile now payload b).1
  unfolding handle_jetson_command_payload
  handle_jetson_command_payload-IsSound now payload b h =
      let hdr = Layout.header_of payload in
      if_both After (ltb (length payload) header_size || not (hdr.magic == pkt_magic)) h (
        if_both After (hdr.pkt_type == pkt_time_sync) (time_sync-IsSound now payload b h) (
          if_both After (hdr.pkt_type == pkt_cmd_calibrate) (calibrate-IsSound payload b h) (
            if_both After (hdr.pkt_type == pkt_cmd_reset) (reset-IsSound payload b h) (
              if_both After (hdr.pkt_type == pkt_cmd_set_tx_power) (set_power-IsSound payload b h)
                h))))
