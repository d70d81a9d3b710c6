-- ===== src/TxPower/Checks.antt =====
-- A run of the controller at SF7, and the theorems applied to its tables.
use smart_fires_io_t.Base.{ℕ, ◌≡◌, ◌⊎◌, true, false, [], ◌∷◌, refl}
use smart_fires_io_t.Base.Int.{pos, ◌-ℤ◌, ◌≤ℤ◌, ◌<ℤ◌}
use smart_fires_io_t.Config.Profile.Builtin.{sf7}
use smart_fires_io_t.TxPower.Node
use smart_fires_io_t.TxPower.Controller
use smart_fires_io_t.TxPower.Node.{
  Node, Decision, no_decision, no_action, set_power, no_reason, margin_low, headroom_step_down,
  dynamic, rule, decide, hear, close_window, clamp_dbm, average_snr_db_x10,
}
use smart_fires_io_t.TxPower.Controller.{Table, new_table, find, update, create, modify}
use smart_fires_io_t.TxPower.Upsert.{IsTable, new_table-IsTable}
use smart_fires_io_t.TxPower.Decide.{IsSafe, rule_outcome}
use smart_fires_io_t.TxPower.Reports.{IsQuiet, IsCommand, on_status_sound}
use smart_fires_io_t.TxPower.Step.{packet_received, status, awaken, step, step-IsTable}
use smart_fires_io_t.TxPower.Update.{All, InTime, update_expires}

-- Node 3 wakes, is heard at 20 dB and reports 20 dBm.
abbrev heard_table : Table
heard_table =
    (step sf7 (packet_received 3 (pos 20) 1000) (step sf7 (awaken 3 500) (new_table sf7)).1).1

heard_table-IsTable : IsTable heard_table
heard_table-IsTable =
    step-IsTable sf7 (packet_received 3 (pos 20) 1000) _
      (step-IsTable sf7 (awaken 3 500) _ (new_table-IsTable sf7))

-- 27.5 dB of margin over the floor of SF7: the status steps the node down to 18 dBm.
status_run : (step sf7 (status 3 0 0 (pos 20) false 1100) heard_table).0.target_dbm ≡ pos 18
unfolding step Controller.on_status Controller.on_packet_received Controller.on_awaken
    Controller.upsert Controller.find_or_create Controller.create Controller.status_on
    Controller.modify find new_table Node.fresh_node Node.reborn hear Node.note_status decide rule
    average_snr_db_x10 close_window clamp_dbm
status_run = refl

abbrev heard_node : Node
heard_node = record {
  in_use = true;
  node_id = 3;
  mode = dynamic;
  current_dbm = pos 12;
  has_pending = true;
  pending_dbm = pos 10;
  pending_since_ms = 1500;
  snr_sum_db = pos 40;
  snr_count = 2;
  have_link_stats = true;
  last_retx_total = 0;
  last_fail_total = 0;
  have_decided = false;
  last_decision_ms = 0;
  heard = true;
  last_heard_ms = 1200;
  silence_probes = 0;
}

abbrev none_lost : ℕ
none_lost = 0

rule_outcome_example :
    let d' = rule (pos 12) (pos 140) none_lost none_lost no_decision in
    ((d'.action ≡ set_power)
      × (d'.reason ≡ margin_low)
      × (pos 140 <ℤ pos 100)
      × (d'.target_dbm ≡ pos 20)
      × IsSafe (pos 12) d')
    ⊎ ((d'.action ≡ set_power)
        × (d'.reason ≡ headroom_step_down)
        × (pos 130 <ℤ pos 140)
        × (none_lost ≡ 0)
        × (none_lost ≡ 0)
        × (d'.target_dbm ≡ clamp_dbm (pos 12 -ℤ pos 2))
        × IsSafe (pos 12) d')
    ⊎ ((d' ≡ no_decision) × ((pos 12 ≡ pos 20) ⊎ (pos 100 ≤ℤ pos 140)))
rule_outcome_example = rule_outcome (pos 12) (pos 140) none_lost none_lost no_decision refl

-- The STATUS of the node that was heard at 20 dB.
on_status_sound_example :
    let (d, t') = Controller.on_status sf7 3 none_lost none_lost (pos 20) false 1100 heard_table in
    IsQuiet sf7 3 none_lost none_lost (pos 20) false 1100 heard_table d t'
    ⊎ ((n : Node) × IsCommand sf7 3 none_lost none_lost (pos 20) false 1100 heard_table d t' n)
on_status_sound_example = on_status_sound sf7 3 none_lost none_lost (pos 20) false 1100 heard_table

update_expires_example : All (InTime sf7 400000) (update sf7 400000 (heard_node ∷ [])).1
update_expires_example = update_expires sf7 400000 (heard_node ∷ [])
