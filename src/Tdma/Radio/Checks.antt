-- ===== src/Tdma/Radio/Checks.antt =====
-- Runs of the radio service, and the theorems applied to them.
use smart_fires_io_t.Base.{
  ℕ, ◌+◌, ◌*◌, ◌≤◌, ◌<◌, ◌≡◌, List, [], ◌∷◌, ◌++◌, true, false, replicate, ◌&&◌, ◌==◌, some, length,
  ltb, if◌then◌else◌, arith, refl, set,
}
use smart_fires_io_t.Base.Word.{u32, sub_u32}
use smart_fires_io_t.Config.Airtime.{
  application_milliseconds, milliseconds, ceil_div, microseconds, total_quarter_symbols,
  payload_symbols, coded_blocks, payload_numerator, payload_denominator, symbol_microseconds,
}
use smart_fires_io_t.Config.Profile.{tx_budget_ms, application_airtime_ms, modem}
use smart_fires_io_t.Config.Profile.Builtin.{sf7}
use smart_fires_io_t.Wire.Layout
use smart_fires_io_t.Wire.Packet.{AckSummaryPayload}
use smart_fires_io_t.Tdma.Clock.{Clock, session_now_ms, sync_stale, position_in_slot_ms}
use smart_fires_io_t.Tdma.TxQueue.{
  TxQueue, new_queue, enqueue, append_entry, drop_oldest, peek_packet_type,
}
use smart_fires_io_t.Tdma.TxQueue.Valid.{IsValid, new_queue-IsValid, enqueue-IsValid}
use smart_fires_io_t.Tdma.TxQueue.Refine.{contents}
use smart_fires_io_t.Tdma.Radio.Types.{
  RadioConfig, PendingEntry, Window, Service, ready, app_layer_ack_summary, strict_link_ack,
  send_to, send_to_wait,
}
use smart_fires_io_t.Tdma.Radio.Window.{
  Traffic, inspect, has_unsent, pick_from, compute_retry_wait_ms, new_window, window_depth,
  is_acked, is_expired, drop_expired_pending, pick_retransmit_candidate, retransmit_copy,
}
use smart_fires_io_t.Tdma.Radio.Service.{
  new_service, notify_mcu_standby, hold_pending_retries_for_ack_round_trip, hold_ms,
}
use smart_fires_io_t.Tdma.Radio.Drain.{
  Round, pick, transmit, repeated, allow_retx, fits_in_slot, estimate_tx_budget_ms, Readings, Pass,
  stopped, max_attempts, max_sends_per_update, drain_round, drain_tx_queue, update,
}
use smart_fires_io_t.Tdma.Radio.Invariant.{IsConsistent, update-IsConsistent}
use smart_fires_io_t.Tdma.Radio.Slots.{All, SendsThatFit, drain_tx_queue_in_slot}
use smart_fires_io_t.Tdma.Radio.Attempts.{link_attempts_unbounded}
use smart_fires_io_t.Tdma.Radio.Profile.{node_tdma_profile, admitted_frame_sent}
use smart_fires_io_t.Config.Profile.Slots.{selected_is_valid}
use smart_fires_io_t.Config.Profile.Builtin.{profile_for_selector}
use smart_fires_io_t.Tdma.Clock.{Config}
use smart_fires_io_t.Tdma.Radio.Receive.{apply_ack_summary}
use smart_fires_io_t.Tdma.Radio.Release.{
  entry_at, apply_ack_summary_at, notify_mcu_standby_age, hold_drops_young,
}
use smart_fires_io_t.Tdma.Radio.Pick.{
  Candidate, MayRetransmit, IsChosen, pick_retransmit_candidate_sound,
  pick_retransmit_candidate_oldest,
}
use smart_fires_io_t.Tdma.Radio.Frames.{searched, drain_round_defers}
use smart_fires_io_t.Tdma.Radio.Slots.Sends.{calls_of}

-- Node 2 of four slots of one second.
abbrev node_cfg : RadioConfig
node_cfg = record {
  node_id = 2;
  base_addr = 1;
  num_slots = 4;
  slot_width_ms = 1000;
  guard_ms = 100;
  enable_link_ack = false;
  max_retries = 2;
  enable_app_reliability = true;
  reliability_window_depth = 8;
  reliability_max_attempts = 5;
  reliability_max_age_ms = 60000;
  reliability_min_retry_gap_ms = 500;
  reliability_fresh_traffic_holdoff_ms = 0;
  reliability_mode = app_layer_ack_summary;
  expected_ack_interval_ms = 1000;
  retry_wait_multiplier_permille = 1000;
  retry_wait_min_ms = 500;
  retry_wait_max_ms = 8000;
  require_ack_summary_before_first_retry = false;
}

abbrev node_clock : Clock
node_clock = record {
  cfg = record {
    node_id = 2;
    num_slots = 4;
    slot_width_ms = 1000;
    guard_ms = 100;
    sync_stale_ms = 60000;
    rx_wake_ahead_ms = 100;
  };
  sync_session_ms = 0;
  sync_local_ms = 0;
  session_id = 9;
  synced = true;
  session_changed = false;
}

abbrev bundle : List ℕ
bundle = 0xa5 ∷ 4 ∷ 2 ∷ 7 ∷ 0 ∷ 11 ∷ 12 ∷ 13 ∷ []

abbrev queue : TxQueue
queue = (enqueue (new_queue 4) (some bundle) 8).1

queue-IsValid : IsValid queue
queue-IsValid = enqueue-IsValid (new_queue 4) (some bundle) 8 (omega arith) (new_queue-IsValid 4)

-- A frame that was sent 2 seconds into the session, and one that was sent later.
abbrev older_entry : PendingEntry
older_entry = record {
  in_use = true;
  seq = 7;
  payload = bundle;
  first_sent_ms = 2000;
  last_sent_ms = 2000;
  attempts = 1;
  sent_successfully = true;
  ack_gate_opened = false;
}

abbrev newer_entry : PendingEntry
newer_entry = record older_entry { seq = 8; first_sent_ms = 4000; last_sent_ms = 4000 }

abbrev two_pending : Window
two_pending = record {
  entries = set (set new_window.entries 0 older_entry) 1 newer_entry;
  count = 2;
  drops = 0;
}

abbrev node : Service
node =
    let s = new_service node_cfg node_clock queue in
    record s { radio_state = ready; window = two_pending }

node-IsConsistent : IsConsistent node
unfolding new_service
node-IsConsistent = record {
  counted = record { storage = refl; exact = refl };
  ring = queue-IsValid;
}

-- Every reading of a call is the same, and every send succeeds.
abbrev round_at : ℕ → Round
round_at now = record {
  budget_at = now;
  pick_at = now;
  repick_at = now;
  fit_at = now;
  sent_at = now;
  fresh_at = now;
  answers = [];
}

abbrev readings_at : ℕ → Readings
readings_at now = record {
  expire_at = now;
  stale_at = now;
  turn_at = now;
  rounds = λ k. round_at now;
}

abbrev pass_at : ℕ → Pass
pass_at now = record { rx_at = now; incoming = []; draining = readings_at now; health_at = now }

update-IsConsistent_example : IsConsistent (update sf7 (pass_at 5200) node).0
update-IsConsistent_example = update-IsConsistent sf7 (pass_at 5200) node node-IsConsistent

drain_tx_queue_in_slot_example :
    let calls = (drain_tx_queue sf7 (readings_at 5200) node).1 in
    All (SendsThatFit sf7 (λ k. round_at 5200) node.cfg node.tdma_clock) calls
    × (length calls ≤ max_sends_per_update * max_attempts node.cfg)
unfolding new_service sync_stale
drain_tx_queue_in_slot_example =
    drain_tx_queue_in_slot sf7 (readings_at 5200) node refl refl (omega arith)

abbrev ack : AckSummaryPayload
ack = record { node_id = 2; ack_base_seq = 7; ack_mask = 0 }

apply_ack_summary_at_example :
    let s' = apply_ack_summary 5000 ack node in
    (entry_at s'.window 0 ≡ (
      if ack.node_id == 2
        && (ltb 0 (window_depth node_cfg)
            && older_entry.in_use
            && (older_entry.sent_successfully && is_acked ack older_entry.seq))
      then (record older_entry { in_use = false })
      else older_entry))
    × (s'.window.drops ≡ 0)
unfolding new_service
apply_ack_summary_at_example = apply_ack_summary_at 5000 ack node 0

notify_mcu_standby_age_example :
    let e' = entry_at (notify_mcu_standby 30000 node).window 1 in
    let now' = u32 (5000 + 30000) in
    (sub_u32 now' e'.first_sent_ms ≡ sub_u32 5000 4000)
    × (sub_u32 now' e'.last_sent_ms ≡ sub_u32 5000 4000)
    × (is_expired node.cfg now' e' ≡ is_expired node.cfg 5000 newer_entry)
unfolding new_service
notify_mcu_standby_age_example =
    notify_mcu_standby_age 30000 5000 node 1 (omega arith) (omega arith) (omega arith) (omega arith)
      refl refl

-- A frame sent a second before the marker is gone with the next call.
hold_drops_young_example :
    let held = (hold_pending_retries_for_ack_round_trip node).window in
    (entry_at (drop_expired_pending node.cfg 5000 held) 1).in_use ≡ false
unfolding new_service hold_ms
hold_drops_young_example =
    hold_drops_young 5000 node 1 (omega arith) (omega arith) (omega arith) (omega arith)
      (omega arith) refl refl

abbrev quiet : Traffic
quiet = record { has_fresh = false; last_fresh_ms = 0; has_ack = false; last_ack_ms = 0 }

pick_retransmit_candidate_sound_example :
    Candidate
      (λ i bytes.
        (i < window_depth node_cfg)
        × MayRetransmit node_cfg 5200 (entry_at two_pending i)
        × (bytes ≡ retransmit_copy (entry_at two_pending i).payload))
      (pick_retransmit_candidate node_cfg 5200 quiet two_pending).0
pick_retransmit_candidate_sound_example =
    pick_retransmit_candidate_sound node_cfg 5200 quiet two_pending

newer-IsChosen : IsChosen node_cfg 5200 quiet newer_entry
unfolding inspect compute_retry_wait_ms
newer-IsChosen = refl

pick_retransmit_candidate_oldest_example :
    Candidate
      (λ i bytes. (entry_at two_pending i).last_sent_ms ≤ 4000)
      (pick_retransmit_candidate node_cfg 5200 quiet two_pending).0
pick_retransmit_candidate_oldest_example =
    pick_retransmit_candidate_oldest node_cfg 5200 quiet two_pending 1 (omega arith) (omega arith)
      newer-IsChosen

-- The first of the two frames is the one that goes on the air again.
older_is_picked :
    (pick_retransmit_candidate node_cfg 5200 quiet two_pending).0 ≡ some (0, retransmit_copy bundle)
unfolding pick_retransmit_candidate has_unsent pick_from inspect compute_retry_wait_ms
older_is_picked = refl

-- Near the end of the slot, with the retransmission of this slot tried already.
abbrev late_node : Service
late_node = record node { last_retx_attempt_slot_index = 5 }

drain_round_defers_example :
    (s' : Service) × (drain_round sf7 true true 5 0 (round_at 5890) late_node ≡ stopped s' [])
    × (contents s'.queue ≡ [] ++ (bundle ∷ []))
    × (s'.queue.dropped_oldest ≡ late_node.queue.dropped_oldest)
    × (s'.window ≡ searched true 5 (round_at 5890) late_node)
unfolding new_service allow_retx fits_in_slot enqueue append_entry drop_oldest new_queue
    position_in_slot_ms session_now_ms estimate_tx_budget_ms tx_budget_ms peek_packet_type
    Layout.header_of application_airtime_ms application_milliseconds milliseconds ceil_div
    microseconds total_quarter_symbols modem payload_symbols coded_blocks payload_numerator
    payload_denominator symbol_microseconds
drain_round_defers_example =
    drain_round_defers sf7 true 5 0 (round_at 5890) late_node bundle [] queue-IsValid refl
      (omega arith) (omega arith) refl refl refl

-- A node of the SF7 profile that was given id 2, 20 ms into its slot.
abbrev sf7_node : Service
sf7_node =
    let geometry : Config = record {
      node_id = 2;
      num_slots = 5;
      slot_width_ms = 900;
      guard_ms = 20;
      sync_stale_ms = 1320000;
      rx_wake_ahead_ms = 150;
    } in
    new_service (record (node_tdma_profile sf7) { node_id = 2 })
      (record node_clock { cfg = geometry }) queue

admitted_frame_sent_example :
    calls_of (drain_round sf7 true true 1 0 (round_at 920) sf7_node) ≡ send_to 1 bundle ∷ []
unfolding new_service position_in_slot_ms session_now_ms profile_for_selector enqueue append_entry
    drop_oldest new_queue allow_retx pick pick_retransmit_candidate has_unsent pick_from
    node_tdma_profile peek_packet_type Layout.header_of
admitted_frame_sent_example =
    admitted_frame_sent sf7 sf7_node 2 1 0 (round_at 920) bundle [] (selected_is_valid 7)
      (omega arith) (omega arith) refl queue-IsValid refl (omega arith) (omega arith) (omega arith)
      refl (omega arith) (omega arith)

-- 254 retries, with link acknowledgements.
abbrev retrying_cfg : RadioConfig
retrying_cfg = record node_cfg {
  enable_link_ack = true;
  max_retries = 254;
  reliability_mode = strict_link_ack;
}

link_attempts_unbounded_example :
    transmit retrying_cfg (replicate 1000 false) bundle
    ≡ (true, repeated (1000 + 1) (send_to_wait 1 bundle))
link_attempts_unbounded_example =
    link_attempts_unbounded retrying_cfg 1000 bundle refl (omega arith)
