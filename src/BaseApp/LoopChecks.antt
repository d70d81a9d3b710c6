-- ===== src/BaseApp/LoopChecks.antt =====
-- Runs of the base's loop, and the theorems applied to them.
use smart_fires_io_t.Base.{
  ℕ, ◌+◌, ◌≤◌, ◌≡◌, ◌↔◌, true, false, List, [], ◌∷◌, some, length, replicate, arith, refl,
}
use smart_fires_io_t.Base.Int.{pos}
use smart_fires_io_t.Config.Profile.{tx_budget_ms, application_airtime_ms, modem}
use smart_fires_io_t.Config.Profile.Builtin.{sf7, profile_for_selector}
use smart_fires_io_t.Config.Profile.Slots.{selected_is_valid}
use smart_fires_io_t.Config.Airtime.{
  ceil_div, symbol_microseconds, payload_numerator, payload_denominator, coded_blocks,
  payload_symbols, total_quarter_symbols, microseconds, milliseconds, application_milliseconds,
}
use smart_fires_io_t.Wire.Constants.{time_sync_lora_size, pkt_magic, pkt_awaken, pkt_cmd_reset}
use smart_fires_io_t.Wire.Crc.{seal, crc8, crc8_from, crc_bits, crc_bit, crc_ok}
use smart_fires_io_t.Wire.Layout
use smart_fires_io_t.Wire.Packet.{PktHeader, AwakenPayload}
use smart_fires_io_t.Wire.Decode.{decode_awaken, decode_awaken_as}
use smart_fires_io_t.Tdma.Clock.{
  my_turn, my_slot, sync_stale, session_now_ms, position_in_slot_ms, apply_sync, new_clock,
}
use smart_fires_io_t.BaseApp.Flush.{base_tx_deadline_allows}
use smart_fires_io_t.BaseApp.Assign.{
  NodeAssignment, no_assignment, lookup_from, find_or_create_node_assignment,
}
use smart_fires_io_t.BaseApp.Assigned.{IsAssigned, entry, find_or_create_distinct}
use smart_fires_io_t.BaseApp.State.{BaseApp, new_base, timing, make_base_tdma_config}
use smart_fires_io_t.BaseApp.Jetson.{handle_jetson_command_payload, reset_self}
use smart_fires_io_t.BaseApp.Incoming.{patched_awaken}
use smart_fires_io_t.BaseApp.Loop.{
  Window, Pass, position, maybe_send_periodic_time_sync, maybe_send_in_base_window, update_base,
  begin_base,
}
use smart_fires_io_t.BaseApp.OneSend.{maybe_send_in_base_window_one}
use smart_fires_io_t.BaseApp.Sound.{IsSound}
use smart_fires_io_t.BaseApp.Reachable.{begun, updated, replicate-IsAssigned, reachable-IsSound}
use smart_fires_io_t.BaseApp.Relay.{bare_command_same}
use smart_fires_io_t.BaseApp.Readdress.{patched_awaken_roundtrip}
use smart_fires_io_t.BaseApp.Reply.{is_waiting, Replies, awaken_reply_first}
use smart_fires_io_t.BaseApp.SoftReset.{soft_reset_holds_sync}

-- 100 ms into the base's slot of the frame at 45 s, and a radio that accepts everything.
abbrev window : Window
window = record {
  turn_at = 45100;
  sync_deadline_at = λ _. 45100;
  sync_sent_at = λ _. 45101;
  sync_ok = λ _. true;
  command_deadline_at = λ _. 45100;
  command_ok = λ _. true;
  flush_at = 45100;
  flush_deadline_at = λ _. 45100;
  flush_ok = λ _. true;
  periodic_at = 45100;
  periodic_deadline_at = 45100;
  periodic_sent_at = 45101;
  periodic_ok = true;
}

abbrev four : List NodeAssignment
four = replicate 4 no_assignment

-- A base in session, where the second of two nodes waits for its reply.
abbrev waiting : NodeAssignment
waiting = record {
  in_use = true;
  uid_hash = 29;
  node_id = 3;
  pending_direct_sync = true;
  pending_radio_addr = 7;
  pending_trigger_seq = 1;
}

abbrev base : BaseApp
base = record (new_base sf7) {
  initialized = true;
  tdma_clock = apply_sync 0x53460142 45000 45000 (new_clock (make_base_tdma_config sf7));
  syncs = record {
    assignments = no_assignment ∷ waiting ∷ [];
    time_sync_seq = 4;
    time_sync_tx_count = 4;
  };
}

-- An AWAKEN frame of a node without an id.
abbrev awaken_frame : List ℕ
awaken_frame = seal (pkt_magic ∷ pkt_awaken ∷ 0 ∷ 5 ∷ 0 ∷ 0x11 ∷ 0x22 ∷ 0x33 ∷ 0x44 ∷ 1 ∷ 2 ∷ [])

abbrev said : PktHeader × AwakenPayload
said = (
  record { magic = pkt_magic; pkt_type = pkt_awaken; node_id = 0; seq = 5; flags = 0 },
  record { uid_hash = 0x44332211; reset_cause = 1; hang_zone = 2 },
)

-- The base hears that frame.
abbrev pass : Pass
pass = record {
  payload_at = 45000;
  sync_at = 45000;
  incoming =
      some (record {
        from_addr = 7;
        bytes = awaken_frame;
        rssi = pos 0;
        snr = pos 9;
        received_at = 45001;
        sampled_at = 45001;
        handled_at = 45002;
        tracked_at = 45002;
      })
      ∷ [];
  serial = [];
  serial_at = λ _. 45003;
  announce_at = 45004;
  power_at = 45005;
  power_sent_at = 45006;
  window = window;
}

find_or_create_distinct_example :
    let es = (find_or_create_node_assignment 29 (find_or_create_node_assignment 17 four).1).1 in
    IsAssigned es
    × ((entry es 0).node_id ≡ (entry es 1).node_id ↔ ◌≡◌ {A = ℕ} 17 29)
    × (2 ≤ (entry es 0).node_id)
    × ((entry es 0).node_id ≤ length four + 1)
unfolding find_or_create_node_assignment lookup_from
find_or_create_distinct_example =
    find_or_create_distinct 17 29 0 1 four (replicate-IsAssigned 4) (omega arith) refl refl

maybe_send_in_base_window_one_example :
    let sent = (maybe_send_in_base_window sf7 window base).1 in
    (length sent ≤ 1) × ((my_turn base.tdma_clock 45100).0 ≡ false → sent ≡ [])
maybe_send_in_base_window_one_example =
    maybe_send_in_base_window_one sf7 window base (λ _. refl) (λ _. refl) (λ _. refl)

abbrev hard_reset : List ℕ
hard_reset = pkt_magic ∷ pkt_cmd_reset ∷ 0 ∷ 9 ∷ 0 ∷ 3 ∷ 1 ∷ []

bare_command_same_example :
    handle_jetson_command_payload sf7 1000 (seal hard_reset) base
    ≡ handle_jetson_command_payload sf7 1000 hard_reset base
bare_command_same_example = bare_command_same sf7 1000 hard_reset base refl

patched_awaken_roundtrip_example :
    decode_awaken (patched_awaken (some 3) awaken_frame)
    ≡ some (
      record { magic = pkt_magic; pkt_type = pkt_awaken; node_id = 3; seq = 5; flags = 0 },
      record { uid_hash = 0x44332211; reset_cause = 1; hang_zone = 2 },
    )
unfolding decode_awaken decode_awaken_as seal crc8 crc8_from crc_bits crc_bit crc_ok
    Layout.header_of Layout.awaken_of
patched_awaken_roundtrip_example = patched_awaken_roundtrip 3 awaken_frame said.0 said.1 refl

room : base_tx_deadline_allows sf7 (timing sf7) (position base 45100) time_sync_lora_size ≡ true
unfolding base_tx_deadline_allows timing position_in_slot_ms session_now_ms apply_sync new_clock
    new_base make_base_tdma_config tx_budget_ms application_airtime_ms modem
    application_milliseconds milliseconds microseconds total_quarter_symbols payload_symbols
    coded_blocks payload_numerator payload_denominator symbol_microseconds ceil_div
room = refl

mine : (my_turn base.tdma_clock 45100).0 ≡ true
unfolding my_turn my_slot sync_stale session_now_ms apply_sync new_clock new_base
    make_base_tdma_config
mine = refl

awaken_reply_first_example :
    let r = maybe_send_in_base_window sf7 window base in
    (j : ℕ) × (j ≤ 1)
    × (is_waiting (entry base.syncs.assignments j) ≡ true)
    × Replies (λ _. 45101) base.source base.syncs j (true, r.0.syncs, r.1)
awaken_reply_first_example =
    awaken_reply_first sf7 window base 1 (λ n. room) (λ _. refl) mine (omega arith) refl

soft_reset_holds_sync_example :
    maybe_send_periodic_time_sync sf7 window (reset_self base) ≡ (reset_self base, [])
unfolding new_base
soft_reset_holds_sync_example =
    soft_reset_holds_sync sf7 window base refl (omega arith) (omega arith)

reachable-IsSound_example :
    IsSound (update_base sf7 pass (begin_base sf7 true 100 0x42 101 (new_base sf7)).1).0
unfolding profile_for_selector
reachable-IsSound_example =
    reachable-IsSound sf7 _ (selected_is_valid 7) (updated pass _ (begun true 100 0x42 101))
