-- ===== src/Tdma/Clock/Checks.antt =====
-- Runs of TdmaClock at the SF7 geometry (five slots of 900 ms), and the theorems applied to them.
use smart_fires_io_t.Base.{◌≡◌, ◌↔◌, refl, true, arith}
use smart_fires_io_t.Tdma.Clock.{
  Config, Clock, new_clock, apply_assignment, apply_sync, reset, sync_stale, session_now_ms,
  my_turn, base_rx_window_open,
}
use smart_fires_io_t.Tdma.Clock.Turns.{InTurn, turns_exclusive, my_turn_iff}

abbrev geometry : Config
geometry = record {
  node_id = 1;
  num_slots = 5;
  slot_width_ms = 900;
  guard_ms = 20;
  sync_stale_ms = 1320000;
  rx_wake_ahead_ms = 150;
}

-- Node 3 was told at local time 1000 that session 7 is at 50000 ms.
abbrev node3 : Clock
node3 = record {
  cfg = record geometry { node_id = 3 };
  sync_session_ms = 50000;
  sync_local_ms = 1000;
  session_id = 7;
  synced = true;
  session_changed = true;
}

abbrev node4 : Clock
node4 = record node3 { cfg = record geometry { node_id = 4 } }

node3_made : apply_sync 7 50000 1000 (apply_assignment 3 5 (new_clock geometry)) ≡ node3
unfolding apply_sync apply_assignment new_clock
node3_made = refl

-- At local time 1000 + 1350 the session is 50 ms into slot 2 of frame 11; slot 2 is node 3's.
node3_turn : my_turn node3 2350 ≡ (true, 57)
unfolding my_turn session_now_ms sync_stale
node3_turn = refl

unsynced : (my_turn (reset node3) 1900 ≡ (true, 2)) × (base_rx_window_open (reset node3) 5 ≡ true)
unfolding my_turn base_rx_window_open session_now_ms sync_stale reset
unsynced = (refl, refl)

my_turn_iff_example :
    (((my_turn node3 2350).0 ≡ true) ↔ InTurn node3.cfg (session_now_ms node3 2350))
    × ((my_turn node3 2350).1 ≡ 57)
unfolding sync_stale session_now_ms
my_turn_iff_example = my_turn_iff node3 2350 (omega arith) (refl, refl)

turns_exclusive_example : ¬ (((my_turn node3 3170).0 ≡ true) × ((my_turn node4 3200).0 ≡ true))
unfolding sync_stale session_now_ms
turns_exclusive_example =
    turns_exclusive node3 node4 3170 3200 (omega arith) (omega arith) (refl, refl, refl)
      (omega arith) (refl, refl) (refl, refl) (omega arith) (omega arith)

-- The base's own clock, which reads 54020 when the guard time of slot 0 of frame 12 is over and the node's
-- clock reads 53920.
abbrev base_clock : Clock
base_clock = record node3 { cfg = geometry }
