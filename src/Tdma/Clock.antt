-- ===== src/Tdma/Clock.antt =====
-- TdmaClock (platformio/src/radio/TdmaClock.cpp): the session clock that a node derives from
-- TIME_SYNC, and the slot arithmetic on it. `_clock.millis()` is the argument `now` of each call.
pub mod Session
pub mod Turns
pub mod RxWindow
mod Checks
use smart_fires_io_t.Base.{
  ℕ, ◌+◌, ◌-◌, ◌*◌, ◌/◌, ◌%◌, Bool, true, false, not, ◌&&◌, ◌||◌, ltb, leb, ◌==◌, if◌then◌else◌,
}
use smart_fires_io_t.Base.Word.{u8, u32, sub_u32}

-- The fields of `TdmaConfig` that the clock reads.
pub record Config : Type 0 where
  pub node_id : ℕ
  pub num_slots : ℕ
  pub slot_width_ms : ℕ
  pub guard_ms : ℕ
  pub sync_stale_ms : ℕ
  pub rx_wake_ahead_ms : ℕ

pub record Clock : Type 0 where
  pub cfg : Config
  pub sync_session_ms : ℕ
  pub sync_local_ms : ℕ
  pub session_id : ℕ
  pub synced : Bool
  pub session_changed : Bool

unfoldable pub new_clock : Config → Clock
new_clock cfg = record {
  cfg = cfg;
  sync_session_ms = 0;
  sync_local_ms = 0;
  session_id = 0;
  synced = false;
  session_changed = false;
}

unfoldable pub apply_assignment : ℕ → ℕ → Clock → Clock
apply_assignment node_id num_slots c =
    let cfg = c.cfg in record c { cfg = record cfg { node_id = node_id; num_slots = num_slots } }

unfoldable pub apply_sync : ℕ → ℕ → ℕ → Clock → Clock
apply_sync session_id session_time_ms now c =
    let c' =
      if session_id == c.session_id
      then c
      else (record c { session_id = session_id; session_changed = true }) in
    record c' { sync_session_ms = session_time_ms; sync_local_ms = now; synced = true }

unfoldable pub consume_session_changed : Clock → Bool × Clock
consume_session_changed c =
    if not c.session_changed then (false, c) else (true, record c { session_changed = false })

unfoldable pub reset : Clock → Clock
reset c = record c {
  synced = false;
  session_changed = false;
  sync_session_ms = 0;
  sync_local_ms = 0;
}

unfoldable pub sync_stale : Clock → ℕ → Bool
sync_stale c now =
    if not c.synced then false else ltb c.cfg.sync_stale_ms (sub_u32 now c.sync_local_ms)

unfoldable pub session_now_ms : Clock → ℕ → ℕ
session_now_ms c now =
    if not c.synced then now else u32 (c.sync_session_ms + sub_u32 now c.sync_local_ms)

unfoldable pub current_slot_index : Clock → ℕ → ℕ
current_slot_index c now = session_now_ms c now / c.cfg.slot_width_ms

unfoldable pub current_slot_number : Clock → ℕ → ℕ
unfolding current_slot_index
current_slot_number c now = u8 (current_slot_index c now % c.cfg.num_slots)

unfoldable pub position_in_slot_ms : Clock → ℕ → ℕ
position_in_slot_ms c now = session_now_ms c now % c.cfg.slot_width_ms

-- `nodeId - 1` runs only at a positive `nodeId`.
unfoldable pub my_slot : Clock → ℕ
my_slot c =
    if c.cfg.node_id == 0 || c.cfg.num_slots == 0
    then 0xff
    else u8 ((c.cfg.node_id - 1) % c.cfg.num_slots)

-- The result and what `slotIndexOut` receives.
unfoldable pub my_turn : Clock → ℕ → Bool × ℕ
unfolding my_slot
my_turn c now =
    if not c.synced || sync_stale c now
    then (true, now / c.cfg.slot_width_ms)
    else let session_ms = session_now_ms c now in
      let slot_index = session_ms / c.cfg.slot_width_ms in
      let pos_in_slot = session_ms % c.cfg.slot_width_ms in
      let which_slot = u8 (slot_index % c.cfg.num_slots) in
      let mine = my_slot c in
      if mine == 0xff || not (which_slot == mine)
      then (false, slot_index)
      else if ltb pos_in_slot c.cfg.guard_ms
      then (false, slot_index)
      else if leb (sub_u32 c.cfg.slot_width_ms c.cfg.guard_ms) pos_in_slot
      then (false, slot_index)
      else (true, slot_index)

unfoldable pub base_rx_window_open : Clock → ℕ → Bool
unfolding current_slot_number position_in_slot_ms
base_rx_window_open c now =
    if not c.synced || sync_stale c now
    then true
    else let which_slot = current_slot_number c now in
      if which_slot == 0
      then true
      else if ltb 0 c.cfg.num_slots
          && which_slot == u8 (c.cfg.num_slots - 1)
          && leb (sub_u32 c.cfg.slot_width_ms c.cfg.rx_wake_ahead_ms) (position_in_slot_ms c now)
      then true
      else false
