-- ===== src/Tdma/Clock/Turns.antt =====
-- Whose turn it is to transmit: `myTurn` against the slots on the session's time line.
use smart_fires_io_t.Base.{ℕ, ◌+◌, ◌-◌, ◌*◌, ◌/◌, ◌%◌, ◌≤◌, ◌<◌, ◌≡◌, ◌≢◌, ◌↔◌, true, false, arith}
use native.Mathlib.Nat.{mod-eq_of_lt}
use smart_fires_io_t.Base.Division.{slots_apart}
use smart_fires_io_t.Base.Word.{u32_mod}
use smart_fires_io_t.Tdma.Clock.{
  Config, Clock, session_now_ms, current_slot_number, my_slot, my_turn,
}
use smart_fires_io_t.Tdma.Clock.Session.{IsLive}

-- What a network profile and an assignment give: the node has one of the slots, and the guard
-- bands leave a part of each slot.
pub record IsConfigured (cfg : Config) : Type 0 where
  pub assigned : 1 ≤ cfg.node_id
  pub within : cfg.node_id ≤ cfg.num_slots
  pub slots_fit : cfg.num_slots < 255
  pub guards_fit : 2 * cfg.guard_ms < cfg.slot_width_ms
  pub width_fits : cfg.slot_width_ms < u32_mod

-- The moment `s` lies in the node's own slot, outside the guard bands.
abbrev pub InTurn : Config → ℕ → Type 0
InTurn cfg s =
    (s / cfg.slot_width_ms % cfg.num_slots ≡ cfg.node_id - 1)
    × (cfg.guard_ms ≤ s % cfg.slot_width_ms)
    × (s % cfg.slot_width_ms + cfg.guard_ms < cfg.slot_width_ms)

my_slot-eq : (c : Clock) → IsConfigured c.cfg → my_slot c ≡ c.cfg.node_id - 1
unfolding my_slot
my_slot-eq c v =
    ground (arith, mod-eq_of_lt {n = c.cfg.node_id - 1} {m = c.cfg.num_slots} (omega arith))

-- A configured node with a live sync may transmit exactly in its own slot outside both guard bands,
-- and the slot index that it reports is the session's.
pub my_turn_iff :
    (c : Clock) (now : ℕ)
    → IsConfigured c.cfg
    → IsLive c now
    → (((my_turn c now).0 ≡ true) ↔ InTurn c.cfg (session_now_ms c now))
      × ((my_turn c now).1 ≡ session_now_ms c now / c.cfg.slot_width_ms)
unfolding my_turn
my_turn_iff c now v live = ground (arith, my_slot-eq c v)

-- The part of the configuration that all nodes of a network share.
abbrev pub SameGeometry : Config → Config → Type 0
SameGeometry a b =
    (a.num_slots ≡ b.num_slots) × (a.slot_width_ms ≡ b.slot_width_ms) × (a.guard_ms ≡ b.guard_ms)

InTurn-exclusive :
    (x y : Config) (s t : ℕ)
    → SameGeometry x y
    → x.node_id - 1 ≢ y.node_id - 1
    → InTurn x s
    → InTurn y t
    → s ≤ t + 2 * x.guard_ms
    → t ≤ s + 2 * x.guard_ms
    → ⊥
InTurn-exclusive x y s t (sn, sw, sg) ne (p, a, b) (q, c, d) le ge =
    ground (arith, slots_apart x.slot_width_ms x.guard_ms s t)

ids_apart :
    (x y : Config)
    → IsConfigured x
    → IsConfigured y
    → x.node_id ≢ y.node_id
    → x.node_id - 1 ≢ y.node_id - 1
ids_apart x y vx vy p = omega arith

-- Two live nodes of one network with different ids never both have the turn at moments whose
-- session times differ by at most twice the guard time.
pub turns_exclusive :
    (a b : Clock) (ta tb : ℕ)
    → IsConfigured a.cfg
    → IsConfigured b.cfg
    → SameGeometry a.cfg b.cfg
    → a.cfg.node_id ≢ b.cfg.node_id
    → IsLive a ta
    → IsLive b tb
    → session_now_ms a ta ≤ session_now_ms b tb + 2 * a.cfg.guard_ms
    → session_now_ms b tb ≤ session_now_ms a ta + 2 * a.cfg.guard_ms
    → ¬ (((my_turn a ta).0 ≡ true) × ((my_turn b tb).0 ≡ true))
turns_exclusive a b ta tb va vb geo ne la lb le ge (ma, mb) =
    InTurn-exclusive a.cfg b.cfg (session_now_ms a ta) (session_now_ms b tb) geo
      (ids_apart a.cfg b.cfg va vb ne) ((my_turn_iff a ta va la).0.0 ma)
      ((my_turn_iff b tb vb lb).0.0 mb) le ge

-- A configured live node other than the first never has the turn in slot 0, the base's slot.
pub base_slot_reserved :
    (c : Clock) (now : ℕ)
    → IsConfigured c.cfg
    → IsLive c now
    → 2 ≤ c.cfg.node_id
    → current_slot_number c now ≡ 0
    → (my_turn c now).0 ≡ false
unfolding current_slot_number
base_slot_reserved c now v live two zero_slot = ground (arith, my_turn_iff c now v live)
