-- ===== src/Tdma/Clock/RxWindow.antt =====
-- When a node listens: `baseRxWindowOpen` against the base's slot on the session's time line.
use smart_fires_io_t.Base.{ℕ, ◌+◌, ◌-◌, ◌/◌, ◌%◌, ◌≤◌, ◌<◌, ◌≡◌, ◌≢◌, ◌↔◌, ◌⊎◌, true, arith}
use smart_fires_io_t.Base.Division.{div-add_same, div-add_next, mod-suc}
use smart_fires_io_t.Base.Word.{u32_mod}
use smart_fires_io_t.Tdma.Clock.{
  Config, Clock, session_now_ms, base_rx_window_open, current_slot_index,
}
use smart_fires_io_t.Tdma.Clock.Session.{IsLive}

-- The wake-ahead is at most one slot, and the slot numbers fit a byte.
pub record CanListen (cfg : Config) : Type 0 where
  pub some_slot : 0 < cfg.num_slots
  pub slots_fit : cfg.num_slots < 256
  pub some_width : 0 < cfg.slot_width_ms
  pub wake_fits : cfg.rx_wake_ahead_ms ≤ cfg.slot_width_ms
  pub width_fits : cfg.slot_width_ms < u32_mod

-- The session moment `s` lies in the base's slot.
abbrev pub InBaseSlot : Config → ℕ → Type 0
InBaseSlot cfg s = s / cfg.slot_width_ms % cfg.num_slots ≡ 0

-- The next slot boundary decides where the moment `e` later lies.
later_slot :
    (s e w n : ℕ)
    → 0 < w
    → 0 < n
    → e ≤ w
    → s / w % n ≢ 0
    → ((s + e) / w % n ≡ 0) ↔ ((s / w % n ≡ n - 1) × (w ≤ s % w + e))
later_slot s e w n pw pn he ne =
    ground (arith, div-add_same s e w, div-add_next s e w, mod-suc (s / w) n)

-- A node with a live sync listens exactly when the base's slot is running or begins within the
-- wake-ahead time.
pub base_rx_window_iff :
    (c : Clock) (now : ℕ)
    → CanListen c.cfg
    → IsLive c now
    → (base_rx_window_open c now ≡ true) ↔ (
        InBaseSlot c.cfg (session_now_ms c now)
        ⊎ InBaseSlot c.cfg (session_now_ms c now + c.cfg.rx_wake_ahead_ms))
unfolding base_rx_window_open current_slot_index
base_rx_window_iff c now v live = ground (
  arith,
  later_slot (session_now_ms c now) c.cfg.rx_wake_ahead_ms c.cfg.slot_width_ms c.cfg.num_slots,
)
