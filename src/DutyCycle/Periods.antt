-- ===== src/DutyCycle/Periods.antt =====
-- The times of DutyCycleController.cpp: the active window, the planned sleep and the period of the cycle.
use smart_fires_io_t.Base.{
  ℕ, ◌+◌, ◌-◌, ◌≤◌, ◌<◌, ◌≡◌, ◌==◌, true, false, not, ◌&&◌, ltb, leb, if◌then◌else◌, Option, arith,
}
use smart_fires_io_t.Base.Word.{u32, u32_mod, sub_u32}
use smart_fires_io_t.DutyCycle.Types.{timed, DutyConfig, Controller, Times}
use smart_fires_io_t.DutyCycle.Controller.{
  compute_planned_sleep_ms, transition_to, close_window, wake_is_due, active_window_should_close,
  phase_elapsed_ms, sleep_elapsed_ms, trigger_wake_enabled, timed_wake_enabled,
}
use smart_fires_io_t.DutyCycle.Update.{timed_sleep_remaining_ms, mode, is_sleeping}

-- With a cycle period, the planned sleep is never below the minimum standby, and the part of the cycle that is
-- over and the planned sleep together last at least the period. They last exactly the period where what
-- is left of it is at least the minimum standby.
pub planned_sleep_bounds :
    (cfg : DutyConfig) (start now : ℕ)
    → 0 < cfg.cycle_period_ms
    → let elapsed = sub_u32 now start in
      let planned = compute_planned_sleep_ms cfg start now in
      (cfg.min_standby_ms ≤ planned)
      × (cfg.cycle_period_ms ≤ elapsed + planned)
      × (elapsed + planned ≡ (
          if leb (elapsed + cfg.min_standby_ms) cfg.cycle_period_ms
          then cfg.cycle_period_ms
          else elapsed + cfg.min_standby_ms))
unfolding compute_planned_sleep_ms
planned_sleep_bounds cfg start now h = ground (arith, h)

module _ {R : Type 0} where
  -- The active window stays open for the sampling time, closes at its end unless it is held, and closes at the
  -- latest after the sampling time and the allowed overrun, where that sum does not wrap.
  pub active_window_bounds :
      (now : ℕ) (c : Controller R)
      → c.cfg.active_sample_ms + c.cfg.active_overrun_max_ms < u32_mod
      → let elapsed = sub_u32 now c.phase_start_ms in
        let closes = active_window_should_close now c in
        (ltb elapsed c.cfg.active_sample_ms && closes ≡ false)
        × (leb c.cfg.active_sample_ms elapsed && not c.active_window_hold && not closes ≡ false)
        × (leb (c.cfg.active_sample_ms + c.cfg.active_overrun_max_ms) elapsed && not closes ≡ false)
  unfolding active_window_should_close phase_elapsed_ms
  active_window_bounds now c h = ground (arith, h)

  -- When the next cycle is due: in timed mode, where the window closes `spent` after the cycle's start, the sleep
  -- is planned `between` later, by a second reading of the clock, and what is then left of the period is at
  -- least the minimum standby and more than nothing, the wake-up is due `passed` after the cycle's start, at or
  -- after the closing, if and only if `passed` and `between` together are at least the period, where that sum
  -- and the period are below 2^32 ms. So the cycle keeps its period where both readings agree, and else is
  -- early by the time between them. The clock may wrap meanwhile.
  pub cycle_keeps_period :
      (t : Times) (reading : Option R) (c : Controller R) (spent between passed : ℕ)
      → c.cfg.wake_mode ≡ timed
      → c.cycle_start_ms < u32_mod
      → t.enter_at ≡ u32 (c.cycle_start_ms + spent)
      → t.plan_at ≡ u32 (c.cycle_start_ms + (spent + between))
      → spent + between < c.cfg.cycle_period_ms
      → spent + between + c.cfg.min_standby_ms ≤ c.cfg.cycle_period_ms
      → c.cfg.cycle_period_ms < u32_mod
      → spent ≤ passed
      → passed + between < u32_mod
      → wake_is_due (u32 (c.cycle_start_ms + passed)) (close_window t reading c)
        ≡ leb c.cfg.cycle_period_ms (passed + between)
  unfolding wake_is_due close_window transition_to trigger_wake_enabled timed_wake_enabled
      sleep_elapsed_ms compute_planned_sleep_ms
  cycle_keeps_period t reading c spent between passed is_timed start enter plan left room period
        after within =
      let start_ms = c.cycle_start_ms in
      let asleep : sub_u32 (u32 (start_ms + passed)) (u32 (start_ms + spent)) ≡ passed - spent =
        omega arith in
      let elapsed : sub_u32 (u32 (start_ms + (spent + between))) start_ms ≡ spent + between =
        omega arith in
      rw (is_timed, plan, enter, asleep, elapsed) (ground arith)

  -- A standby of the remaining time suffices: in timed mode and asleep, with a planned sleep, the wake-up is due
  -- as soon as `timedSleepRemainingMs` is 0, and after the remaining time it is due.
  pub standby_reaches_wake :
      (now : ℕ) (c : Controller R)
      → mode c ≡ timed
      → c.cfg.wake_mode ≡ timed
      → is_sleeping c.phase ≡ true
      → 0 < c.planned_sleep_ms
      → c.planned_sleep_ms < u32_mod
      → c.sleep_start_ms < u32_mod
      → now < u32_mod
      → (wake_is_due now c ≡ (timed_sleep_remaining_ms now c == 0))
        × (wake_is_due (u32 (now + timed_sleep_remaining_ms now c)) c ≡ true)
  unfolding wake_is_due timed_sleep_remaining_ms trigger_wake_enabled timed_wake_enabled
      sleep_elapsed_ms
  standby_reaches_wake now c is_mode is_timed asleep planned small start clock =
      let elapsed = sub_u32 now c.sleep_start_ms in
      let wakes : elapsed < c.planned_sleep_ms
          → sub_u32 (u32 (now + (c.planned_sleep_ms - elapsed))) c.sleep_start_ms
            ≡ c.planned_sleep_ms =
        λ h. omega (arith, h) in
      let still : sub_u32 (u32 (now + 0)) c.sleep_start_ms ≡ elapsed = omega arith in
      ground (arith, is_mode, is_timed, asleep, wakes, still)
