-- ===== src/DutyCycle/Update.antt =====
-- `update` of DutyCycleController.cpp, by phase, and what the node asks of the controller.
use smart_fires_io_t.Base.{ℕ, ◌-◌, Bool, true, false, not, ◌&&◌, ◌||◌, leb, if◌then◌else◌}
use smart_fires_io_t.DutyCycle.Types.{
  Phase, not_started, idle_sleeping, warming_up, active_sampling, cooldown_sleeping, error, Mode,
  continuous, sensor_triggered, timed, hybrid, Controller, Answers, Input,
}
use smart_fires_io_t.DutyCycle.Controller.{
  transition_to, update_waking_sensors, update_sampling, sample_sleep_trigger,
  wake_from_sleep_if_needed, update_cooldown_sleeping, sleep_elapsed_ms, reset_from,
}

abbrev pub is_sleeping : Phase → Bool
is_sleeping not_started = false
is_sleeping idle_sleeping = true
is_sleeping warming_up = false
is_sleeping active_sampling = false
is_sleeping cooldown_sleeping = true
is_sleeping error = false

abbrev pub is_active : Phase → Bool
is_active not_started = false
is_active idle_sleeping = false
is_active warming_up = false
is_active active_sampling = true
is_active cooldown_sleeping = false
is_active error = false

abbrev pub is_timed_only : Mode → Bool
is_timed_only continuous = false
is_timed_only sensor_triggered = false
is_timed_only timed = true
is_timed_only hybrid = false

module _ {R : Type 0} where
  -- `update` while the cycle is disabled.
  unfoldable pub update_disabled : Phase → Input R → Controller R → Controller R
  unfolding update_waking_sensors update_sampling transition_to
  update_disabled not_started n c = update_waking_sensors n.times c
  update_disabled idle_sleeping n c = update_waking_sensors n.times c
  update_disabled warming_up n c = update_waking_sensors n.times c
  update_disabled active_sampling n c = update_sampling n.times n.answers n.reading c
  update_disabled cooldown_sleeping n c = transition_to n.times active_sampling c
  update_disabled error n c = c

  unfoldable pub update_enabled : (R → R → Bool) → Phase → Input R → Controller R → Controller R
  unfolding update_waking_sensors update_sampling sample_sleep_trigger wake_from_sleep_if_needed
      update_cooldown_sleeping
  update_enabled crossed not_started n c = c
  update_enabled crossed idle_sleeping n c =
      (wake_from_sleep_if_needed n.times n.answers
        (sample_sleep_trigger crossed n.trigger_sampled n.reading c)).1
  update_enabled crossed warming_up n c = update_waking_sensors n.times c
  update_enabled crossed active_sampling n c = update_sampling n.times n.answers n.reading c
  update_enabled crossed cooldown_sleeping n c =
      update_cooldown_sleeping n.times n.answers
        (sample_sleep_trigger crossed n.trigger_sampled n.reading c)
  update_enabled crossed error n c = c

  unfoldable pub update_first_fix_state : Bool → Controller R → Controller R
  update_first_fix_state has_fix c = record c {
    first_fix_acquired = c.first_fix_acquired || has_fix;
  }

  unfoldable pub update : (R → R → Bool) → Input R → Controller R → Controller R
  unfolding update_first_fix_state update_disabled update_enabled
  update crossed n c =
      let c' = update_first_fix_state n.has_fix c in
      if not c.cfg.enabled
      then update_disabled c.phase n c'
      else update_enabled crossed c.phase n c'

  -- `ready` and `refreshed` are the first-fix sensor's answers.
  unfoldable pub refresh_first_fix_sensor : Bool → Bool → Bool → Controller R → Bool × Controller R
  unfolding update_first_fix_state
  refresh_first_fix_sensor ready refreshed has_fix c =
      if not ready
      then (false, c)
      else if refreshed
      then (true, update_first_fix_state has_fix c)
      else (false, c)

  unfoldable pub set_active_window_hold : Bool → Controller R → Controller R
  set_active_window_hold hold c = record c { active_window_hold = hold }

  unfoldable pub change_enable_state : Bool → Controller R → Controller R
  change_enable_state enabled c =
      let cfg = c.cfg in record c { cfg = record cfg { enabled = enabled } }

  unfoldable pub reset_sensors : Answers → Controller R → Bool × Controller R
  unfolding reset_from
  reset_sensors answers c =
      (reset_from answers.reset_ok 0 c.sensors, record c { first_fix_acquired = false })

  unfoldable pub telemetry_ready : Controller R → Bool
  telemetry_ready c = is_active c.phase && c.fresh_sample_ready

  unfoldable pub mode : Controller R → Mode
  mode c = if not c.cfg.enabled then continuous else c.cfg.wake_mode

  unfoldable pub timed_sleep_remaining_ms : ℕ → Controller R → ℕ
  unfolding mode sleep_elapsed_ms
  timed_sleep_remaining_ms now c =
      let elapsed = sleep_elapsed_ms now c in
      if not (is_timed_only (mode c)) || not (is_sleeping c.phase)
      then 0
      else if leb c.planned_sleep_ms elapsed
      then 0
      else c.planned_sleep_ms - elapsed
