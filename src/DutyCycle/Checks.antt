-- ===== src/DutyCycle/Checks.antt =====
-- Runs of the duty cycle, and the theorems applied to them.
use smart_fires_io_t.Base.{
  ℕ, ◌+◌, ◌≡◌, ◌⊎◌, [], ◌∷◌, Bool, true, false, ◌||◌, ltb, leb, none, some, arith, refl,
}
use smart_fires_io_t.Base.Word.{u32}
use smart_fires_io_t.DutyCycle.Types.{
  Controller, DutyConfig, Times, Answers, Input, timed, duty_cycled, always_on, active_sampling,
  cooldown_sleeping, no_error,
}
use smart_fires_io_t.DutyCycle.Controller.{
  active_window_should_close, close_window, wake_is_due, update_sampling, phase_elapsed_ms,
  transition_to,
}
use smart_fires_io_t.DutyCycle.Update.{update, update_enabled, update_first_fix_state}
use smart_fires_io_t.DutyCycle.Phases.{Change, update-Change}
use smart_fires_io_t.DutyCycle.Sampled.{TakesNoSample}
use smart_fires_io_t.DutyCycle.Periods.{cycle_keeps_period}

-- Ten minutes, of which one is sampled after a warm-up of 15 seconds.
abbrev timed_cfg : DutyConfig
timed_cfg = record {
  wake_mode = timed;
  min_sleep_ms = 3000;
  active_sample_ms = 60000;
  sample_period_ms = 1000;
  warmup_ms = 15000;
  cycle_period_ms = 600000;
  min_standby_ms = 30000;
  active_overrun_max_ms = 5000;
  enabled = true;
}

-- Readings of the trigger are numbers here.
abbrev sampling : Controller ℕ
sampling = record {
  cfg = timed_cfg;
  sensors =
      record { is_set = true; duty_class = duty_cycled; is_first_fix = false }
      ∷ record { is_set = true; duty_class = always_on; is_first_fix = true }
      ∷ [];
  fresh_sample_ready = true;
  first_fix_acquired = true;
  phase = active_sampling;
  duty_error = no_error;
  baseline = none;
  phase_start_ms = 1015000;
  last_sample_ms = 1074000;
  sleep_start_ms = 0;
  trigger_latched = false;
  cycle_start_ms = 1000000;
  active_window_hold = false;
  active_sample_count = 60;
  last_window_sample_count = 0;
  last_window_overran = false;
  planned_sleep_ms = 0;
}

abbrev times_at : ℕ → Times
times_at now = record {
  test_at = now;
  settle_at = now;
  sample_at = now;
  enter_at = now;
  plan_at = now;
}

abbrev answers : Answers
answers = record {
  begin_ok = λ i. true;
  reset_ok = λ i. true;
  sleep_ok = λ i. true;
  wake_ok = λ i. true;
  is_ready = λ i. true;
  sample_ok = λ i. true;
}

abbrev input_at : ℕ → Input ℕ
input_at now = record {
  times = times_at now;
  answers = answers;
  has_fix = true;
  trigger_sampled = true;
  reading = some 20;
}

abbrev apart_by_one : ℕ → ℕ → Bool
apart_by_one baseline reading = ltb baseline reading || ltb reading baseline

update-Change_example :
    let c' = update apart_by_one (input_at 1076000) sampling in
    Change true active_sampling c'.phase
    × ((sampling.phase ≡ active_sampling) ⊎ TakesNoSample sampling c')
update-Change_example = update-Change apart_by_one (input_at 1076000) sampling

-- The window closes, the cycle sleeps for the rest of its period, and then it warms up again.
window_closes : (update apart_by_one (input_at 1076000) sampling).phase ≡ cooldown_sleeping
unfolding update update_enabled update_sampling active_window_should_close phase_elapsed_ms
    close_window transition_to update_first_fix_state
window_closes = refl

-- The sleep is planned 10 ms after the window has closed.
abbrev closing_times : Times
closing_times = record (times_at 1076000) { plan_at = 1076010 }

cycle_keeps_period_example :
    wake_is_due (u32 (1000000 + 599990)) (close_window closing_times (some 20) sampling)
    ≡ leb 600000 (599990 + 10)
cycle_keeps_period_example =
    cycle_keeps_period closing_times (some 20) sampling 76000 10 599990 refl (omega arith)
      (omega arith) (omega arith) (omega arith) (omega arith) (omega arith) (omega arith)
      (omega arith)

abbrev asleep : Controller ℕ
asleep = record sampling {
  phase = cooldown_sleeping;
  sleep_start_ms = 1076000;
  planned_sleep_ms = 524000;
}
