-- ===== src/DutyCycle/Types.antt =====
-- The types of DutyCycleController (platformio/include/power/DutyCycleController.h). A trigger reading is a
-- value of any type `R`, and a baseline that is NaN is `none`.
use smart_fires_io_t.Base.{ℕ, Bool, true, false, List, Option}

pub data Phase : Type 0 where
  not_started idle_sleeping warming_up active_sampling cooldown_sleeping error : Phase

pub data DutyError : Type 0 where
  no_error sensor_begin_failed battery_begin_failed sensor_wake_failed : DutyError

pub data Mode : Type 0 where
  continuous sensor_triggered timed hybrid : Mode

pub data DutyClass : Type 0 where
  always_on duty_cycled warmup_heavy on_demand perodic : DutyClass

-- A sensor of the array: whether the pointer is set, its class, and whether it is the first-fix sensor.
pub record Sensor : Type 0 where
  pub is_set : Bool
  pub duty_class : DutyClass
  pub is_first_fix : Bool

pub record DutyConfig : Type 0 where
  pub wake_mode : Mode
  pub min_sleep_ms : ℕ
  pub active_sample_ms : ℕ
  pub sample_period_ms : ℕ
  pub warmup_ms : ℕ
  pub cycle_period_ms : ℕ
  pub min_standby_ms : ℕ
  pub active_overrun_max_ms : ℕ
  pub enabled : Bool

pub record Controller (R : Type 0) : Type 0 where
  pub cfg : DutyConfig
  pub sensors : List Sensor
  pub fresh_sample_ready : Bool
  pub first_fix_acquired : Bool
  pub phase : Phase
  pub duty_error : DutyError
  pub baseline : Option R
  pub phase_start_ms : ℕ
  pub last_sample_ms : ℕ
  pub sleep_start_ms : ℕ
  pub trigger_latched : Bool
  pub cycle_start_ms : ℕ
  pub active_window_hold : Bool
  pub active_sample_count : ℕ
  pub last_window_sample_count : ℕ
  pub last_window_overran : Bool
  pub planned_sleep_ms : ℕ

abbrev pub is_always_on : DutyClass → Bool
is_always_on always_on = true
is_always_on duty_cycled = false
is_always_on warmup_heavy = false
is_always_on on_demand = false
is_always_on perodic = false

abbrev pub is_triggered : Mode → Bool
is_triggered continuous = false
is_triggered sensor_triggered = true
is_triggered timed = false
is_triggered hybrid = true

abbrev pub is_timed : Mode → Bool
is_timed continuous = false
is_timed sensor_triggered = false
is_timed timed = true
is_timed hybrid = true

-- What the clock reads in one call, in the order in which the code asks: at the tests, at the second test
-- of a cooldown, where a sample is noted, where a phase is entered, and where the sleep is planned.
pub record Times : Type 0 where
  pub test_at : ℕ
  pub settle_at : ℕ
  pub sample_at : ℕ
  pub enter_at : ℕ
  pub plan_at : ℕ

-- The answers of the sensor at an index.
pub record Answers : Type 0 where
  pub begin_ok : ℕ → Bool
  pub reset_ok : ℕ → Bool
  pub sleep_ok : ℕ → Bool
  pub wake_ok : ℕ → Bool
  pub is_ready : ℕ → Bool
  pub sample_ok : ℕ → Bool

-- The answers of the sensors and of the trigger sensor in one call of `update`: whether the first-fix
-- sensor has a fix, whether the trigger sensor was ready and sampled, and its reading where it is valid.
pub record Input (R : Type 0) : Type 0 where
  pub times : Times
  pub answers : Answers
  pub has_fix : Bool
  pub trigger_sampled : Bool
  pub reading : Option R
