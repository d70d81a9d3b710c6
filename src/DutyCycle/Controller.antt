-- ===== src/DutyCycle/Controller.antt =====
-- The operations of DutyCycleController.cpp. The floating-point test on a trigger reading is the argument
-- `crossed`, from the baseline and the reading. The clock's readings and the sensors' answers are arguments.
use smart_fires_io_t.Base.{
  ℕ, ◌+◌, ◌-◌, ◌==◌, Bool, true, false, not, ◌&&◌, ◌||◌, ltb, leb, if◌then◌else◌, List, [], ◌∷◌,
  Option, none, some,
}
use smart_fires_io_t.Base.Word.{u32, sub_u32}
use smart_fires_io_t.DutyCycle.Types.{
  Phase, not_started, idle_sleeping, warming_up, active_sampling, cooldown_sleeping, error,
  no_error, sensor_begin_failed, battery_begin_failed, sensor_wake_failed, Sensor, DutyConfig,
  Controller, is_always_on, is_triggered, is_timed, Times, Answers,
}

unfoldable pub compute_planned_sleep_ms : DutyConfig → ℕ → ℕ → ℕ
compute_planned_sleep_ms cfg cycle_start_ms now =
    let elapsed = sub_u32 now cycle_start_ms in
    let remaining = if ltb elapsed cfg.cycle_period_ms then cfg.cycle_period_ms - elapsed else 0 in
    if cfg.cycle_period_ms == 0
    then 0
    else if ltb remaining cfg.min_standby_ms
    then cfg.min_standby_ms
    else remaining

-- A sensor that a phase change puts to sleep or wakes.
abbrev pub is_cycled : Bool → Sensor → Bool
is_cycled first_fix_acquired x =
    x.is_set && not (is_always_on x.duty_class) && not (not first_fix_acquired && x.is_first_fix)

-- The loop of `sleepDutyCycledSensors`: whether all went to sleep.
unfoldable pub sleep_from : Bool → (ℕ → Bool) → ℕ → List Sensor → Bool
sleep_from fix sleep_ok i [] = true
sleep_from fix sleep_ok i (x ∷ xs) =
    let rest = sleep_from fix sleep_ok (i + 1) xs in
    if is_cycled fix x then sleep_ok i && rest else rest

-- The loop of `wakeDutyCycledSensors`, which ends at a sensor that does not wake.
unfoldable pub wake_from : Bool → (ℕ → Bool) → ℕ → List Sensor → Bool
wake_from fix wake_ok i [] = true
wake_from fix wake_ok i (x ∷ xs) =
    let rest = wake_from fix wake_ok (i + 1) xs in
    if is_cycled fix x then (if wake_ok i then rest else false) else rest

-- The loop of `beginSensors`: a sensor that does not begin is reset.
unfoldable pub begin_from : (ℕ → Bool) → (ℕ → Bool) → ℕ → List Sensor → Bool
begin_from begin_ok reset_ok i [] = true
begin_from begin_ok reset_ok i (x ∷ xs) =
    let rest = begin_from begin_ok reset_ok (i + 1) xs in
    if not x.is_set then rest else if begin_ok i then rest else if reset_ok i then rest else false

-- The loop of `updateSampling`: whether some sensor was sampled.
unfoldable pub sample_from : Answers → ℕ → List Sensor → Bool
sample_from answers i [] = false
sample_from answers i (x ∷ xs) =
    x.is_set && answers.is_ready i && answers.sample_ok i || sample_from answers (i + 1) xs

-- The loop of `resetSensors`: whether all were reset.
unfoldable pub reset_from : (ℕ → Bool) → ℕ → List Sensor → Bool
reset_from reset_ok i [] = true
reset_from reset_ok i (x ∷ xs) =
    let rest = reset_from reset_ok (i + 1) xs in if x.is_set then reset_ok i && rest else rest

module _ {R : Type 0} where
  unfoldable pub transition_to : Times → Phase → Controller R → Controller R
  unfolding compute_planned_sleep_ms
  transition_to t next c =
      let entered : Controller R = record c { phase = next; phase_start_ms = t.enter_at } in
      elim next [
        | not_started ↦ entered
        | idle_sleeping ↦ entered
        | warming_up ↦ record entered { cycle_start_ms = t.enter_at; active_sample_count = 0 }
        | active_sampling ↦ record entered {
          fresh_sample_ready = false;
          last_sample_ms = sub_u32 t.enter_at c.cfg.sample_period_ms;
        }
        | cooldown_sleeping ↦ record entered {
          sleep_start_ms = t.enter_at;
          trigger_latched = false;
          planned_sleep_ms = compute_planned_sleep_ms c.cfg c.cycle_start_ms t.plan_at;
        }
        | error ↦ entered
      ]

  unfoldable pub wake_sensors : Answers → Controller R → Bool × Controller R
  unfolding wake_from
  wake_sensors answers c =
      if wake_from c.first_fix_acquired answers.wake_ok 0 c.sensors
      then (true, c)
      else (false, record c { duty_error = sensor_wake_failed })

  unfoldable pub begin : Times → Bool → Answers → Controller R → Bool × Controller R
  unfolding begin_from sleep_from wake_sensors transition_to
  begin t battery_ok answers c =
      let fresh : Controller R = record c { duty_error = no_error; first_fix_acquired = false } in
      let (woken, woken_c) = wake_sensors answers fresh in
      if not battery_ok
      then (false, transition_to t error (record fresh { duty_error = battery_begin_failed }))
      else if not (begin_from answers.begin_ok answers.reset_ok 0 c.sensors)
      then (false, transition_to t error (record fresh { duty_error = sensor_begin_failed }))
      else if not (sleep_from false answers.sleep_ok 0 c.sensors)
      then (false, transition_to t error fresh)
      else if not woken
      then (false, transition_to t error woken_c)
      else (true, transition_to t warming_up woken_c)

  unfoldable pub mark_telemetry_sent : Controller R → Controller R
  mark_telemetry_sent c = elim c.phase [
    | active_sampling ↦ record c { fresh_sample_ready = false }
    | not_started ↦ c
    | idle_sleeping ↦ c
    | warming_up ↦ c
    | cooldown_sleeping ↦ c
    | error ↦ c
  ]

  unfoldable pub phase_elapsed_ms : ℕ → Controller R → ℕ
  phase_elapsed_ms now c = sub_u32 now c.phase_start_ms

  unfoldable pub sleep_elapsed_ms : ℕ → Controller R → ℕ
  sleep_elapsed_ms now c = sub_u32 now c.sleep_start_ms

  unfoldable pub active_window_should_close : ℕ → Controller R → Bool
  unfolding phase_elapsed_ms
  active_window_should_close now c =
      let elapsed = phase_elapsed_ms now c in
      if ltb elapsed c.cfg.active_sample_ms
      then false
      else if not c.active_window_hold || c.cfg.active_overrun_max_ms == 0
      then true
      else leb (u32 (c.cfg.active_sample_ms + c.cfg.active_overrun_max_ms)) elapsed

  unfoldable pub update_waking_sensors : Times → Controller R → Controller R
  unfolding phase_elapsed_ms transition_to
  update_waking_sensors t c =
      if leb c.cfg.warmup_ms (phase_elapsed_ms t.test_at c)
      then transition_to t active_sampling c
      else c

  unfoldable pub trigger_wake_enabled : Controller R → Bool
  trigger_wake_enabled c = is_triggered c.cfg.wake_mode

  unfoldable pub timed_wake_enabled : Controller R → Bool
  timed_wake_enabled c = is_timed c.cfg.wake_mode

  -- The end of the active window: `reading` is the trigger sensor's, where it is valid.
  unfoldable pub close_window : Times → Option R → Controller R → Controller R
  unfolding transition_to
  close_window t reading c = transition_to t cooldown_sleeping (record c {
    last_window_sample_count = c.active_sample_count;
    last_window_overran = c.active_window_hold;
    baseline = elim reading [ none ↦ c.baseline | some r ↦ some r ];
    fresh_sample_ready = false;
  })

  unfoldable pub take_samples : Times → Answers → Controller R → Controller R
  unfolding sample_from
  take_samples t answers c =
      let noted : Controller R = record c { last_sample_ms = t.sample_at } in
      if ltb (sub_u32 t.settle_at c.last_sample_ms) c.cfg.sample_period_ms
      then c
      else if sample_from answers 0 c.sensors
      then (record noted {
        fresh_sample_ready = true;
        active_sample_count =
            if ltb c.active_sample_count 0xffff
            then c.active_sample_count + 1
            else c.active_sample_count;
      })
      else noted

  unfoldable pub update_sampling : Times → Answers → Option R → Controller R → Controller R
  unfolding active_window_should_close close_window take_samples
  update_sampling t answers reading c =
      if c.cfg.enabled && active_window_should_close t.test_at c
      then close_window t reading c
      else take_samples t answers c

  unfoldable pub sample_sleep_trigger :
      (R → R → Bool) → Bool → Option R → Controller R → Controller R
  unfolding trigger_wake_enabled
  sample_sleep_trigger crossed sampled none c = c
  sample_sleep_trigger crossed sampled (some r) c =
      if not (trigger_wake_enabled c) || not sampled then c else elim c.baseline [
        | none ↦ record c { baseline = some r }
        | some b ↦ record c { trigger_latched = crossed b r || c.trigger_latched }
      ]

  unfoldable pub wake_is_due : ℕ → Controller R → Bool
  unfolding sleep_elapsed_ms trigger_wake_enabled timed_wake_enabled
  wake_is_due now c =
      let elapsed = sleep_elapsed_ms now c in
      trigger_wake_enabled c && c.trigger_latched && leb c.cfg.min_sleep_ms elapsed
      || timed_wake_enabled c && ltb 0 c.planned_sleep_ms && leb c.planned_sleep_ms elapsed

  unfoldable pub wake_from_sleep_if_needed : Times → Answers → Controller R → Bool × Controller R
  unfolding wake_is_due wake_sensors transition_to
  wake_from_sleep_if_needed t answers c =
      let (woken, c') = wake_sensors answers c in
      if not (wake_is_due t.test_at c)
      then (false, c)
      else if not woken
      then (true, transition_to t error c')
      else (true, transition_to t warming_up c')

  unfoldable pub update_cooldown_sleeping : Times → Answers → Controller R → Controller R
  unfolding wake_from_sleep_if_needed sleep_elapsed_ms transition_to
  update_cooldown_sleeping t answers c =
      let (woken, c') = wake_from_sleep_if_needed t answers c in
      if woken
      then c'
      else if leb c.cfg.min_sleep_ms (sleep_elapsed_ms t.settle_at c)
      then transition_to t idle_sleeping c'
      else c'
