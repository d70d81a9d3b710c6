-- ===== src/DutyCycle/Phases.antt =====
-- The phase changes of DutyCycleController.cpp.
use smart_fires_io_t.Base.{
  ◌≡◌, ◌⊎◌, refl, sym, subst, ◌∙◌, Bool, true, false, not, ◌&&◌, if◌then◌else◌, if_both, leb,
  Option, none, some, arith,
}
use smart_fires_io_t.DutyCycle.Types.{
  Phase, not_started, idle_sleeping, warming_up, active_sampling, cooldown_sleeping, error,
  Controller, Times, Answers, Input,
}
use smart_fires_io_t.DutyCycle.Controller.{
  active_window_should_close, sleep_elapsed_ms, transition_to, update_waking_sensors,
  update_sampling, close_window, take_samples, sample_sleep_trigger, wake_sensors,
  wake_from_sleep_if_needed, wake_is_due, update_cooldown_sleeping,
}
use smart_fires_io_t.DutyCycle.Update.{
  update_disabled, update_enabled, update_first_fix_state, update,
}
use smart_fires_io_t.DutyCycle.Sampled.{TakesNoSample, update-TakesNoSample}

-- The phase changes that one call of `update` may make, with the cycle disabled or enabled.
pub data Change : Bool → Phase → Phase → Type 0 where
  stays : (enabled : Bool) (p : Phase) → Change enabled p p
  warmed : (enabled : Bool) → Change enabled warming_up active_sampling
  closed : Change true active_sampling cooldown_sleeping
  settled : Change true cooldown_sleeping idle_sleeping
  woken_early : Change true cooldown_sleeping warming_up
  woken : Change true idle_sleeping warming_up
  stuck_early : Change true cooldown_sleeping error
  stuck : Change true idle_sleeping error
  started : Change false not_started active_sampling
  resumed : Change false idle_sleeping active_sampling
  resumed_early : Change false cooldown_sleeping active_sampling

module _ {R : Type 0} where
  phase-take_samples :
      (t : Times) (answers : Answers) (c : Controller R)
      → (take_samples t answers c).phase ≡ c.phase
  unfolding take_samples
  phase-take_samples t answers c = ground arith

  phase-sample_sleep_trigger :
      (crossed : R → R → Bool) (sampled : Bool) (reading : Option R) (c : Controller R)
      → (sample_sleep_trigger crossed sampled reading c).phase ≡ c.phase
  unfolding sample_sleep_trigger
  phase-sample_sleep_trigger crossed sampled none c = refl
  phase-sample_sleep_trigger crossed sampled (some r) c = ground arith

  Change-waking :
      (enabled : Bool) (t : Times) (c : Controller R) (p : Phase)
      → c.phase ≡ p
      → Change enabled p active_sampling
      → Change enabled p (update_waking_sensors t c).phase
  unfolding update_waking_sensors transition_to
  Change-waking enabled t c p at change =
      if_both (λ (d : Controller R). Change enabled p d.phase) _ change
        (subst (Change enabled p) (sym at) (stays enabled p))

  Change-sampling :
      (t : Times) (answers : Answers) (reading : Option R) (c : Controller R)
      → c.phase ≡ active_sampling
      → Change c.cfg.enabled active_sampling (update_sampling t answers reading c).phase
  unfolding update_sampling close_window transition_to
  Change-sampling t answers reading c at =
      let same : (take_samples t answers c).phase ≡ active_sampling =
        phase-take_samples t answers c ∙ at in
      let sampled : Change c.cfg.enabled active_sampling (take_samples t answers c).phase =
        subst (Change c.cfg.enabled active_sampling) (sym same)
          (stays c.cfg.enabled active_sampling) in
      elim c.cfg.enabled
          as (λ b.
            Change b active_sampling (take_samples t answers c).phase
            → Change b active_sampling
                (if b && active_window_should_close t.test_at c
                  then close_window t reading c
                  else take_samples t answers c).phase) [
                    | true ↦ λ h.
                        if_both (λ (d : Controller R). Change true active_sampling d.phase)
                          (active_window_should_close t.test_at c) closed h
                    | false ↦ λ h. h
                  ]
        sampled

  -- What a wake-up from sleep may do to the phase.
  Change-wake :
      (t : Times) (answers : Answers) (c : Controller R) (p : Phase)
      → c.phase ≡ p
      → Change true p warming_up
      → Change true p error
      → Change true p (wake_from_sleep_if_needed t answers c).1.phase
  unfolding wake_from_sleep_if_needed transition_to
  Change-wake t answers c p at wakes fails =
      let P : Bool × Controller R → Type 0 = λ r. Change true p r.1.phase in
      if_both P (not (wake_is_due t.test_at c)) (subst (Change true p) (sym at) (stays true p))
        (if_both P (not (wake_sensors answers c).0) fails wakes)

  -- Where it reports no wake-up, the phase is as it was.
  phase_not_woken :
      (t : Times) (answers : Answers) (c : Controller R)
      → (wake_from_sleep_if_needed t answers c).0 ≡ false
      → (wake_from_sleep_if_needed t answers c).1.phase ≡ c.phase
  unfolding wake_from_sleep_if_needed
  phase_not_woken t answers c h = ground (arith, h)

  Change-cooldown :
      (t : Times) (answers : Answers) (c : Controller R)
      → c.phase ≡ cooldown_sleeping
      → Change true cooldown_sleeping (update_cooldown_sleeping t answers c).phase
  unfolding update_cooldown_sleeping transition_to
  Change-cooldown t answers c at =
      let wake = Change-wake t answers c cooldown_sleeping at woken_early stuck_early in
      let P : Controller R → Type 0 = λ d. Change true cooldown_sleeping d.phase in
      if_both P (wake_from_sleep_if_needed t answers c).0 wake
        (if_both P (leb c.cfg.min_sleep_ms (sleep_elapsed_ms t.settle_at c)) settled wake)

  Change-disabled :
      (p : Phase) (n : Input R) (c : Controller R)
      → c.phase ≡ p
      → c.cfg.enabled ≡ false
      → Change false p (update_disabled p n c).phase
  unfolding update_disabled transition_to
  Change-disabled not_started n c at off = Change-waking false n.times c not_started at started
  Change-disabled idle_sleeping n c at off = Change-waking false n.times c idle_sleeping at resumed
  Change-disabled warming_up n c at off = Change-waking false n.times c warming_up at (warmed false)
  Change-disabled active_sampling n c at off =
      subst (λ b. Change b active_sampling (update_sampling n.times n.answers n.reading c).phase)
        off (Change-sampling n.times n.answers n.reading c at)
  Change-disabled cooldown_sleeping n c at off = resumed_early
  Change-disabled error n c at off = subst (Change false error) (sym at) (stays false error)

  Change-enabled :
      (crossed : R → R → Bool) (p : Phase) (n : Input R) (c : Controller R)
      → c.phase ≡ p
      → c.cfg.enabled ≡ true
      → Change true p (update_enabled crossed p n c).phase
  unfolding update_enabled
  Change-enabled crossed not_started n c at on =
      subst (Change true not_started) (sym at) (stays true not_started)
  Change-enabled crossed idle_sleeping n c at on =
      let c' = sample_sleep_trigger crossed n.trigger_sampled n.reading c in
      Change-wake n.times n.answers c' idle_sleeping
        (phase-sample_sleep_trigger crossed n.trigger_sampled n.reading c ∙ at) woken stuck
  Change-enabled crossed warming_up n c at on =
      Change-waking true n.times c warming_up at (warmed true)
  Change-enabled crossed active_sampling n c at on =
      subst (λ b. Change b active_sampling (update_sampling n.times n.answers n.reading c).phase) on
        (Change-sampling n.times n.answers n.reading c at)
  Change-enabled crossed cooldown_sleeping n c at on =
      let c' = sample_sleep_trigger crossed n.trigger_sampled n.reading c in
      Change-cooldown n.times n.answers c'
        (phase-sample_sleep_trigger crossed n.trigger_sampled n.reading c ∙ at)
  Change-enabled crossed error n c at on = subst (Change true error) (sym at) (stays true error)

  update_phase :
      (crossed : R → R → Bool) (n : Input R) (c : Controller R)
      → Change c.cfg.enabled c.phase (update crossed n c).phase
  unfolding update update_first_fix_state
  update_phase crossed n c =
      let c' = update_first_fix_state n.has_fix c in
      let off = Change-disabled c.phase n c' refl in
      let on = Change-enabled crossed c.phase n c' refl in
      elim c.cfg.enabled
          as (λ b.
            c.cfg.enabled ≡ b
            → Change b c.phase
                (if not b
                  then update_disabled c.phase n c'
                  else update_enabled crossed c.phase n c').phase) [ true ↦ on | false ↦ off ]
        refl

  -- Whatever the clock, the sensors and the trigger answer, one call of `update` keeps the phase or makes one
  -- of these changes. With the cycle enabled: from warming up to sampling, from sampling to the cooldown
  -- sleep, from that to the idle sleep, and from either sleep to warming up or to the error. With the cycle
  -- disabled: from warming up, from either sleep or from the phase before the start to sampling. And unless the
  -- phase was sampling, the call counts no sample and makes none ready; it may clear them.
  pub update-Change :
      (crossed : R → R → Bool) (n : Input R) (c : Controller R)
      → let c' = update crossed n c in
        Change c.cfg.enabled c.phase c'.phase × ((c.phase ≡ active_sampling) ⊎ TakesNoSample c c')
  update-Change crossed n c = (update_phase crossed n c, update-TakesNoSample crossed n c)
