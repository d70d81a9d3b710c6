-- ===== src/DutyCycle/Sampled.antt =====
-- When DutyCycleController.cpp samples: only in the phase that is for it.
use smart_fires_io_t.Base.{
  ◌≡◌, ◌⊎◌, inl, inr, refl, Bool, false, not, if_both, Option, none, some, arith,
}
use smart_fires_io_t.DutyCycle.Types.{
  Phase, not_started, idle_sleeping, warming_up, active_sampling, cooldown_sleeping, error,
  Controller, Times, Answers, Input,
}
use smart_fires_io_t.DutyCycle.Controller.{
  transition_to, update_waking_sensors, sample_sleep_trigger, wake_sensors,
  wake_from_sleep_if_needed, update_cooldown_sleeping,
}
use smart_fires_io_t.DutyCycle.Update.{
  update_disabled, update_enabled, update_first_fix_state, update,
}

module _ {R : Type 0} where
  -- No sample is counted and none is made ready between two states; a count or a ready sample may be cleared.
  abbrev pub TakesNoSample : Controller R → Controller R → Type 0
  TakesNoSample c d =
      ((d.active_sample_count ≡ c.active_sample_count) ⊎ (d.active_sample_count ≡ 0))
      × ((d.fresh_sample_ready ≡ c.fresh_sample_ready) ⊎ (d.fresh_sample_ready ≡ false))

  TakesNoSample-refl : (c : Controller R) → TakesNoSample c c
  TakesNoSample-refl c = (inl refl, inl refl)

  TakesNoSample-waking :
      (t : Times) (c : Controller R) → TakesNoSample c (update_waking_sensors t c)
  unfolding update_waking_sensors transition_to
  TakesNoSample-waking t c =
      if_both (λ (d : Controller R). TakesNoSample c d) _ (inl refl, inr refl)
        (TakesNoSample-refl c)

  -- A wake-up, after the trigger was read.
  TakesNoSample-wake :
      (t : Times) (answers : Answers) (c : Controller R)
      → TakesNoSample c (wake_from_sleep_if_needed t answers c).1
  unfolding wake_from_sleep_if_needed wake_sensors transition_to
  TakesNoSample-wake t answers c = ground arith

  TakesNoSample-cooldown :
      (t : Times) (answers : Answers) (c : Controller R)
      → TakesNoSample c (update_cooldown_sleeping t answers c)
  unfolding update_cooldown_sleeping transition_to
  TakesNoSample-cooldown t answers c = ground (arith, TakesNoSample-wake t answers c)

  samples_of_trigger :
      (crossed : R → R → Bool) (sampled : Bool) (reading : Option R) (c : Controller R)
      → let d = sample_sleep_trigger crossed sampled reading c in
        (d.active_sample_count ≡ c.active_sample_count)
        × (d.fresh_sample_ready ≡ c.fresh_sample_ready)
  unfolding sample_sleep_trigger
  samples_of_trigger crossed sampled none c = (refl, refl)
  samples_of_trigger crossed sampled (some r) c = ground arith

  disabled_samples :
      (p : Phase) (n : Input R) (c : Controller R)
      → (p ≡ active_sampling) ⊎ TakesNoSample c (update_disabled p n c)
  unfolding update_disabled transition_to
  disabled_samples not_started n c = inr (TakesNoSample-waking n.times c)
  disabled_samples idle_sleeping n c = inr (TakesNoSample-waking n.times c)
  disabled_samples warming_up n c = inr (TakesNoSample-waking n.times c)
  disabled_samples active_sampling n c = inl refl
  disabled_samples cooldown_sleeping n c = inr (inl refl, inr refl)
  disabled_samples error n c = inr (TakesNoSample-refl c)

  enabled_samples :
      (crossed : R → R → Bool) (p : Phase) (n : Input R) (c : Controller R)
      → (p ≡ active_sampling) ⊎ TakesNoSample c (update_enabled crossed p n c)
  unfolding update_enabled
  enabled_samples crossed not_started n c = inr (TakesNoSample-refl c)
  enabled_samples crossed idle_sleeping n c =
      let c' = sample_sleep_trigger crossed n.trigger_sampled n.reading c in
      inr (
        ground (
          arith,
          samples_of_trigger crossed n.trigger_sampled n.reading c,
          TakesNoSample-wake n.times n.answers c',
        ))
  enabled_samples crossed warming_up n c = inr (TakesNoSample-waking n.times c)
  enabled_samples crossed active_sampling n c = inl refl
  enabled_samples crossed cooldown_sleeping n c =
      let c' = sample_sleep_trigger crossed n.trigger_sampled n.reading c in
      inr (
        ground (
          arith,
          samples_of_trigger crossed n.trigger_sampled n.reading c,
          TakesNoSample-cooldown n.times n.answers c',
        ))
  enabled_samples crossed error n c = inr (TakesNoSample-refl c)

  -- Outside the sampling phase a call of `update` takes no sample.
  pub update-TakesNoSample :
      (crossed : R → R → Bool) (n : Input R) (c : Controller R)
      → (c.phase ≡ active_sampling) ⊎ TakesNoSample c (update crossed n c)
  unfolding update update_first_fix_state
  update-TakesNoSample crossed n c =
      let c' = update_first_fix_state n.has_fix c in
      if_both (λ (d : Controller R). (c.phase ≡ active_sampling) ⊎ TakesNoSample c d)
        (not c.cfg.enabled) (disabled_samples c.phase n c') (enabled_samples crossed c.phase n c')
