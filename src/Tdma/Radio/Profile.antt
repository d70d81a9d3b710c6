-- ===== src/Tdma/Radio/Profile.antt =====
-- `nodeTdmaProfile` of platformio/include/config/NetworkConfig.h: the radio configuration of a node that
-- a network profile gives, and the frames of that profile in the slots of that configuration.
use smart_fires_io_t.Base.{
  ℕ, ◌^◌, ◌≤◌, ◌<◌, ◌≡◌, ◌∙◌, Bool, true, false, leb, if◌then◌else◌, List, [], ◌∷◌, length, arith,
}
use smart_fires_io_t.Config.Profile.{
  NetworkProfile, is_valid, is_valid_timing, frame_period_ms, tx_budget_ms,
}
use smart_fires_io_t.Config.Profile.Slots.{admitted_frame_fits}
use smart_fires_io_t.Tdma.Clock.{position_in_slot_ms}
use smart_fires_io_t.Tdma.TxQueue.{max_payload_len}
use smart_fires_io_t.Tdma.TxQueue.Valid.{IsValid}
use smart_fires_io_t.Tdma.TxQueue.Refine.{contents}
use smart_fires_io_t.Tdma.Radio.Types.{
  RadioConfig, Service, ReliabilityMode, strict_link_ack, app_layer_ack_summary, send_to,
}
use smart_fires_io_t.Tdma.Radio.Drain.{
  Round, slot_end_ms, fits_in_slot, estimate_tx_budget_ms, transmit, drain_round,
}
use smart_fires_io_t.Tdma.Radio.Slots.Sends.{calls_of}
use smart_fires_io_t.Tdma.Radio.Frames.{finds_retx, drain_round_sends}

abbrev reliability_mode : NetworkProfile → ReliabilityMode
reliability_mode p = if p.use_app_ack_summary then app_layer_ack_summary else strict_link_ack

-- The fields of `nodeTdmaProfile` that the radio service reads.
unfoldable pub node_tdma_profile : NetworkProfile → RadioConfig
unfolding frame_period_ms
node_tdma_profile p = record {
  node_id = 0;
  base_addr = 1;
  num_slots = p.total_slots;
  slot_width_ms = p.slot_width_ms;
  guard_ms = p.guard_ms;
  enable_link_ack = if p.use_app_ack_summary then false else true;
  max_retries = 3;
  enable_app_reliability = true;
  reliability_window_depth = 8;
  reliability_max_attempts = p.reliability_max_attempts;
  reliability_max_age_ms = p.reliability_max_age_ms;
  reliability_min_retry_gap_ms = 2000;
  reliability_fresh_traffic_holdoff_ms = 2000;
  reliability_mode = reliability_mode p;
  expected_ack_interval_ms = frame_period_ms p;
  retry_wait_multiplier_permille = 2000;
  retry_wait_min_ms = p.retry_wait_ms;
  retry_wait_max_ms = p.retry_wait_ms;
  require_ack_summary_before_first_retry = false;
}

-- Under the configuration of a valid profile a frame of at most the profile's operational size fits in the
-- rest of the slot at any position up to the guard time.
admitted_frame_starts :
    (p : NetworkProfile) (s : Service) (id now : ℕ) (bytes : List ℕ)
    → is_valid p ≡ true
    → p.tx_completion_margin_ms < 65536
    → p.guard_ms < 2 ^ 30
    → s.cfg ≡ record (node_tdma_profile p) { node_id = id }
    → length bytes ≤ p.max_operational_application_bytes
    → position_in_slot_ms s.tdma_clock now ≤ p.guard_ms
    → fits_in_slot p now bytes s ≡ true
unfolding fits_in_slot estimate_tx_budget_ms tx_budget_ms node_tdma_profile
admitted_frame_starts p s id now bytes valid margin guard cfg len early =
    let fits = admitted_frame_fits p (length bytes) valid margin guard len in
    rw cfg (ground (arith, fits, early))

before_end :
    (p : NetworkProfile) (s : Service) (id now : ℕ) (bytes : List ℕ)
    → is_valid p ≡ true
    → p.tx_completion_margin_ms < 65536
    → p.guard_ms < 2 ^ 30
    → s.cfg ≡ record (node_tdma_profile p) { node_id = id }
    → length bytes ≤ p.max_operational_application_bytes
    → position_in_slot_ms s.tdma_clock now ≤ p.guard_ms
    → leb (slot_end_ms s.cfg) (position_in_slot_ms s.tdma_clock now) ≡ false
unfolding node_tdma_profile
before_end p s id now bytes valid margin guard cfg len early =
    let fits = admitted_frame_fits p (length bytes) valid margin guard len in
    rw cfg (ground (arith, fits, early))

-- A valid profile leaves the acknowledgement to the application, so that a frame is sent once.
profile_sends_once :
    (p : NetworkProfile) (cfg : RadioConfig) (id : ℕ) (answers : List Bool) (bytes : List ℕ)
    → is_valid p ≡ true
    → cfg ≡ record (node_tdma_profile p) { node_id = id }
    → (transmit cfg answers bytes).1 ≡ send_to 1 bytes ∷ []
unfolding transmit node_tdma_profile is_valid is_valid_timing
profile_sends_once p cfg id answers bytes valid eq = rw eq (ground (arith, valid))

-- An admitted frame is sent at the start of a turn: where a node runs with the configuration of a valid
-- profile and whatever id, its sync is fresh, the frame at the front of its queue is not longer than the
-- profile's operational size or than a queue entry, no retransmission goes first, and the positions in the slot
-- that the round reads are at most the guard time, the round hands exactly that frame to the driver, once and
-- to the base. The profile's margin fits a 16-bit word and its guard time is below 2^30.
pub admitted_frame_sent :
    (p : NetworkProfile) (s : Service) (id slot sends : ℕ) (r : Round) (f : List ℕ)
    (rest : List (List ℕ))
    → is_valid p ≡ true
    → p.tx_completion_margin_ms < 65536
    → p.guard_ms < 2 ^ 30
    → s.cfg ≡ record (node_tdma_profile p) { node_id = id }
    → IsValid s.queue
    → contents s.queue ≡ f ∷ rest
    → 0 < length f
    → length f ≤ max_payload_len
    → length f ≤ p.max_operational_application_bytes
    → finds_retx true slot r s ≡ false
    → position_in_slot_ms s.tdma_clock r.budget_at ≤ p.guard_ms
    → position_in_slot_ms s.tdma_clock r.fit_at ≤ p.guard_ms
    → calls_of (drain_round p true true slot sends r s) ≡ send_to 1 f ∷ []
admitted_frame_sent p s id slot sends r f rest valid margin guard cfg v eq some_bytes short len
      no_retx early start =
    let fits = admitted_frame_starts p s id r.fit_at f valid margin guard cfg len start in
    drain_round_sends p true slot sends r s f rest v eq some_bytes short no_retx
      (before_end p s id r.budget_at f valid margin guard cfg len early) fits
    ∙ profile_sends_once p s.cfg id r.answers f valid cfg
