-- ===== src/Tdma/Radio/Slots.antt =====
-- When `drainTxQueue` of TdmaRadioService.cpp puts frames on the air, and how many.
pub mod Sends
use native.Mathlib.Nat.{suc-mul}
use smart_fires_io_t.Base.{
  ℕ, zero, suc, ◌+◌, ◌-◌, ◌*◌, ◌≤◌, ◌<◌, ◌≡◌, ◌∙◌, inl, inr, refl, sym, ap, subst, Bool, true,
  false, not, ◌&&◌, if_both, if_cases, Bool-cases, List, [], ◌++◌, length, arith, length-append,
}
use smart_fires_io_t.Config.Profile.{NetworkProfile}
use smart_fires_io_t.Tdma.Clock.{Clock, session_now_ms, my_turn, sync_stale, position_in_slot_ms}
use smart_fires_io_t.Tdma.Radio.Types.{RadioConfig, Service, DriverCall}
use smart_fires_io_t.Tdma.Radio.Window.{drop_expired_pending}
use smart_fires_io_t.Tdma.Radio.Drain.{
  Round, Readings, Selected, nothing, queued, pending, Progress, stopped, went_on, select, defer,
  bytes_of, max_sends_per_update, max_attempts, slot_end_ms, estimate_tx_budget_ms, fits_in_slot,
  transmit, send_selected, send_or_defer, drain_round, drain_from, drain_tx_queue,
}
use smart_fires_io_t.Tdma.Radio.Slots.Sends.{
  Kept, Kept-select, IsSendTo, All-append, transmit_calls, InSlot, SendsInSlot, calls_of, after,
  calls-send_selected, All-map, Kept-defer,
}
pub use smart_fires_io_t.Tdma.Radio.Slots.Sends.{All}

-- What a round may do: keep the configuration and the clock, and send in the slot.
record Behaves (profile : NetworkProfile) (fresh : Bool) (rounds : ℕ → Round) (s : Service)
    (p : Progress) : Type 0 where
  kept : Kept s (after p)
  sends : All (SendsInSlot profile fresh rounds s.cfg s.tdma_clock) (calls_of p)
  few : s.cfg.max_retries < 254 → length (calls_of p) ≤ max_attempts s.cfg

Behaves-send_selected :
    (profile : NetworkProfile) (fresh use_app : Bool) (rounds : ℕ → Round) (k : ℕ) (x : Selected)
    (s : Service)
    → k < max_sends_per_update
    → (fresh && not (fits_in_slot profile (rounds k).fit_at (bytes_of x) s)) ≡ false
    → Behaves profile fresh rounds s (send_selected use_app (rounds k) x s)
unfolding fits_in_slot
Behaves-send_selected profile fresh use_app rounds k x s lt fits =
    let (same, kept) = calls-send_selected use_app (rounds k) x s in
    let (sends, few) = transmit_calls s.cfg (rounds k).answers (bytes_of x) in
    let in_slot : InSlot profile fresh rounds s.cfg s.tdma_clock (bytes_of x) =
      elim (Bool-cases fresh) [
        | inr off ↦ inl off
        | inl on ↦ inr (k, lt, ground (arith, on, fits))
      ] in
    record {
      kept = kept;
      sends = subst (All (SendsInSlot profile fresh rounds s.cfg s.tdma_clock)) (sym same) (
          All-map (IsSendTo s.cfg.base_addr (bytes_of x))
            (SendsInSlot profile fresh rounds s.cfg s.tdma_clock)
            (λ c sent. (bytes_of x, sent, in_slot))
            (transmit s.cfg (rounds k).answers (bytes_of x)).1 sends);
      few = λ small. omega (arith, few small, ap length same);
    }

Behaves-stopped :
    (profile : NetworkProfile) (fresh : Bool) (rounds : ℕ → Round) (s s' : Service)
    → Kept s s'
    → Behaves profile fresh rounds s (stopped s' [])
Behaves-stopped profile fresh rounds s s' kept = record {
  kept = kept;
  sends = tt;
  few = λ small. omega arith;
}

Behaves-send_or_defer :
    (profile : NetworkProfile) (fresh use_app : Bool) (rounds : ℕ → Round) (k : ℕ) (x : Selected)
    (s : Service)
    → k < max_sends_per_update
    → Behaves profile fresh rounds s (send_or_defer profile fresh use_app (rounds k) x s)
unfolding send_or_defer
Behaves-send_or_defer profile fresh use_app rounds k nothing s lt =
    Behaves-stopped profile fresh rounds s s (refl, refl)
Behaves-send_or_defer profile fresh use_app rounds k (queued bytes) s lt =
    if_cases (Behaves profile fresh rounds s)
      (fresh && not (fits_in_slot profile (rounds k).fit_at bytes s))
      (λ _.
        Behaves-stopped profile fresh rounds s (defer (queued bytes) s)
          (Kept-defer (queued bytes) s))
      (Behaves-send_selected profile fresh use_app rounds k (queued bytes) s lt)
Behaves-send_or_defer profile fresh use_app rounds k (pending i bytes) s lt =
    if_cases (Behaves profile fresh rounds s)
      (fresh && not (fits_in_slot profile (rounds k).fit_at bytes s))
      (λ _.
        Behaves-stopped profile fresh rounds s (defer (pending i bytes) s)
          (Kept-defer (pending i bytes) s))
      (Behaves-send_selected profile fresh use_app rounds k (pending i bytes) s lt)

-- What behaves from a service behaves from one with the same configuration and clock.
Behaves-Kept :
    (profile : NetworkProfile) (fresh : Bool) (rounds : ℕ → Round) (s s' : Service) (p : Progress)
    → Kept s s'
    → Behaves profile fresh rounds s' p
    → Behaves profile fresh rounds s p
Behaves-Kept profile fresh rounds s s' p (c, k) h = record {
  kept = (h.kept.0 ∙ c, h.kept.1 ∙ k);
  sends =
      subst (λ cfg. All (SendsInSlot profile fresh rounds cfg s.tdma_clock) (calls_of p)) c
        (subst (λ clk. All (SendsInSlot profile fresh rounds s'.cfg clk) (calls_of p)) k h.sends);
  few = subst (λ cfg. cfg.max_retries < 254 → length (calls_of p) ≤ max_attempts cfg) c h.few;
}

Behaves-drain_round :
    (profile : NetworkProfile) (fresh use_app : Bool) (slot : ℕ) (rounds : ℕ → Round) (k : ℕ)
    (s : Service)
    → k < max_sends_per_update
    → Behaves profile fresh rounds s (drain_round profile fresh use_app slot k (rounds k) s)
unfolding drain_round
Behaves-drain_round profile fresh use_app slot rounds k s lt =
    let (x, s') = select use_app slot (rounds k) s in
    let stop = Behaves-stopped profile fresh rounds s s (refl, refl) in
    if_both (Behaves profile fresh rounds s) _ stop (
      if_both (Behaves profile fresh rounds s) _ stop (
        Behaves-Kept profile fresh rounds s s' _ (Kept-select use_app slot (rounds k) s)
          (Behaves-send_or_defer profile fresh use_app rounds k x s' lt)))

-- What the whole loop may do, in the rounds that are left.
record LoopBehaves (profile : NetworkProfile) (fresh : Bool) (rounds : ℕ → Round) (left : ℕ)
    (s : Service) (out : Service × List DriverCall) : Type 0 where
  kept : Kept s out.0
  sends : All (SendsInSlot profile fresh rounds s.cfg s.tdma_clock) out.1
  few : s.cfg.max_retries < 254 → length out.1 ≤ left * max_attempts s.cfg

LoopBehaves-drain_from :
    (profile : NetworkProfile) (fresh use_app : Bool) (slot : ℕ) (rounds : ℕ → Round) (left k : ℕ)
    (s : Service)
    → k + left ≤ max_sends_per_update
    → LoopBehaves profile fresh rounds left s
        (drain_from profile fresh use_app slot rounds left k s)
unfolding drain_from
LoopBehaves-drain_from profile fresh use_app slot rounds zero k s lt = record {
  kept = (refl, refl);
  sends = tt;
  few = λ small. omega arith;
}
LoopBehaves-drain_from profile fresh use_app slot rounds (suc left) k s lt =
    both (LoopBehaves-drain_from profile fresh use_app slot rounds left (k + 1))
      (drain_round profile fresh use_app slot k (rounds k) s)
      (Behaves-drain_round profile fresh use_app slot rounds k s (omega arith))
  where
    both :
        ((s' : Service)
          → k + 1 + left ≤ max_sends_per_update
          → LoopBehaves profile fresh rounds left s'
              (drain_from profile fresh use_app slot rounds left (k + 1) s'))
        → (p : Progress) → Behaves profile fresh rounds s p
        → LoopBehaves profile fresh rounds
            (suc left)
            s
            (elim p as (λ _. Service × List DriverCall) [
              | stopped s' calls ↦ (s', calls)
              | went_on s' calls ↦
                  let rest = drain_from profile fresh use_app slot rounds left (k + 1) s' in
                  (rest.0, calls ++ rest.1)
            ])
    both again (stopped s' calls) h = record {
      kept = h.kept;
      sends = h.sends;
      few = λ small. omega (arith, h.few small, suc-mul left (max_attempts s.cfg));
    }
    both again (went_on s' calls) h =
        let rest = again s' (omega arith) in
        let (c, same) = h.kept in
        let later = (drain_from profile fresh use_app slot rounds left (k + 1) s').1 in
        record {
          kept = (rest.kept.0 ∙ c, rest.kept.1 ∙ same);
          sends = All-append (SendsInSlot profile fresh rounds s.cfg s.tdma_clock) calls _ h.sends (
              subst (λ cfg. All (SendsInSlot profile fresh rounds cfg s.tdma_clock) later) c
                (subst (λ clk. All (SendsInSlot profile fresh rounds s'.cfg clk) later) same
                  rest.sends));
          few = λ small. omega (
            arith,
            h.few small,
            suc-mul left (max_attempts s.cfg),
            length-append calls later,
            subst (λ cfg. cfg.max_retries < 254 → length later ≤ left * max_attempts cfg) c rest.few
                small,
          );
        }

abbrev is_fresh : Readings → Service → Bool
is_fresh t s = s.tdma_clock.synced && not (sync_stale s.tdma_clock t.stale_at)

LoopBehaves-drain_tx_queue :
    (profile : NetworkProfile) (t : Readings) (s : Service)
    → LoopBehaves profile
        (is_fresh t s)
        t.rounds
        max_sends_per_update
        s
        (drain_tx_queue profile t s)
unfolding drain_tx_queue
LoopBehaves-drain_tx_queue profile t s =
    let now = session_now_ms s.tdma_clock t.expire_at in
    let s' : Service = record s { window = drop_expired_pending s.cfg now s.window } in
    let slot = (my_turn s.tdma_clock t.turn_at).1 in
    let s'' : Service = record s' { last_tx_slot_index = slot } in
    let quiet : LoopBehaves profile (is_fresh t s) t.rounds max_sends_per_update s (s', []) =
      record { kept = (refl, refl); sends = tt; few = λ small. omega arith } in
    let drained =
      LoopBehaves-drain_from profile (is_fresh t s) (s.cfg.enable_app_reliability && is_fresh t s)
        slot t.rounds max_sends_per_update 0 s'' (omega arith) in
    if_both (LoopBehaves profile (is_fresh t s) t.rounds max_sends_per_update s)
      (not (my_turn s.tdma_clock t.turn_at).0) quiet
      (record { kept = drained.kept; sends = drained.sends; few = drained.few })

-- A send of some frame to the base whose budget is at most what is left of the slot at the fit test of
-- some round.
abbrev pub SendsThatFit : NetworkProfile → (ℕ → Round) → RadioConfig → Clock → DriverCall → Type 0
SendsThatFit profile rounds cfg clk c =
    (bytes : List ℕ) × IsSendTo cfg.base_addr bytes c
    × ((k : ℕ) × (k < max_sends_per_update)
        × (estimate_tx_budget_ms profile bytes
            ≤ slot_end_ms cfg - position_in_slot_ms clk (rounds k).fit_at))

fitting :
    (profile : NetworkProfile) (rounds : ℕ → Round) (cfg : RadioConfig) (clk : Clock)
    (c : DriverCall)
    → SendsInSlot profile true rounds cfg clk c
    → SendsThatFit profile rounds cfg clk c
fitting profile rounds cfg clk c (bytes, sent, inl off) = absurd (ground (arith, off))
fitting profile rounds cfg clk c (bytes, sent, inr fits) = (bytes, sent, fits)

-- With a fresh sync and less than 254 link retries configured, every call that `drainTxQueue` makes on the
-- driver sends a frame to the base, and the transmit budget of that frame is at most what was left of the
-- slot, up to its guard, at the fit test of one of the three rounds. There are at most 3 times the allowed
-- attempts of them.
pub drain_tx_queue_in_slot :
    (profile : NetworkProfile) (t : Readings) (s : Service)
    → s.tdma_clock.synced ≡ true
    → sync_stale s.tdma_clock t.stale_at ≡ false
    → s.cfg.max_retries < 254
    → let calls = (drain_tx_queue profile t s).1 in
      All (SendsThatFit profile t.rounds s.cfg s.tdma_clock) calls
      × (length calls ≤ max_sends_per_update * max_attempts s.cfg)
drain_tx_queue_in_slot profile t s synced current small =
    let h = LoopBehaves-drain_tx_queue profile t s in
    let calls = (drain_tx_queue profile t s).1 in
    let fresh : is_fresh t s ≡ true = ground arith in
    let sends : All (SendsInSlot profile true t.rounds s.cfg s.tdma_clock) calls =
      subst (λ f. All (SendsInSlot profile f t.rounds s.cfg s.tdma_clock) calls) fresh h.sends in
    (
      All-map (SendsInSlot profile true t.rounds s.cfg s.tdma_clock)
          (SendsThatFit profile t.rounds s.cfg s.tdma_clock)
          (fitting profile t.rounds s.cfg s.tdma_clock) calls sends,
      h.few small,
    )

-- Outside the node's turn, `drainTxQueue` makes no call on the driver and changes nothing but the window.
pub drain_tx_queue_waits :
    (profile : NetworkProfile) (t : Readings) (s : Service)
    → (my_turn s.tdma_clock t.turn_at).0 ≡ false
    → drain_tx_queue profile t s ≡ (
      record s {
        window = drop_expired_pending s.cfg (session_now_ms s.tdma_clock t.expire_at) s.window;
      },
      [],
    )
unfolding drain_tx_queue
drain_tx_queue_waits profile t s h = rw h refl
