-- ===== src/Tdma/Radio/Slots/Sends.antt =====
-- The calls on the driver in one round of `drainTxQueue` of TdmaRadioService.cpp.
use smart_fires_io_t.Base.{
  ℕ, zero, suc, ◌+◌, ◌-◌, ◌≤◌, ◌<◌, ◌≡◌, ◌⊎◌, inl, inr, refl, leb, Bool-cases, ap, Bool, false,
  List, [], ◌∷◌, ◌++◌, length, arith,
}
use smart_fires_io_t.Config.Profile.{NetworkProfile}
use smart_fires_io_t.Base.Word.{u8}
use smart_fires_io_t.Tdma.Clock.{Clock, position_in_slot_ms}
use smart_fires_io_t.Tdma.Radio.Types.{RadioConfig, Service, DriverCall, send_to, send_to_wait}
use smart_fires_io_t.Tdma.Radio.Service.{
  shift_pending_timestamps, hold_pending_retries_for_ack_round_trip, remember_sent_telemetry,
}
use smart_fires_io_t.Tdma.Radio.Drain.{
  Round, Selected, nothing, queued, pending, Progress, stopped, went_on, pick, select_next, select,
  defer, count_sent, hold_after, keep_sent, count_failed, retain_failed, bytes_of, note_sent,
  max_sends_per_update, max_attempts, slot_end_ms, estimate_tx_budget_ms, attempt_from, repeated,
  transmit, note_failed, send_selected,
}

-- The configuration and the clock are as before.
abbrev pub Kept : Service → Service → Type 0
Kept s s' = (s'.cfg ≡ s.cfg) × (s'.tdma_clock ≡ s.tdma_clock)

pub Kept-select :
    (use_app : Bool) (slot : ℕ) (r : Round) (s : Service) → Kept s (select use_app slot r s).1
unfolding select select_next pick
Kept-select use_app slot r s = ground arith

Kept-note_sent :
    (use_app : Bool) (r : Round) (x : Selected) (s : Service) → Kept s (note_sent use_app r x s)
unfolding note_sent keep_sent hold_after count_sent hold_pending_retries_for_ack_round_trip
    shift_pending_timestamps remember_sent_telemetry
Kept-note_sent use_app r nothing s = ground arith
Kept-note_sent use_app r (queued bytes) s = ground arith
Kept-note_sent use_app r (pending i bytes) s = ground arith

Kept-note_failed :
    (use_app : Bool) (r : Round) (x : Selected) (s : Service) → Kept s (note_failed use_app r x s)
unfolding note_failed count_failed retain_failed remember_sent_telemetry
Kept-note_failed use_app r nothing s = ground arith
Kept-note_failed use_app r (queued bytes) s = ground arith
Kept-note_failed use_app r (pending i bytes) s = ground arith

-- The frame that a call sends to the base, if it does.
abbrev pub IsSendTo : ℕ → List ℕ → DriverCall → Type 0
IsSendTo addr bytes c = (c ≡ send_to addr bytes) ⊎ (c ≡ send_to_wait addr bytes)

abbrev pub All {ℓ κ} : {A : Type ℓ} → (A → Type κ) → List A → Type κ
All P [] = Unit
All P (x ∷ xs) = P x × All P xs

pub All-append {ℓ κ} :
    {A : Type ℓ} (P : A → Type κ) (xs ys : List A) → All P xs → All P ys → All P (xs ++ ys)
All-append P [] ys p q = q
All-append P (x ∷ xs) ys p q = (p.0, All-append P xs ys p.1 q)

All-repeated {ℓ κ} : {A : Type ℓ} (P : A → Type κ) (n : ℕ) (a : A) → P a → All P (repeated n a)
All-repeated P zero a p = tt
All-repeated P (suc n) a p = (p, All-repeated P n a p)

length-repeated {ℓ} : {A : Type ℓ} (n : ℕ) (a : A) → length (repeated n a) ≡ n
length-repeated zero a = refl
length-repeated (suc n) a = ap suc (length-repeated n a)

-- Below 255 the counter of attempts does not wrap.
attempt_from_le :
    (answers : List Bool) (limit attempt : ℕ)
    → limit < 255
    → attempt ≤ limit + 1
    → (attempt_from answers limit attempt).0 + attempt ≤ limit + 1
unfolding attempt_from
attempt_from_le [] limit attempt small low = ground (arith, low)
attempt_from_le (answer ∷ answers) limit attempt small low = elim (Bool-cases (leb attempt limit)) [
  | inl more ↦ ground (
    arith,
    more,
    attempt_from_le answers limit (u8 (attempt + 1)) small (ground (arith, more, small)),
    small,
  )
  | inr over ↦ rw over (ground (arith, low))
]

pub transmit_calls :
    (cfg : RadioConfig) (answers : List Bool) (bytes : List ℕ)
    → All (IsSendTo cfg.base_addr bytes) (transmit cfg answers bytes).1
      × (cfg.max_retries < 254 → length (transmit cfg answers bytes).1 ≤ max_attempts cfg)
unfolding transmit
transmit_calls cfg answers bytes =
    let made = (attempt_from answers (max_attempts cfg) 1).0 in
    (
      ground (
        arith,
        All-repeated (IsSendTo cfg.base_addr bytes) made (send_to_wait cfg.base_addr bytes)
            (inr refl),
      ),
      λ small. ground (
        arith,
        length-repeated made (send_to_wait cfg.base_addr bytes),
        attempt_from_le answers (max_attempts cfg) 1 (ground (arith, small)) (omega arith),
      ),
    )

-- There is no fresh sync, or the frame's budget fits in what is left of the slot in some round.
abbrev pub InSlot : NetworkProfile → Bool → (ℕ → Round) → RadioConfig → Clock → List ℕ → Type 0
InSlot profile fresh rounds cfg clk bytes =
    (fresh ≡ false)
    ⊎ ((k : ℕ) × (k < max_sends_per_update)
        × (estimate_tx_budget_ms profile bytes
            ≤ slot_end_ms cfg - position_in_slot_ms clk (rounds k).fit_at))

abbrev pub SendsInSlot :
    NetworkProfile → Bool → (ℕ → Round) → RadioConfig → Clock → DriverCall → Type 0
SendsInSlot profile fresh rounds cfg clk c =
    (bytes : List ℕ) × IsSendTo cfg.base_addr bytes c × InSlot profile fresh rounds cfg clk bytes

abbrev pub calls_of : Progress → List DriverCall
calls_of (stopped s calls) = calls
calls_of (went_on s calls) = calls

abbrev pub after : Progress → Service
after (stopped s calls) = s
after (went_on s calls) = s

pub calls-send_selected :
    (use_app : Bool) (r : Round) (x : Selected) (s : Service)
    → (calls_of (send_selected use_app r x s) ≡ (transmit s.cfg r.answers (bytes_of x)).1)
      × Kept s (after (send_selected use_app r x s))
unfolding send_selected
calls-send_selected use_app r x s =
    ground (arith, Kept-note_sent use_app r x s, Kept-note_failed use_app r x s)

pub All-map {ℓ κ μ} :
    {A : Type ℓ} (P : A → Type κ) (Q : A → Type μ) (f : (a : A) → P a → Q a) (xs : List A)
    → All P xs
    → All Q xs
All-map P Q f [] p = tt
All-map P Q f (x ∷ xs) p = (f x p.0, All-map P Q f xs p.1)

pub Kept-defer : (x : Selected) (s : Service) → Kept s (defer x s)
unfolding defer
Kept-defer nothing s = (refl, refl)
Kept-defer (queued bytes) s = ground arith
Kept-defer (pending i bytes) s = (refl, refl)
