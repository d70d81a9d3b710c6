-- ===== src/Tdma/Radio/Pick.antt =====
-- Which frame `pickRetransmitCandidate` of TdmaRadioService.cpp chooses.
pub mod Scan
use smart_fires_io_t.Base.{
  ℕ, zero, suc, ◌+◌, ◌-◌, ◌≤◌, ◌<◌, ◌≡◌, ◌⊎◌, refl, sym, subst, true, false, ◌&&◌, if◌then◌else◌,
  if_both, ltb, List, [], ◌∷◌, Option, none, some, length, get_or, arith, ap,
}
use smart_fires_io_t.Base.Word.{u32, sub_u32}
use smart_fires_io_t.Tdma.Radio.Types.{RadioConfig, PendingEntry, Window}
use smart_fires_io_t.Tdma.Radio.Window.{
  Traffic, Best, Verdict, passed, released, chosen, best_after, is_released, inspect, pick_from,
  retransmit_copy, pick_retransmit_candidate, empty_pending, window_depth, is_expired,
  compute_retry_wait_ms, is_app_layer,
}
use smart_fires_io_t.Tdma.Radio.Release.{entry_at}
use smart_fires_io_t.Tdma.Radio.Pick.Scan.{Holds, pick_from-Holds, NotBefore, pick_from_oldest}
pub use smart_fires_io_t.Tdma.Radio.Pick.Scan.{IsChosen}

inspect_payload :
    (cfg : RadioConfig) (now : ℕ) (t : Traffic) (e : PendingEntry)
    → (inspect cfg now t e).1.payload ≡ e.payload
unfolding inspect
inspect_payload cfg now t e = ground arith

pick_from_payload :
    (cfg : RadioConfig) (now : ℕ) (t : Traffic) (n i : ℕ) (es : List PendingEntry) (count drops : ℕ)
    (best : Option Best) (j : ℕ)
    → (get_or (pick_from cfg now t n i es count drops best).1.entries j empty_pending).payload
      ≡ (get_or es j empty_pending).payload
unfolding pick_from
pick_from_payload cfg now t zero i es count drops best j = refl
pick_from_payload cfg now t (suc n) i [] count drops best j = refl
pick_from_payload cfg now t (suc n) i (e ∷ es) count drops best zero = inspect_payload cfg now t e
pick_from_payload cfg now t (suc n) i (e ∷ es) count drops best (suc j) =
    let (verdict, e') = inspect cfg now t e in
    let gone = is_released verdict in
    pick_from_payload cfg now t n (i + 1) es (if gone then count - 1 else count)
      (if gone then u32 (drops + 1) else drops) (best_after verdict i e best) j

-- The conditions of the code on a frame that goes on the air again.
abbrev pub MayRetransmit : RadioConfig → ℕ → PendingEntry → Type 0
MayRetransmit cfg now e =
    (e.in_use ≡ true)
    × (is_expired cfg now e ≡ false)
    × (cfg.reliability_min_retry_gap_ms ≤ sub_u32 now e.last_sent_ms)
    × ((is_app_layer cfg.reliability_mode && e.sent_successfully ≡ false)
        ⊎ (compute_retry_wait_ms cfg ≤ sub_u32 now e.first_sent_ms))

IsChosen-MayRetransmit :
    (cfg : RadioConfig) (now : ℕ) (t : Traffic) (e : PendingEntry)
    → IsChosen cfg now t e
    → MayRetransmit cfg now e
unfolding inspect
IsChosen-MayRetransmit cfg now t e ok = ground (arith, ok)

-- A candidate and its bytes, where there is one.
abbrev pub Candidate : (ℕ → List ℕ → Type 0) → Option (ℕ × List ℕ) → Type 0
Candidate P none = Unit
Candidate P (some (i, bytes)) = P i bytes

-- The result of the choice from the best entry.
Candidate-best :
    (P : ℕ → List ℕ → Type 0) (best : Option Best) (w : Window)
    → Holds (λ b. P b.index (retransmit_copy (entry_at w b.index).payload)) best
    → Candidate P
        (elim best as (λ _. Option (ℕ × List ℕ) × Window) [
          | none ↦ (none, w)
          | some b ↦
              (some (b.index, retransmit_copy (get_or w.entries b.index empty_pending).payload), w)
        ]).0
Candidate-best P none w h = tt
Candidate-best P (some b) w h = h

Holds-map :
    (P Q : Best → Type 0) (best : Option Best)
    → ((b : Best) → P b → Q b)
    → Holds P best
    → Holds Q best
Holds-map P Q none f h = tt
Holds-map P Q (some b) f h = f b h

-- What is known of the best entry's place is known of the candidate.
pick-Candidate :
    (cfg : RadioConfig) (now : ℕ) (t : Traffic) (w : Window) (P : ℕ → List ℕ → Type 0)
    → Holds
        (λ b. P b.index (retransmit_copy (entry_at w b.index).payload))
        (pick_from cfg now t (window_depth cfg) 0 w.entries w.count w.drops none).0
    → Candidate P (pick_retransmit_candidate cfg now t w).0
unfolding pick_retransmit_candidate
pick-Candidate cfg now t w P h =
    let (best, w') = pick_from cfg now t (window_depth cfg) 0 w.entries w.count w.drops none in
    let same = λ (i : ℕ).
      pick_from_payload cfg now t (window_depth cfg) 0 w.entries w.count w.drops none i in
    let ready = Candidate-best P best w' (
      Holds-map (λ b. P b.index (retransmit_copy (entry_at w b.index).payload))
        (λ b. P b.index (retransmit_copy (entry_at w' b.index).payload)) best
        (λ b p. subst (λ bytes. P b.index (retransmit_copy bytes)) (sym (same b.index)) p) h) in
    ground (arith, ready)

-- A frame that `pickRetransmitCandidate` chooses is in use within the window's depth, not expired, past
-- the minimum gap since it was last sent, and, if it awaits an acknowledgement, past the retry wait. What
-- it gives out is the copy of that frame that is marked as a retransmission.
pub pick_retransmit_candidate_sound :
    (cfg : RadioConfig) (now : ℕ) (t : Traffic) (w : Window)
    → Candidate
        (λ i bytes.
          (i < window_depth cfg)
          × MayRetransmit cfg now (entry_at w i)
          × (bytes ≡ retransmit_copy (entry_at w i).payload))
        (pick_retransmit_candidate cfg now t w).0
pick_retransmit_candidate_sound cfg now t w =
    pick-Candidate cfg now t w
      (λ i bytes.
        (i < window_depth cfg)
        × MayRetransmit cfg now (entry_at w i)
        × (bytes ≡ retransmit_copy (entry_at w i).payload))
      (pick_from-Holds cfg now t
        (λ b.
          (b.index < window_depth cfg)
          × MayRetransmit cfg now (entry_at w b.index)
          × (retransmit_copy (entry_at w b.index).payload
              ≡ retransmit_copy (entry_at w b.index).payload))
        (window_depth cfg) 0 w.entries w.count w.drops none
        (λ j lt ok.
          let here : j ≡ 0 + j = omega arith in
          subst
            (λ k.
              (k < window_depth cfg)
              × MayRetransmit cfg now (entry_at w k)
              × (retransmit_copy (entry_at w k).payload ≡ retransmit_copy (entry_at w k).payload))
            here (lt, IsChosen-MayRetransmit cfg now t (entry_at w j) ok, refl))
        tt)

-- Where both hold of the best entry.
Holds-both :
    (P : Best → Type 0) (time : ℕ) (best : Option Best)
    → Holds P best
    → NotBefore time best
    → Holds (λ b. P b × (b.last_sent_ms ≤ time)) best
Holds-both P time none h k = elim k [ ]
Holds-both P time (some b) h k = (h, k)

-- The frame that `pickRetransmitCandidate` chooses has the least recorded stamp `lastSentMs` of the frames that
-- may go on the air again at that time. Stamps are compared as 32-bit numbers, as the code does: so the order
-- is that of the recorded times, which a hold or a standby has shifted, and says nothing of two frames
-- between which the session clock wrapped.
pub pick_retransmit_candidate_oldest :
    (cfg : RadioConfig) (now : ℕ) (t : Traffic) (w : Window) (j : ℕ)
    → j < window_depth cfg
    → j < length w.entries
    → IsChosen cfg now t (entry_at w j)
    → Candidate
        (λ i bytes. (entry_at w i).last_sent_ms ≤ (entry_at w j).last_sent_ms)
        (pick_retransmit_candidate cfg now t w).0
pick_retransmit_candidate_oldest cfg now t w j lt len ok =
    let time = (entry_at w j).last_sent_ms in
    let P : Best → Type 0 = λ b. b.last_sent_ms ≡ (entry_at w b.index).last_sent_ms in
    let best = (pick_from cfg now t (window_depth cfg) 0 w.entries w.count w.drops none).0 in
    let named : Holds P best =
      pick_from-Holds cfg now t P (window_depth cfg) 0 w.entries w.count w.drops none
        (λ k below may. ap (λ i. (entry_at w i).last_sent_ms) (omega arith)) tt in
    let oldest : NotBefore time best =
      pick_from_oldest cfg now t (window_depth cfg) 0 w.entries w.count w.drops none j lt len ok in
    pick-Candidate cfg now t w (λ i bytes. (entry_at w i).last_sent_ms ≤ time)
      (Holds-map (λ b. P b × (b.last_sent_ms ≤ time))
        (λ b. (entry_at w b.index).last_sent_ms ≤ time) best (λ b h. omega (arith, h.0, h.1))
        (Holds-both P time best named oldest))
