-- ===== src/Tdma/Radio/Pick/Scan.antt =====
-- The scan of `pickRetransmitCandidate` of TdmaRadioService.cpp and the best entry that it finds.
use smart_fires_io_t.Base.{
  ℕ, zero, suc, ◌+◌, ◌-◌, ◌≤◌, ◌<◌, ◌≡◌, refl, subst, if◌then◌else◌, if_both, ltb, List, [], ◌∷◌,
  Option, none, some, length, get_or, arith,
}
use smart_fires_io_t.Base.Word.{u32}
use smart_fires_io_t.Tdma.Radio.Types.{RadioConfig, PendingEntry}
use smart_fires_io_t.Tdma.Radio.Window.{
  Traffic, Best, Verdict, passed, released, chosen, best_after, is_released, inspect, pick_from,
  empty_pending,
}

-- The entry may go on the air again at this time.
abbrev pub IsChosen : RadioConfig → ℕ → Traffic → PendingEntry → Type 0
IsChosen cfg now t e = (inspect cfg now t e).0 ≡ chosen

abbrev pub Holds : (Best → Type 0) → Option Best → Type 0
Holds P none = Unit
Holds P (some b) = P b

Holds-best_after :
    (P : Best → Type 0) (v : Verdict) (i : ℕ) (e : PendingEntry) (best : Option Best)
    → (v ≡ chosen → P (record { index = i; last_sent_ms = e.last_sent_ms }))
    → Holds P best
    → Holds P (best_after v i e best)
Holds-best_after P passed i e best p h = h
Holds-best_after P released i e best p h = h
Holds-best_after P chosen i e none p h = p refl
Holds-best_after P chosen i e (some b) p h =
    if_both (Holds P) (ltb e.last_sent_ms b.last_sent_ms) (p refl) h

-- What holds of every entry that may go on the air holds of the best one.
pub pick_from-Holds :
    (cfg : RadioConfig) (now : ℕ) (t : Traffic) (P : Best → Type 0) (n i : ℕ)
    (es : List PendingEntry) (count drops : ℕ) (best : Option Best)
    → ((j : ℕ)
        → j < n
        → IsChosen cfg now t (get_or es j empty_pending)
        → P (record { index = i + j; last_sent_ms = (get_or es j empty_pending).last_sent_ms }))
    → Holds P best
    → Holds P (pick_from cfg now t n i es count drops best).0
unfolding pick_from
pick_from-Holds cfg now t P zero i es count drops best p h = h
pick_from-Holds cfg now t P (suc n) i [] count drops best p h = h
pick_from-Holds cfg now t P (suc n) i (e ∷ es) count drops best p h =
    let (verdict, e') = inspect cfg now t e in
    let gone = is_released verdict in
    let here : i + 0 ≡ i = omega arith in
    pick_from-Holds cfg now t P n (i + 1) es (if gone then count - 1 else count)
      (if gone then u32 (drops + 1) else drops) (best_after verdict i e best)
      (λ j lt ok.
        subst
          (λ k. P (record { index = k; last_sent_ms = (get_or es j empty_pending).last_sent_ms }))
          (omega arith) (p (suc j) (omega arith) ok))
      (Holds-best_after P verdict i e best
        (λ ok.
          subst (λ k. P (record { index = k; last_sent_ms = e.last_sent_ms })) here
            (p zero (omega arith) ok))
        h)

-- A time of sending that is not before the best one.
abbrev pub NotBefore : ℕ → Option Best → Type 0
NotBefore time none = ⊥
NotBefore time (some b) = b.last_sent_ms ≤ time

NotBefore-best_after :
    (time : ℕ) (v : Verdict) (i : ℕ) (e : PendingEntry) (best : Option Best)
    → NotBefore time best
    → NotBefore time (best_after v i e best)
NotBefore-best_after time passed i e best h = h
NotBefore-best_after time released i e best h = h
NotBefore-best_after time chosen i e none h = elim h [ ]
NotBefore-best_after time chosen i e (some b) h = ground arith

NotBefore-chosen :
    (v : Verdict) (i : ℕ) (e : PendingEntry) (best : Option Best)
    → v ≡ chosen
    → NotBefore e.last_sent_ms (best_after v i e best)
NotBefore-chosen v i e none h = ground (arith, h)
NotBefore-chosen v i e (some b) h = ground (arith, h)

pick_from-NotBefore :
    (cfg : RadioConfig) (now : ℕ) (t : Traffic) (time n i : ℕ) (es : List PendingEntry)
    (count drops : ℕ) (best : Option Best)
    → NotBefore time best
    → NotBefore time (pick_from cfg now t n i es count drops best).0
unfolding pick_from
pick_from-NotBefore cfg now t time zero i es count drops best h = h
pick_from-NotBefore cfg now t time (suc n) i [] count drops best h = h
pick_from-NotBefore cfg now t time (suc n) i (e ∷ es) count drops best h =
    let (verdict, e') = inspect cfg now t e in
    let gone = is_released verdict in
    pick_from-NotBefore cfg now t time n (i + 1) es (if gone then count - 1 else count)
      (if gone then u32 (drops + 1) else drops) (best_after verdict i e best)
      (NotBefore-best_after time verdict i e best h)

pub pick_from_oldest :
    (cfg : RadioConfig) (now : ℕ) (t : Traffic) (n i : ℕ) (es : List PendingEntry) (count drops : ℕ)
    (best : Option Best) (j : ℕ)
    → j < n
    → j < length es
    → IsChosen cfg now t (get_or es j empty_pending)
    → NotBefore
        (get_or es j empty_pending).last_sent_ms
        (pick_from cfg now t n i es count drops best).0
unfolding pick_from
pick_from_oldest cfg now t zero i es count drops best j lt len ok = absurd (omega arith)
pick_from_oldest cfg now t (suc n) i [] count drops best j lt len ok = absurd (omega arith)
pick_from_oldest cfg now t (suc n) i (e ∷ es) count drops best zero lt len ok =
    let (verdict, e') = inspect cfg now t e in
    let gone = is_released verdict in
    pick_from-NotBefore cfg now t e.last_sent_ms n (i + 1) es (if gone then count - 1 else count)
      (if gone then u32 (drops + 1) else drops) (best_after verdict i e best)
      (NotBefore-chosen verdict i e best ok)
pick_from_oldest cfg now t (suc n) i (e ∷ es) count drops best (suc j) lt len ok =
    let (verdict, e') = inspect cfg now t e in
    let gone = is_released verdict in
    pick_from_oldest cfg now t n (i + 1) es (if gone then count - 1 else count)
      (if gone then u32 (drops + 1) else drops) (best_after verdict i e best) j (omega arith)
      (omega arith) ok
