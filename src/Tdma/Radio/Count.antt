-- ===== src/Tdma/Radio/Count.antt =====
-- The window of TdmaRadioService.cpp: `_pendingCount` against the entries in use.
pub mod Entries
use smart_fires_io_t.Base.{
  ℕ, zero, suc, ◌+◌, ◌-◌, ◌≤◌, ◌<◌, ◌≡◌, refl, Bool, true, false, not, ◌&&◌, if◌then◌else◌, ◌==◌,
  List, [], ◌∷◌, Option, none, some, length, length-set, get_or, set, arith, ap,
}
use smart_fires_io_t.Base.Word.{u32}
use smart_fires_io_t.Wire.Packet.{AckSummaryPayload}
use smart_fires_io_t.Tdma.Radio.Types.{RadioConfig, PendingEntry, Window, max_reliability_window}
use smart_fires_io_t.Tdma.Radio.Window.{
  Traffic, Best, best_after, is_released, inspect, pick_from, retransmit_copy,
  pick_retransmit_candidate, release_from, drop_expired_pending, release_acked, shift_from, Scan,
  found, ended, scan_from, Victim, slot_of, place, remember, refreshed, fresh_pending,
  empty_pending, window_depth, is_expired, next_drop, is_acked, sent_again, mark_retransmit_sent,
  worse, first_free,
}
use smart_fires_io_t.Tdma.Radio.Count.Entries.{used, used_le, used-set, set-beyond}
pub use smart_fires_io_t.Tdma.Radio.Count.Entries.{
  IsCounted, drop_expired_pending-IsCounted, release_acked-IsCounted, shift_from-IsCounted,
}

-- A write that leaves the entry in use as it was.
pub set-IsCounted :
    (w : Window) (i : ℕ) (e : PendingEntry)
    → IsCounted w
    → e.in_use ≡ (get_or w.entries i empty_pending).in_use
    → IsCounted (record w { entries = set w.entries i e })
set-IsCounted w i e h same = record {
  storage = omega (arith, h.storage, length-set w.entries i e);
  exact = ground (arith, h.exact, used-set w.entries i e, set-beyond w.entries i e);
}

pub mark_retransmit_sent-IsCounted :
    (now i : ℕ) (w : Window) → IsCounted w → IsCounted (mark_retransmit_sent now i w)
unfolding mark_retransmit_sent
mark_retransmit_sent-IsCounted now i w h =
    let e = get_or w.entries i empty_pending in
    ground (arith, set-IsCounted w i (sent_again now e) h)

place-IsCounted :
    (i : ℕ) (e : PendingEntry) (w : Window)
    → IsCounted w
    → i < max_reliability_window
    → e.in_use ≡ true
    → IsCounted (place i e w)
unfolding place
place-IsCounted i e w h lt on = ground (
  arith,
  h.storage,
  h.exact,
  length-set w.entries i e,
  used-set w.entries i e,
  used_le w.entries,
  used_le (set w.entries i e),
)

-- An index, where there is one, lies below a bound.
abbrev Below : ℕ → Option ℕ → Type 0
Below b none = Unit {0}
Below b (some i) = i < b

abbrev VictimBelow : ℕ → Option Victim → Type 0
VictimBelow b none = Unit {0}
VictimBelow b (some v) = v.index < b

abbrev ScanBelow : ℕ → Scan → Type 0
ScanBelow b (found i) = i < b
ScanBelow b (ended free victim) = Below b free × VictimBelow b victim

Below-first_free : (b i : ℕ) (free : Option ℕ) → i < b → Below b free → Below b (first_free i free)
Below-first_free b i none lt h = lt
Below-first_free b i (some k) lt h = h

VictimBelow-worse :
    (b now i : ℕ) (e : PendingEntry) (victim : Option Victim)
    → i < b
    → VictimBelow b victim
    → VictimBelow b (worse now i e victim)
VictimBelow-worse b now i e none lt h = lt
VictimBelow-worse b now i e (some v) lt h = ground arith

scan_from-Below :
    (now seq n i b : ℕ) (es : List PendingEntry) (free : Option ℕ) (victim : Option Victim)
    → i + n ≤ b
    → Below b free
    → VictimBelow b victim
    → ScanBelow b (scan_from now seq n i es free victim)
unfolding scan_from
scan_from-Below now seq zero i b es free victim lt f v = (f, v)
scan_from-Below now seq (suc n) i b [] free victim lt f v = (f, v)
scan_from-Below now seq (suc n) i b (e ∷ es) free victim lt f v =
    let unused =
      scan_from-Below now seq n (i + 1) b es (first_free i free) victim (omega arith)
        (Below-first_free b i free (omega arith) f) v in
    let next =
      scan_from-Below now seq n (i + 1) b es free (worse now i e victim) (omega arith) f
        (VictimBelow-worse b now i e victim (omega arith) v) in
    elim e.in_use
      as (λ u. ScanBelow b (
        if not u
        then scan_from now seq n (i + 1) es (first_free i free) victim
        else if e.seq == seq
        then found i
        else scan_from now seq n (i + 1) es free (worse now i e victim))) [
          | false ↦ unused
          | true ↦
              elim (e.seq == seq)
                as (λ u. ScanBelow b (
                  if u
                  then found i
                  else scan_from now seq n (i + 1) es free (worse now i e victim))) [
                    | true ↦ omega arith
                    | false ↦ next
                  ]
        ]

Below-slot_of :
    (b : ℕ) (free : Option ℕ) (victim : Option Victim)
    → Below b free
    → VictimBelow b victim
    → Below b (slot_of free victim)
Below-slot_of b (some i) victim f v = f
Below-slot_of b none (some w) f v = v
Below-slot_of b none none f v = tt

-- What `remember` does with the result of its scan.
placed-IsCounted :
    (e : PendingEntry) (w : Window) (slot : Option ℕ)
    → IsCounted w
    → e.in_use ≡ true
    → Below max_reliability_window slot
    → IsCounted (elim slot as (λ _. Window) [ none ↦ w | some i ↦ place i e w ])
placed-IsCounted e w none h on lt = h
placed-IsCounted e w (some i) h on lt = place-IsCounted i e w h lt on

remembered-IsCounted :
    (now seq : ℕ) (payload : List ℕ) (sent_ok : Bool) (w : Window) (scan : Scan)
    → IsCounted w
    → ScanBelow max_reliability_window scan
    → IsCounted (elim scan as (λ _. Window) [
      | found i ↦ record w {
        entries =
            set w.entries i (refreshed now payload sent_ok (get_or w.entries i empty_pending));
      }
      | ended free victim ↦ elim (slot_of free victim) [
        | none ↦ w
        | some i ↦ place i (fresh_pending now seq payload sent_ok) w
      ]
    ])
remembered-IsCounted now seq payload sent_ok w (found i) h lt =
    let e = get_or w.entries i empty_pending in
    set-IsCounted w i (refreshed now payload sent_ok e) h (ground arith)
remembered-IsCounted now seq payload sent_ok w (ended free victim) h lt =
    placed-IsCounted (fresh_pending now seq payload sent_ok) w (slot_of free victim) h refl
      (Below-slot_of max_reliability_window free victim lt.0 lt.1)

pub remember-IsCounted :
    (cfg : RadioConfig) (now seq : ℕ) (payload : List ℕ) (sent_ok : Bool) (w : Window)
    → IsCounted w
    → IsCounted (remember cfg now seq payload sent_ok w)
unfolding remember
remember-IsCounted cfg now seq payload sent_ok w h =
    let scan = scan_from now seq (window_depth cfg) 0 w.entries none none in
    let lt =
      scan_from-Below now seq (window_depth cfg) 0 8 w.entries none none (ground arith) tt tt in
    ground (arith, remembered-IsCounted now seq payload sent_ok w scan h lt)

length-pick_from :
    (cfg : RadioConfig) (now : ℕ) (t : Traffic) (n i : ℕ) (es : List PendingEntry) (count drops : ℕ)
    (best : Option Best)
    → length (pick_from cfg now t n i es count drops best).1.entries ≡ length es
unfolding pick_from
length-pick_from cfg now t zero i es count drops best = refl
length-pick_from cfg now t (suc n) i [] count drops best = refl
length-pick_from cfg now t (suc n) i (e ∷ es) count drops best =
    let (verdict, e') = inspect cfg now t e in
    let gone = is_released verdict in
    ap suc (
      length-pick_from cfg now t n (i + 1) es (if gone then count - 1 else count)
        (if gone then u32 (drops + 1) else drops) (best_after verdict i e best))

-- An entry stops being in use exactly where the verdict says so.
used-inspect :
    (cfg : RadioConfig) (now : ℕ) (t : Traffic) (e : PendingEntry)
    → (inspect cfg now t e).1.in_use ≡ (e.in_use && not (is_released (inspect cfg now t e).0))
unfolding inspect
used-inspect cfg now t e = ground arith

released-inspect :
    (cfg : RadioConfig) (now : ℕ) (t : Traffic) (e : PendingEntry)
    → is_released (inspect cfg now t e).0 ≡ true
    → e.in_use ≡ true
unfolding inspect
released-inspect cfg now t e = ground arith

count-pick_from :
    (cfg : RadioConfig) (now : ℕ) (t : Traffic) (n i : ℕ) (es : List PendingEntry)
    (count drops k : ℕ) (best : Option Best)
    → count ≡ k + used es
    → let w = (pick_from cfg now t n i es count drops best).1 in w.count ≡ k + used w.entries
unfolding pick_from
count-pick_from cfg now t zero i es count drops k best h = h
count-pick_from cfg now t (suc n) i [] count drops k best h = h
count-pick_from cfg now t (suc n) i (e ∷ es) count drops k best h =
    let (verdict, e') = inspect cfg now t e in
    let gone = is_released verdict in
    let later = λ (j : ℕ).
      count-pick_from cfg now t n (i + 1) es (if gone then count - 1 else count)
        (if gone then u32 (drops + 1) else drops) j (best_after verdict i e best) in
    ground (arith, later k, later (k + 1), used-inspect cfg now t e, released-inspect cfg now t e)

pick_from-IsCounted :
    (cfg : RadioConfig) (now : ℕ) (t : Traffic) (n : ℕ) (w : Window)
    → IsCounted w
    → IsCounted (pick_from cfg now t n 0 w.entries w.count w.drops none).1
pick_from-IsCounted cfg now t n w h = record {
  storage = omega (arith, h.storage, length-pick_from cfg now t n 0 w.entries w.count w.drops none);
  exact = omega (
    arith,
    count-pick_from cfg now t n 0 w.entries w.count w.drops 0 none (omega (arith, h.exact)),
  );
}

-- The candidate that is copied out of the window leaves the window as it is.
copied_window :
    (best : Option Best) (w : Window)
    → (elim best as (λ _. Option (ℕ × List ℕ) × Window) [
      | none ↦ (none, w)
      | some b ↦
          (some (b.index, retransmit_copy (get_or w.entries b.index empty_pending).payload), w)
    ]).1
      ≡ w
copied_window none w = refl
copied_window (some b) w = refl

pub pick_retransmit_candidate-IsCounted :
    (cfg : RadioConfig) (now : ℕ) (t : Traffic) (w : Window)
    → IsCounted w
    → IsCounted (pick_retransmit_candidate cfg now t w).1
unfolding pick_retransmit_candidate
pick_retransmit_candidate-IsCounted cfg now t w h =
    let (best, w') = pick_from cfg now t (window_depth cfg) 0 w.entries w.count w.drops none in
    ground (arith, pick_from-IsCounted cfg now t (window_depth cfg) w h, copied_window best w')
