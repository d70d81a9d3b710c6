-- ===== src/Tdma/Radio/Count/Entries.antt =====
-- The counter of pending frames in the loops of TdmaRadioService.cpp that free entries or move their times.
use smart_fires_io_t.Base.{
  ℕ, zero, suc, ◌+◌, ◌-◌, ◌≤◌, ◌<◌, ◌≡◌, refl, Bool, ◌&&◌, if◌then◌else◌, List, [], ◌∷◌, length,
  get_or, set, arith, ap,
}
use smart_fires_io_t.Wire.Packet.{AckSummaryPayload}
use smart_fires_io_t.Tdma.Radio.Types.{RadioConfig, PendingEntry, Window, max_reliability_window}
use smart_fires_io_t.Tdma.Radio.Window.{
  release_from, drop_expired_pending, release_acked, shift_from, empty_pending, window_depth,
  is_expired, next_drop, is_acked,
}

-- The number of entries in use.
abbrev pub used : List PendingEntry → ℕ
used [] = 0
used (e ∷ es) = (if e.in_use then 1 else 0) + used es

-- The array has its size, and the counter counts the entries in use.
pub record IsCounted (w : Window) : Type 0 where
  pub storage : length w.entries ≡ max_reliability_window
  pub exact : w.count ≡ used w.entries

pub used_le : (es : List PendingEntry) → used es ≤ length es
used_le [] = omega arith
used_le (e ∷ es) = ground (arith, used_le es)

length-release_from :
    (test : PendingEntry → Bool) (bump : ℕ → ℕ) (n : ℕ) (es : List PendingEntry) (count drops : ℕ)
    → length (release_from test bump n es count drops).entries ≡ length es
unfolding release_from
length-release_from test bump zero es count drops = refl
length-release_from test bump (suc n) [] count drops = refl
length-release_from test bump (suc n) (e ∷ es) count drops =
    let gone = e.in_use && test e in
    ap suc (
      length-release_from test bump n es (if gone then count - 1 else count)
        (if gone then bump drops else drops))

-- With `k` entries in use before the ones that the loop runs over.
count-release_from :
    (test : PendingEntry → Bool) (bump : ℕ → ℕ) (n : ℕ) (es : List PendingEntry) (count drops k : ℕ)
    → count ≡ k + used es
    → let w = release_from test bump n es count drops in w.count ≡ k + used w.entries
unfolding release_from
count-release_from test bump zero es count drops k h = h
count-release_from test bump (suc n) [] count drops k h = h
count-release_from test bump (suc n) (e ∷ es) count drops k h =
    let gone = e.in_use && test e in
    let later =
      count-release_from test bump n es (if gone then count - 1 else count)
        (if gone then bump drops else drops) in
    ground (arith, later k, later (k + 1))

release_from-IsCounted :
    (test : PendingEntry → Bool) (bump : ℕ → ℕ) (n drops : ℕ) (w : Window)
    → IsCounted w
    → IsCounted (release_from test bump n w.entries w.count drops)
release_from-IsCounted test bump n drops w h = record {
  storage = omega (arith, h.storage, length-release_from test bump n w.entries w.count drops);
  exact =
      omega
        (arith, count-release_from test bump n w.entries w.count drops 0 (omega (arith, h.exact)));
}

pub drop_expired_pending-IsCounted :
    (cfg : RadioConfig) (now : ℕ) (w : Window)
    → IsCounted w
    → IsCounted (drop_expired_pending cfg now w)
unfolding drop_expired_pending
drop_expired_pending-IsCounted cfg now w h =
    ground
      (arith, release_from-IsCounted (is_expired cfg now) next_drop (window_depth cfg) w.drops w h)

pub release_acked-IsCounted :
    (cfg : RadioConfig) (ack : AckSummaryPayload) (w : Window)
    → IsCounted w
    → IsCounted (release_acked cfg ack w)
unfolding release_acked
release_acked-IsCounted cfg ack w h =
    release_from-IsCounted (λ e. e.sent_successfully && is_acked ack e.seq) (λ drops. drops)
      (window_depth cfg) w.drops w h

length-shift_from : (ms n : ℕ) (es : List PendingEntry) → length (shift_from ms n es) ≡ length es
unfolding shift_from
length-shift_from ms zero es = refl
length-shift_from ms (suc n) [] = refl
length-shift_from ms (suc n) (e ∷ es) = ap suc (length-shift_from ms n es)

used-shift_from : (ms n : ℕ) (es : List PendingEntry) → used (shift_from ms n es) ≡ used es
unfolding shift_from
used-shift_from ms zero es = refl
used-shift_from ms (suc n) [] = refl
used-shift_from ms (suc n) (e ∷ es) = ground (arith, used-shift_from ms n es)

pub shift_from-IsCounted :
    (ms n : ℕ) (w : Window)
    → IsCounted w
    → IsCounted (record w { entries = shift_from ms n w.entries })
shift_from-IsCounted ms n w h = record {
  storage = omega (arith, h.storage, length-shift_from ms n w.entries);
  exact = omega (arith, h.exact, used-shift_from ms n w.entries);
}

-- A write over an entry, in terms of whether the entry was and is in use.
pub used-set :
    (es : List PendingEntry) (i : ℕ) (e : PendingEntry)
    → i < length es
    → used (set es i e) + (if (get_or es i empty_pending).in_use then 1 else 0)
      ≡ used es + (if e.in_use then 1 else 0)
used-set [] i e h = absurd (omega arith)
used-set (x ∷ es) zero e h = omega arith
used-set (x ∷ es) (suc i) e h = omega (arith, used-set es i e (omega arith))

get_or-beyond :
    (es : List PendingEntry) (i : ℕ) → length es ≤ i → get_or es i empty_pending ≡ empty_pending
get_or-beyond [] i h = refl
get_or-beyond (x ∷ es) zero h = absurd (omega arith)
get_or-beyond (x ∷ es) (suc i) h = get_or-beyond es i (omega arith)

pub set-beyond :
    (es : List PendingEntry) (i : ℕ) (e : PendingEntry) → length es ≤ i → set es i e ≡ es
set-beyond [] i e h = refl
set-beyond (x ∷ es) zero e h = absurd (omega arith)
set-beyond (x ∷ es) (suc i) e h = ap (λ l. x ∷ l) (set-beyond es i e (omega arith))
