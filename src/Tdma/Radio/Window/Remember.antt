-- ===== src/Tdma/Radio/Window/Remember.antt =====
-- `rememberSentTelemetry` of TdmaRadioService.cpp: the scan of `_pending` and the entry that it takes.
use smart_fires_io_t.Base.{
  ℕ, zero, suc, ◌+◌, ◌==◌, Bool, true, false, not, ◌&&◌, ◌||◌, ltb, if◌then◌else◌, List, [], ◌∷◌,
  Option, none, some, get_or, set,
}
use smart_fires_io_t.Base.Word.{u8, u32, sub_u32}
use smart_fires_io_t.Tdma.Radio.Types.{RadioConfig, PendingEntry, Window}
pub use smart_fires_io_t.Tdma.Radio.Window.Entries.{
  empty_pending, new_window, is_app_layer, compute_retry_wait_ms, window_depth, is_expired,
  release_from, next_drop, drop_expired_pending, is_acked, release_acked, shift_from,
}

-- The entry that `rememberSentTelemetry` would give up: its index, attempts and age.
pub record Victim : Type 0 where
  pub index : ℕ
  pub attempts : ℕ
  pub age_ms : ℕ

-- How the scan of `rememberSentTelemetry` ends: at an entry with the same sequence number, or with the
-- first free index and the entry to give up, where there are any.
pub data Scan : Type 0 where
  found : ℕ → Scan
  ended : Option ℕ → Option Victim → Scan

abbrev pub worse : ℕ → ℕ → PendingEntry → Option Victim → Option Victim
worse now i e none =
    some (record { index = i; attempts = e.attempts; age_ms = sub_u32 now e.first_sent_ms })
worse now i e (some v) =
    if ltb v.attempts e.attempts
      || e.attempts == v.attempts && ltb v.age_ms (sub_u32 now e.first_sent_ms)
    then some (record { index = i; attempts = e.attempts; age_ms = sub_u32 now e.first_sent_ms })
    else some v

abbrev pub first_free : ℕ → Option ℕ → Option ℕ
first_free i none = some i
first_free i (some k) = some k

unfoldable pub scan_from : ℕ → ℕ → ℕ → ℕ → List PendingEntry → Option ℕ → Option Victim → Scan
scan_from now seq zero i es free victim = ended free victim
scan_from now seq (suc rounds) i [] free victim = ended free victim
scan_from now seq (suc rounds) i (e ∷ es) free victim =
    let unused = scan_from now seq rounds (i + 1) es (first_free i free) victim in
    let next = scan_from now seq rounds (i + 1) es free (worse now i e victim) in
    if not e.in_use then unused else if e.seq == seq then found i else next

abbrev pub slot_of : Option ℕ → Option Victim → Option ℕ
slot_of (some i) victim = some i
slot_of none (some v) = some v.index
slot_of none none = none

-- The entry of a sequence number that is sent again.
abbrev pub refreshed : ℕ → List ℕ → Bool → PendingEntry → PendingEntry
refreshed now payload sent_ok e =
    let copied = record e { payload = payload; last_sent_ms = now } in
    if sent_ok
    then (record copied {
      sent_successfully = true;
      first_sent_ms = now;
      attempts = 1;
      ack_gate_opened = false;
    })
    else copied

abbrev pub fresh_pending : ℕ → ℕ → List ℕ → Bool → PendingEntry
fresh_pending now seq payload sent_ok = record {
  in_use = true;
  seq = seq;
  payload = payload;
  first_sent_ms = now;
  last_sent_ms = now;
  attempts = 1;
  sent_successfully = sent_ok;
  ack_gate_opened = false;
}

-- The write of a new entry at an index.
unfoldable pub place : ℕ → PendingEntry → Window → Window
place i e w =
    let old = get_or w.entries i empty_pending in
    record {
      entries = set w.entries i e;
      count = if old.in_use then w.count else u8 (w.count + 1);
      drops = if old.in_use then u32 (w.drops + 1) else w.drops;
    }

-- `rememberSentTelemetry` behind the test on the packet, which gives `seq`.
unfoldable pub remember : RadioConfig → ℕ → ℕ → List ℕ → Bool → Window → Window
unfolding scan_from place
remember cfg now seq payload sent_ok w =
    if window_depth cfg == 0
    then w
    else elim (scan_from now seq (window_depth cfg) 0 w.entries none none) [
      | found i ↦ record w {
        entries =
            set w.entries i (refreshed now payload sent_ok (get_or w.entries i empty_pending));
      }
      | ended free victim ↦ elim (slot_of free victim) [
        | none ↦ w
        | some i ↦ place i (fresh_pending now seq payload sent_ok) w
      ]
    ]
