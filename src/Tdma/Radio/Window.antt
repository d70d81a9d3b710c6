-- ===== src/Tdma/Radio/Window.antt =====
-- The window of unacknowledged frames in TdmaRadioService.cpp: `pickRetransmitCandidate` and
-- `markRetransmitSent`. A loop runs over the first `depth` entries of the array.
pub mod Entries
pub mod Remember
use Prim.Native.Nat.{bit_and, bit_or}
use smart_fires_io_t.Base.{
  ℕ, zero, suc, ◌+◌, ◌-◌, ◌*◌, ◌/◌, ◌^◌, ◌==◌, Bool, true, false, not, ◌&&◌, ◌||◌, ltb, leb,
  if◌then◌else◌, List, [], ◌∷◌, Option, none, some, length, get_or, set, take, replicate,
}
use smart_fires_io_t.Base.Word.{u8, u32, sub_u8, sub_u32}
use smart_fires_io_t.Wire.Constants.{pkt_flag_retx, header_size}
use smart_fires_io_t.Wire.Crc.{crc8}
use smart_fires_io_t.Wire.Packet.{AckSummaryPayload}
use smart_fires_io_t.Tdma.Radio.Types.{
  RadioConfig, PendingEntry, Window, ReliabilityMode, strict_link_ack, app_layer_ack_summary,
  max_reliability_window,
}
unfoldable pub use smart_fires_io_t.Tdma.Radio.Window.Entries.{
  empty_pending, new_window, is_app_layer, compute_retry_wait_ms, window_depth, is_expired,
  release_from, next_drop, drop_expired_pending, is_acked, release_acked, shift_from,
}
unfoldable pub use smart_fires_io_t.Tdma.Radio.Window.Remember.{
  worse, first_free, scan_from, slot_of, refreshed, fresh_pending, place, remember,
}
pub use smart_fires_io_t.Tdma.Radio.Window.Remember.{Victim, Scan, found, ended}

-- What the service knows of fresh traffic and of acknowledgements when it picks a frame.
pub record Traffic : Type 0 where
  pub has_fresh : Bool
  pub last_fresh_ms : ℕ
  pub has_ack : Bool
  pub last_ack_ms : ℕ

-- What one round of the loop of `pickRetransmitCandidate` does with an entry.
pub data Verdict : Type 0 where
  passed released chosen : Verdict

-- The verdict on an entry and the entry afterwards.
unfoldable pub inspect : RadioConfig → ℕ → Traffic → PendingEntry → Verdict × PendingEntry
unfolding compute_retry_wait_ms
inspect cfg now traffic e =
    let age_ms = sub_u32 now e.first_sent_ms in
    let opened = record e { ack_gate_opened = true } in
    if not e.in_use
    then (passed, e)
    else if is_expired cfg now e
    then (released, record e { in_use = false })
    else if ltb (sub_u32 now e.last_sent_ms) cfg.reliability_min_retry_gap_ms
    then (passed, e)
    else if not (is_app_layer cfg.reliability_mode && e.sent_successfully)
    then (chosen, e)
    else if ltb age_ms (compute_retry_wait_ms cfg)
    then (passed, e)
    else if cfg.require_ack_summary_before_first_retry
        && e.attempts == 1
        && not (traffic.has_ack && ltb e.first_sent_ms traffic.last_ack_ms)
        && ltb age_ms cfg.retry_wait_max_ms
    then (passed, opened)
    else (chosen, opened)

-- The best index so far and its time of sending.
pub record Best : Type 0 where
  pub index : ℕ
  pub last_sent_ms : ℕ

abbrev pub better : ℕ → PendingEntry → Option Best → Option Best
better i e none = some (record { index = i; last_sent_ms = e.last_sent_ms })
better i e (some b) =
    if ltb e.last_sent_ms b.last_sent_ms
    then some (record { index = i; last_sent_ms = e.last_sent_ms })
    else some b

abbrev pub best_after : Verdict → ℕ → PendingEntry → Option Best → Option Best
best_after passed i e best = best
best_after released i e best = best
best_after chosen i e best = better i e best

abbrev pub is_released : Verdict → Bool
is_released passed = false
is_released released = true
is_released chosen = false

unfoldable pub pick_from :
    RadioConfig
    → ℕ
    → Traffic
    → ℕ
    → ℕ
    → List PendingEntry
    → ℕ
    → ℕ
    → Option Best
    → Option Best × Window
unfolding inspect
pick_from cfg now traffic zero i es count drops best =
    (best, record { entries = es; count = count; drops = drops })
pick_from cfg now traffic (suc rounds) i [] count drops best =
    (best, record { entries = []; count = count; drops = drops })
pick_from cfg now traffic (suc rounds) i (e ∷ es) count drops best =
    let (verdict, e') = inspect cfg now traffic e in
    let gone = is_released verdict in
    let (best', w) =
      pick_from cfg now traffic rounds (i + 1) es (if gone then count - 1 else count)
        (if gone then u32 (drops + 1) else drops) (best_after verdict i e best) in
    (best', record w { entries = e' ∷ w.entries })

-- Some entry among the first ones waits for its first successful send.
unfoldable pub has_unsent : ℕ → List PendingEntry → Bool
has_unsent zero es = false
has_unsent (suc rounds) [] = false
has_unsent (suc rounds) (e ∷ es) = e.in_use && not e.sent_successfully || has_unsent rounds es

-- The copy that goes on the air again: marked as a retransmission, with a new checksum.
unfoldable pub retransmit_copy : List ℕ → List ℕ
retransmit_copy bytes =
    if ltb header_size (length bytes)
    then (let marked = set bytes 4 (bit_or (get_or bytes 4 0) pkt_flag_retx) in
        set marked (length bytes - 1) (crc8 (take (length bytes - 1) marked)))
    else bytes

-- `pickRetransmitCandidate` with an output buffer: the index and the bytes, or nothing.
unfoldable pub pick_retransmit_candidate :
    RadioConfig → ℕ → Traffic → Window → Option (ℕ × List ℕ) × Window
unfolding has_unsent pick_from retransmit_copy
pick_retransmit_candidate cfg now traffic w =
    if window_depth cfg == 0
    then (none, w)
    else if is_app_layer cfg.reliability_mode
        && not (has_unsent (window_depth cfg) w.entries)
        && ltb 0 cfg.reliability_fresh_traffic_holdoff_ms
        && traffic.has_fresh
        && ltb (sub_u32 now traffic.last_fresh_ms) cfg.reliability_fresh_traffic_holdoff_ms
    then (none, w)
    else let (best, w') =
        pick_from cfg now traffic (window_depth cfg) 0 w.entries w.count w.drops none in
      elim best [
        | none ↦ (none, w')
        | some b ↦
            (some (b.index, retransmit_copy (get_or w'.entries b.index empty_pending).payload), w')
      ]

-- What `markRetransmitSent` makes of the entry.
abbrev pub sent_again : ℕ → PendingEntry → PendingEntry
sent_again now e =
    if not e.sent_successfully
    then (record e {
      sent_successfully = true;
      first_sent_ms = now;
      last_sent_ms = now;
      attempts = 1;
      ack_gate_opened = false;
    })
    else (record e {
      last_sent_ms = now;
      attempts = if ltb e.attempts 0xff then e.attempts + 1 else e.attempts;
    })

unfoldable pub mark_retransmit_sent : ℕ → ℕ → Window → Window
mark_retransmit_sent now i w =
    let e = get_or w.entries i empty_pending in
    if leb max_reliability_window i
    then w
    else if not e.in_use
    then w
    else record w { entries = set w.entries i (sent_again now e) }
