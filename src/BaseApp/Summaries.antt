-- ===== src/BaseApp/Summaries.antt =====
-- The summaries that `sendPendingAckSummary` of SmartFiresBaseApp.cpp puts on the air.
use smart_fires_io_t.Base.{
  ℕ, ◌+◌, ◌%◌, ◌<◌, ◌≡◌, ◌⊎◌, inl, inr, refl, is_some, sym, subst, Bool, true, false, not, ◌&&◌,
  if_both, if_cases, List, [], ◌∷◌, none, some, get_or, arith,
}
use smart_fires_io_t.Base.Word.{u8}
use smart_fires_io_t.Config.Profile.{NetworkProfile}
use smart_fires_io_t.Wire.Constants.{pkt_ack_summary, ack_summary_lora_size}
use smart_fires_io_t.Wire.Encode.{header, encode_ack_summary}
use smart_fires_io_t.Wire.Decode.{decode_ack_summary}
use smart_fires_io_t.Wire.RoundTrip.{ack_summary_roundtrip}
use smart_fires_io_t.Wire.Fits
use smart_fires_io_t.Wire.Packet.{PktHeader}
use smart_fires_io_t.BaseApp.Tracker.{AckTracker, Acks, empty_tracker, max_ack_tracked_nodes}
use smart_fires_io_t.BaseApp.Acked.{summary_of}
use smart_fires_io_t.BaseApp.Flush.{
  Timing, Env, Sent, skipped, suppressed, due, due_of, Turn, returned, next, send_ack_summary,
  base_tx_deadline_allows, flush_due, flush_round, with_tracker,
}

abbrev pub sent_of : Turn → List Sent
sent_of (returned ok s sent) = sent
sent_of (next s sent) = sent

-- The tracker that the loop looks at.
abbrev pub tracker_at : ℕ → Acks → AckTracker
tracker_at offset s =
    get_or s.trackers (u8 ((s.next_flush_index + offset) % max_ack_tracked_nodes)) empty_tracker

-- Frames that the base sends about a tracker: to its node, which reads them as the tracker's summary.
abbrev pub Tells : AckTracker → List Sent → Type 0
Tells t [] = Unit
Tells t (x ∷ xs) =
    (x.to_addr ≡ t.node_id)
    × ((hdr : PktHeader) × (decode_ack_summary x.bytes ≡ some (hdr, summary_of t)))
    × Tells t xs

Tells-send_ack_summary :
    (ok : Bool) (t : AckTracker) (s : Acks)
    → Fits.AckSummaryFits (summary_of t)
    → s.ack_summary_seq < 256
    → Tells t (send_ack_summary ok t.node_id t.ack_base_seq t.ack_mask s).2
unfolding send_ack_summary
Tells-send_ack_summary ok t s fits seq =
    let hdr = header pkt_ack_summary 0 s.ack_summary_seq 0 in
    let hdr_fits : Fits.HeaderFits hdr = record {
      magic_fits = omega arith;
      pkt_type_fits = omega arith;
      node_id_fits = omega arith;
      seq_fits = seq;
      flags_fits = omega arith;
    } in
    let (raw, encoded, size, decoded) =
      ack_summary_roundtrip s.ack_summary_seq ack_summary_lora_size 0 (summary_of t) (omega arith)
        hdr_fits fits in
    let told =
      subst
        (λ e. Tells t (elim e as (λ _. List Sent) [
          | none ↦ []
          | some payload ↦ record { to_addr = t.node_id; bytes = payload } ∷ []
        ]))
        (sym encoded) (refl, (hdr, decoded), tt) in
    if_both (λ (r : Bool × Acks × List Sent). Tells t r.2)
      (is_some (encode_ack_summary s.ack_summary_seq (summary_of t) ack_summary_lora_size 0) && ok)
      told told

-- The node of a tracker is to hear of it now.
abbrev pub MayHear : NetworkProfile → Timing → Env → ℕ → AckTracker → Type 0
MayHear profile cfg env offset t =
    (t.in_use ≡ true)
    × (t.dirty ≡ true)
    × (t.asleep ≡ false)
    × (t.retry_held ≡ false)
    × (base_tx_deadline_allows profile cfg (env.position_at offset) ack_summary_lora_size ≡ true)

-- What a round may send.
abbrev Sends : NetworkProfile → Timing → Env → ℕ → AckTracker → Turn → Type 0
Sends profile cfg env offset t turn =
    Tells t (sent_of turn) × ((sent_of turn ≡ []) ⊎ MayHear profile cfg env offset t)

due-MayHear :
    (cfg : Timing) (now : ℕ) (t : AckTracker)
    → due_of cfg now t ≡ due
    → (t.in_use ≡ true) × (t.dirty ≡ true) × (t.asleep ≡ false) × (t.retry_held ≡ false)
unfolding due_of
due-MayHear cfg now t h = ground (arith, h)

Sends-flush_due :
    (profile : NetworkProfile) (cfg : Timing) (env : Env) (offset i : ℕ) (t : AckTracker) (s : Acks)
    → due_of cfg env.now t ≡ due
    → Fits.AckSummaryFits (summary_of t)
    → s.ack_summary_seq < 256
    → Sends profile cfg env offset t (flush_due profile cfg env offset i t s)
unfolding flush_due
Sends-flush_due profile cfg env offset i t s is_due fits seq =
    let P = Sends profile cfg env offset t in
    let told = Tells-send_ack_summary (env.radio_ok offset) t s fits seq in
    let (used, dirty, awake, free) = due-MayHear cfg env.now t is_due in
    if_cases P
      (not (base_tx_deadline_allows profile cfg (env.position_at offset) ack_summary_lora_size))
      (λ _. (tt, inl refl))
      (λ in_time.
        let hears : MayHear profile cfg env offset t =
          (used, dirty, awake, free, ground (arith, in_time)) in
        if_both P
          (not (send_ack_summary (env.radio_ok offset) t.node_id t.ack_base_seq t.ack_mask s).0)
          (told, inr hears) (told, inr hears))

-- A round of `sendPendingAckSummary` sends frames only to the node of the tracker that it looks at, and the
-- node's decoder reads each as that tracker's base and mask. It sends one only if the tracker is in use and
-- dirty, its node not asleep and not given up on, and the frame fits in the rest of the base's slot.
pub flush_round-Tells :
    (profile : NetworkProfile) (cfg : Timing) (env : Env) (offset : ℕ) (s : Acks)
    → Fits.AckSummaryFits (summary_of (tracker_at offset s))
    → s.ack_summary_seq < 256
    → let t = tracker_at offset s in
      let sent = sent_of (flush_round profile cfg env offset s) in
      Tells t sent × ((sent ≡ []) ⊎ MayHear profile cfg env offset t)
unfolding flush_round
flush_round-Tells profile cfg env offset s fits seq =
    let t = tracker_at offset s in
    let i = u8 ((s.next_flush_index + offset) % max_ack_tracked_nodes) in
    elim (due_of cfg env.now t)
        as (λ d.
          due_of cfg env.now t ≡ d
          → Sends profile cfg env offset t (elim d as (λ _. Turn) [
            | skipped ↦ next s []
            | suppressed ↦ next (with_tracker i (record t { dirty = false }) s) []
            | due ↦ flush_due profile cfg env offset i t s
          ])) [
            | skipped ↦ λ _. (tt, inl refl)
            | suppressed ↦ λ _. (tt, inl refl)
            | due ↦ λ is_due. Sends-flush_due profile cfg env offset i t s is_due fits seq
          ]
      refl
