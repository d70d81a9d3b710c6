-- ===== src/BaseApp/Tracker.antt =====
-- The ACK trackers of SmartFiresBaseApp.cpp: one record for each node heard, and what a telemetry frame or
-- a window marker does to it. `now` is what `millis` reads.
use Prim.Native.Nat.{bit_and, bit_or}
use smart_fires_io_t.Base.{
  ℕ, zero, suc, ◌+◌, ◌-◌, ◌/◌, ◌^◌, ◌==◌, Bool, true, false, not, ◌&&◌, ◌||◌, ltb, leb,
  if◌then◌else◌, List, [], ◌∷◌, Option, none, some, get_or, set, replicate,
}
use smart_fires_io_t.Base.Word.{u8, sub_u8}
use smart_fires_io_t.Wire.Constants.{pkt_flag_retx, pkt_window_end}

pub record AckTracker : Type 0 where
  pub in_use : Bool
  pub initialized : Bool
  pub node_id : ℕ
  pub ack_base_seq : ℕ
  pub ack_mask : ℕ
  pub dirty : Bool
  pub dirty_trigger_seq : ℕ
  pub failed_send_attempts : ℕ
  pub retry_held : Bool
  pub asleep : Bool
  pub last_heard_valid : Bool
  pub last_heard_ms : ℕ
  pub force_resend : Bool
  pub last_sent_initialized : Bool
  pub last_sent_ack_base_seq : ℕ
  pub last_sent_ack_mask : ℕ
  pub receipt_window_initialized : Bool
  pub receipt_window_start_seq : ℕ
  pub receipt_window_mask : ℕ

abbrev pub empty_tracker : AckTracker
empty_tracker = record {
  in_use = false;
  initialized = false;
  node_id = 0;
  ack_base_seq = 0;
  ack_mask = 0;
  dirty = false;
  dirty_trigger_seq = 0;
  failed_send_attempts = 0;
  retry_held = false;
  asleep = false;
  last_heard_valid = false;
  last_heard_ms = 0;
  force_resend = false;
  last_sent_initialized = false;
  last_sent_ack_base_seq = 0;
  last_sent_ack_mask = 0;
  receipt_window_initialized = false;
  receipt_window_start_seq = 0;
  receipt_window_mask = 0;
}

abbrev pub max_ack_tracked_nodes : ℕ
max_ack_tracked_nodes = 16

-- The fields of the base that the acknowledgements use.
pub record Acks : Type 0 where
  pub trackers : List AckTracker
  pub flush_requested : Bool
  pub last_flush_ms : ℕ
  pub next_flush_index : ℕ
  pub last_flush_slot_index : ℕ
  pub ack_summary_seq : ℕ
  pub ack_tx_count : ℕ

abbrev pub new_acks : Acks
new_acks = record {
  trackers = replicate max_ack_tracked_nodes empty_tracker;
  flush_requested = false;
  last_flush_ms = 0;
  next_flush_index = 0;
  last_flush_slot_index = 0xffffffff;
  ack_summary_seq = 0;
  ack_tx_count = 0;
}

-- How the scan of `findOrCreateAckTracker` ends.
pub data Place : Type 0 where
  existing vacant : ℕ → Place
  full : Place

abbrev pub place_of : Option ℕ → Place
place_of none = full
place_of (some i) = vacant i

abbrev pub or_this : ℕ → Option ℕ → Option ℕ
or_this i none = some i
or_this i (some k) = some k

unfoldable pub place_from : ℕ → ℕ → List AckTracker → Option ℕ → Place
place_from node_id i [] free = place_of free
place_from node_id i (t ∷ ts) free =
    let later = place_from node_id (i + 1) ts (if t.in_use then free else or_this i free) in
    if t.in_use && t.node_id == node_id then existing i else later

-- A free tracker that is taken; its receipt window stays.
abbrev pub fresh_tracker : ℕ → AckTracker → AckTracker
fresh_tracker node_id t = record empty_tracker {
  in_use = true;
  node_id = node_id;
  receipt_window_initialized = t.receipt_window_initialized;
  receipt_window_start_seq = t.receipt_window_start_seq;
  receipt_window_mask = t.receipt_window_mask;
}

-- The index of the tracker, where there is one, and the trackers afterwards.
unfoldable pub find_or_create_ack_tracker : ℕ → List AckTracker → Option ℕ × List AckTracker
unfolding place_from
find_or_create_ack_tracker node_id ts = elim (place_from node_id 0 ts none) [
  | existing i ↦ (some i, ts)
  | vacant i ↦ (some i, set ts i (fresh_tracker node_id (get_or ts i empty_tracker)))
  | full ↦ (none, ts)
]

-- The first tracker in use for the node starts again.
unfoldable pub reset_ack_tracker : ℕ → List AckTracker → List AckTracker
reset_ack_tracker node_id [] = []
reset_ack_tracker node_id (t ∷ ts) =
    if not t.in_use || not (t.node_id == node_id)
    then t ∷ reset_ack_tracker node_id ts
    else record empty_tracker { in_use = true; node_id = t.node_id } ∷ ts

-- The loop over the lowest bit of the mask, on fuel; the mask has 16 bits.
unfoldable pub advance : ℕ → AckTracker → AckTracker
advance zero t = t
advance (suc fuel) t =
    let rest =
      advance fuel
        (record t { ack_base_seq = u8 (t.ack_base_seq + 1); ack_mask = t.ack_mask / 2 }) in
    if bit_and t.ack_mask 1 == 0 then t else rest

unfoldable pub record_telemetry_sequence : ℕ → AckTracker → AckTracker
unfolding advance
record_telemetry_sequence seq t =
    let delta = sub_u8 seq t.ack_base_seq in
    if not t.initialized
    then (record t { ack_base_seq = seq; ack_mask = 0; initialized = true })
    else if delta == 0
    then t
    else if ltb delta 128
    then (if leb delta 16
        then advance 16 (record t { ack_mask = bit_or t.ack_mask (2 ^ (delta - 1)) })
        else (record t { ack_base_seq = seq; ack_mask = 0 }))
    else t

-- The loop that moves the receipt window on by 20 numbers, on fuel, and the receipt's bit.
unfoldable pub slide : ℕ → ℕ → AckTracker → AckTracker
slide zero seq t = t
slide (suc fuel) seq t =
    let moved : AckTracker = record t {
      receipt_window_start_seq = u8 (t.receipt_window_start_seq + 20);
      receipt_window_mask = 0;
    } in
    let rest = slide fuel seq moved in
    if ltb (sub_u8 seq t.receipt_window_start_seq) 20 then t else rest

unfoldable pub update_telemetry_receipt_window : ℕ → AckTracker → AckTracker
unfolding slide
update_telemetry_receipt_window seq t =
    let slid = slide 7 seq t in
    if not t.receipt_window_initialized
    then (record t {
      receipt_window_initialized = true;
      receipt_window_start_seq = seq;
      receipt_window_mask = 1;
    })
    else if leb 128 (sub_u8 seq t.receipt_window_start_seq)
    then t
    else (record slid {
      receipt_window_mask =
          bit_or slid.receipt_window_mask (2 ^ sub_u8 seq slid.receipt_window_start_seq);
    })

-- What a telemetry frame does to its node's tracker.
unfoldable pub hear_telemetry : ℕ → ℕ → ℕ → AckTracker → AckTracker
unfolding update_telemetry_receipt_window record_telemetry_sequence
hear_telemetry now seq flags t =
    let heard : AckTracker = record t {
      last_heard_valid = true;
      last_heard_ms = now;
      force_resend = not (bit_and flags pkt_flag_retx == 0) || t.force_resend;
      asleep = false;
    } in
    let recorded = record_telemetry_sequence seq (update_telemetry_receipt_window seq heard) in
    record recorded {
      dirty = true;
      dirty_trigger_seq = seq;
      failed_send_attempts = 0;
      retry_held = false;
    }

unfoldable pub handle_telemetry_ack_summary : ℕ → ℕ → ℕ → ℕ → Acks → Bool × Acks
unfolding find_or_create_ack_tracker hear_telemetry
handle_telemetry_ack_summary now node_id seq flags s =
    let (place, ts) = find_or_create_ack_tracker node_id s.trackers in
    elim place [
      | none ↦ (false, s)
      | some i ↦ (
        true,
        record s { trackers = set ts i (hear_telemetry now seq flags (get_or ts i empty_tracker)) },
      )
    ]

-- What a window marker does to its node's tracker.
unfoldable pub hear_marker : ℕ → Bool → AckTracker → AckTracker
hear_marker now is_end t =
    let heard : AckTracker = record t {
      last_heard_valid = true;
      last_heard_ms = now;
      asleep = is_end;
    } in
    if is_end
    then heard
    else (record heard { force_resend = true; failed_send_attempts = 0; retry_held = false })

unfoldable pub handle_window_marker : ℕ → ℕ → ℕ → Acks → Bool × Acks
unfolding find_or_create_ack_tracker hear_marker
handle_window_marker now node_id pkt_type s =
    let is_end = pkt_type == pkt_window_end in
    let (place, ts) = find_or_create_ack_tracker node_id s.trackers in
    elim place [
      | none ↦ (false, s)
      | some i ↦ (
        true,
        record s {
          trackers = set ts i (hear_marker now is_end (get_or ts i empty_tracker));
          flush_requested = not is_end || s.flush_requested;
        },
      )
    ]
