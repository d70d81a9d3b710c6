-- ===== src/BaseApp/Checks.antt =====
-- Runs of the base's bookkeeping and of its serial parser, and the theorems applied to them.
use smart_fires_io_t.Base.{
  ℕ, ◌%◌, ◌<◌, ◌≡◌, ◌⊎◌, inl, inr, ◌==◌, List, [], ◌∷◌, ◌++◌, true, ◌||◌, arith, refl, set,
}
use smart_fires_io_t.Config.Profile.Builtin.{sf7}
use smart_fires_io_t.Wire.Crc.{crc8, crc8_from, crc_bits, crc_bit}
use smart_fires_io_t.Tdma.Radio.Window.{is_acked}
use smart_fires_io_t.BaseApp.Tracker.{
  AckTracker, Acks, empty_tracker, new_acks, advance, record_telemetry_sequence,
}
use smart_fires_io_t.BaseApp.Acked.{
  IsSized, summary_of, record_telemetry_sequence_acks, record_telemetry_sequence_ends,
  record_jump_acks_all,
}
use smart_fires_io_t.Base.Bits.{digit}
use smart_fires_io_t.Base.Word.{sub_u8}
use smart_fires_io_t.BaseApp.Tracker.{update_telemetry_receipt_window}
use smart_fires_io_t.BaseApp.Receipts.{update_telemetry_receipt_window_notes}
use smart_fires_io_t.BaseApp.Flush.{Timing, Env, flush_round}
use smart_fires_io_t.BaseApp.Summaries.{Tells, MayHear, sent_of, flush_round-Tells}
use smart_fires_io_t.BaseApp.Uart.{process_incoming_jetson_uart}
use smart_fires_io_t.BaseApp.Frames.{
  framed, idle, and_then, framed_roundtrip, stray_mark_loses_frame,
}

-- A tracker that has every number up to 10, and 12.
abbrev tracker : AckTracker
tracker = record empty_tracker {
  in_use = true;
  initialized = true;
  node_id = 2;
  ack_base_seq = 10;
  ack_mask = 2;
  dirty = true;
}

tracker-IsSized : IsSized tracker
tracker-IsSized = record { base_byte = omega arith; mask_word = omega arith }

record_telemetry_sequence_acks_example :
    is_acked (summary_of (record_telemetry_sequence 11 tracker)) 11
    ≡ (is_acked (summary_of tracker) 11 || 11 == 11)
record_telemetry_sequence_acks_example =
    record_telemetry_sequence_acks tracker 11 11 refl tracker-IsSized (omega arith) (omega arith)
      (inl (omega arith)) (inr (omega arith))

record_telemetry_sequence_ends_example :
    let t' = record_telemetry_sequence 11 tracker in IsSized t' × (t'.ack_mask % 2 ≡ 0)
record_telemetry_sequence_ends_example =
    record_telemetry_sequence_ends tracker 11 tracker-IsSized (omega arith) (omega arith)

-- The missing number moves the base over it and the one behind it.
base_moves_on : (record_telemetry_sequence 11 tracker).ack_base_seq ≡ 12
unfolding record_telemetry_sequence advance
base_moves_on = refl

-- Number 11 was never received, and is acknowledged once 30 arrives.
record_jump_acks_all_example :
    is_acked (summary_of (record_telemetry_sequence 30 tracker)) 11 ≡ true
record_jump_acks_all_example =
    record_jump_acks_all tracker 30 11 refl (omega arith) (omega arith) (omega arith)

abbrev acks : Acks
acks = record new_acks { trackers = set new_acks.trackers 0 tracker }

abbrev flush_timing : Timing
flush_timing = record {
  ack_summary_min_interval_ms = 25;
  node_silence_ms = 8000;
  slot_width_ms = 1000;
  guard_ms = 100;
}

abbrev env : Env
env = record { now = 4200; slot_index = 4; position_at = λ k. 200; radio_ok = λ k. true }

flush_round-Tells_example :
    Tells tracker (sent_of (flush_round sf7 flush_timing env 0 acks))
    × ((sent_of (flush_round sf7 flush_timing env 0 acks) ≡ [])
        ⊎ MayHear sf7 flush_timing env 0 tracker)
flush_round-Tells_example =
    flush_round-Tells sf7 flush_timing env 0 acks
      (record {
        node_id_fits = omega arith;
        ack_base_seq_fits = omega arith;
        ack_mask_fits = omega arith;
      })
      (omega arith)

abbrev payload : List ℕ
payload = 0xa5 ∷ 3 ∷ 0 ∷ 7 ∷ 0 ∷ []

framed_roundtrip_example :
    (n : ℕ) × (process_incoming_jetson_uart (framed payload ++ (1 ∷ 2 ∷ [])) (idle 0 0)
      ≡ and_then payload (process_incoming_jetson_uart (1 ∷ 2 ∷ []) (idle 0 n)))
framed_roundtrip_example = framed_roundtrip payload (1 ∷ 2 ∷ []) 0 0 (omega arith)

stray_mark_loses_frame_example :
    (process_incoming_jetson_uart (0xaa ∷ framed payload) (idle 0 0)).0 ≡ []
unfolding crc8 crc8_from crc_bits crc_bit
stray_mark_loses_frame_example = stray_mark_loses_frame payload 0 0 (omega arith)

-- The window began at 250; the numbers have wrapped since.
abbrev receiving : AckTracker
receiving = record tracker {
  receipt_window_initialized = true;
  receipt_window_start_seq = 250;
  receipt_window_mask = 1;
}

update_telemetry_receipt_window_notes_example :
    let t' = update_telemetry_receipt_window 60 receiving in
    let k = sub_u8 60 t'.receipt_window_start_seq in (k < 20) × (digit k t'.receipt_window_mask ≡ 1)
update_telemetry_receipt_window_notes_example =
    update_telemetry_receipt_window_notes receiving 60 (omega arith) (omega arith) refl
