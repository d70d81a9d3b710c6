-- ===== src/Tdma/TxQueue/Checks.antt =====
-- Runs of the queue, and the theorems applied to them.
use smart_fires_io_t.Base.{◌≡◌, List, [], ◌∷◌, true, false, none, some, refl}
use smart_fires_io_t.Tdma.TxQueue.{
  new_queue, drop_oldest, append_entry, enqueue, dequeue, peek_packet_type, clear,
}
use smart_fires_io_t.Wire.Layout
use smart_fires_io_t.Tdma.TxQueue.Valid.{new_queue-IsValid}
use smart_fires_io_t.Tdma.TxQueue.Refine.{contents}
use smart_fires_io_t.Tdma.TxQueue.Trace.{
  Op, put, get, look, wipe, accepted, got, saw, wiped, run, run_frames, run_refines,
}

abbrev script : List Op
script =
    put (0xa5 ∷ 4 ∷ 2 ∷ 7 ∷ 0 ∷ [])
    ∷ put (2 ∷ [])
    ∷ look
    ∷ put (3 ∷ [])
    ∷ get
    ∷ put []
    ∷ look
    ∷ get
    ∷ get
    ∷ wipe
    ∷ []

-- A queue of depth 2 drops the first frame when a third is offered.
script_replies :
    run (new_queue 2) script
    ≡ accepted true
      ∷ accepted true
      ∷ saw (some 4)
      ∷ accepted true
      ∷ got (some (2 ∷ []))
      ∷ accepted false
      ∷ saw none
      ∷ got (some (3 ∷ []))
      ∷ got none
      ∷ wiped
      ∷ []
unfolding run new_queue enqueue dequeue peek_packet_type drop_oldest append_entry clear
    Layout.header_of
script_replies = refl

run_refines_example :
    run (new_queue 2) script ≡ run_frames (new_queue 2).capacity (contents (new_queue 2)) script
run_refines_example = run_refines (new_queue 2) script (new_queue-IsValid 2)
