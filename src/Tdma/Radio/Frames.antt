-- ===== src/Tdma/Radio/Frames.antt =====
-- The frames that the update loop of TdmaRadioService.cpp changes or puts back.
use Prim.Native.Nat.{bit_or}
use smart_fires_io_t.Base.{
  ℕ, zero, suc, ◌-◌, ◌≤◌, ◌<◌, ◌≡◌, ◌≢◌, refl, ap, Bool, true, false, ◌&&◌, if◌then◌else◌, leb,
  ◌==◌, List, [], ◌∷◌, ◌++◌, some, length, length-set, get_or, get_or-set_self, get_or-set_ne, set,
  take, arith,
}
use smart_fires_io_t.Config.Profile.{NetworkProfile}
use smart_fires_io_t.Wire.Constants.{header_size, pkt_flag_retx}
use smart_fires_io_t.Wire.Crc.{crc8, crc_ok}
use smart_fires_io_t.Wire.Layout
use smart_fires_io_t.Tdma.Clock.{session_now_ms, position_in_slot_ms}
use smart_fires_io_t.Tdma.TxQueue.{TxQueue, dequeue, enqueue, is_empty, max_payload_len}
use smart_fires_io_t.Tdma.TxQueue.Valid.{IsValid, dequeue-IsValid}
use smart_fires_io_t.Tdma.TxQueue.Refine.{contents, enqueue_refines, dequeue_refines, length-held}
use smart_fires_io_t.Tdma.Radio.Types.{Window, Service}
use smart_fires_io_t.Tdma.Radio.Window.{retransmit_copy}
use smart_fires_io_t.Tdma.Radio.Drain.Select.{is_selected}
use smart_fires_io_t.Tdma.Radio.Slots.Sends.{calls_of, calls-send_selected}
use smart_fires_io_t.Tdma.Radio.Drain.{
  Round, queued, stopped, pick, select, select_next, allow_retx, defer, slot_end_ms, fits_in_slot,
  send_or_defer, transmit, drain_round,
}

take-set : (xs : List ℕ) (n v : ℕ) → take n (set xs n v) ≡ take n xs
take-set [] zero v = refl
take-set [] (suc n) v = refl
take-set (x ∷ xs) zero v = refl
take-set (x ∷ xs) (suc n) v = ap (λ l. x ∷ l) (take-set xs n v)

-- The copy of a frame with a header and more is a frame that a receiver accepts: its checksum is right,
-- its length is the same, the retransmission flag is set in it, and the other header bytes and the bytes
-- between the header and the checksum are those of the frame.
pub retransmit_copy_accepted :
    (bytes : List ℕ) (j : ℕ)
    → header_size < length bytes
    → header_size ≤ j
    → j < length bytes - 1
    → let copy = retransmit_copy bytes in
      let hdr = Layout.header_of copy in
      let was = Layout.header_of bytes in
      (crc_ok copy ≡ true)
      × (length copy ≡ length bytes)
      × (hdr ≡ record was { flags = bit_or was.flags pkt_flag_retx })
      × (get_or copy j 0 ≡ get_or bytes j 0)
unfolding retransmit_copy crc_ok Layout.header_of
retransmit_copy_accepted bytes j long after before =
    let n = length bytes - 1 in
    let flags = bit_or (get_or bytes 4 0) pkt_flag_retx in
    let marked = set bytes 4 flags in
    let crc = crc8 (take n marked) in
    let kept = λ (i : ℕ) (ne : n ≢ i). get_or-set_ne marked n i crc 0 ne in
    ground (
      arith,
      length-set bytes 4 flags,
      length-set marked n crc,
      take-set marked n crc,
      get_or-set_self marked n crc 0,
      get_or-set_self bytes 4 flags 0,
      kept 0 (omega arith),
      kept 1 (omega arith),
      kept 2 (omega arith),
      kept 3 (omega arith),
      kept 4 (omega arith),
      kept j (omega arith),
      get_or-set_ne bytes 4 0 flags 0 (omega arith),
      get_or-set_ne bytes 4 1 flags 0 (omega arith),
      get_or-set_ne bytes 4 2 flags 0 (omega arith),
      get_or-set_ne bytes 4 3 flags 0 (omega arith),
      get_or-set_ne bytes 4 j flags 0 (omega arith),
    )

take-length : (xs : List ℕ) → take (length xs) xs ≡ xs
take-length [] = refl
take-length (x ∷ xs) = ap (λ l. x ∷ l) (take-length xs)

-- The oldest frame, taken and put back.
put_back :
    (q : TxQueue) (f : List ℕ) (rest : List (List ℕ))
    → IsValid q
    → contents q ≡ f ∷ rest
    → 0 < length f
    → length f ≤ max_payload_len
    → let (taken, q') = dequeue q true in
      let (accepted, q'') = enqueue q' (some f) (length f) in
      (taken ≡ some f)
      × (accepted ≡ true)
      × (contents q'' ≡ rest ++ (f ∷ []))
      × (q''.dropped_oldest ≡ q.dropped_oldest)
unfolding dequeue
put_back q f rest v eq some_bytes fits =
    let q' = (dequeue q true).1 in
    ground (
      arith,
      eq,
      v.count_in,
      ap length eq,
      length-held q.entries q.capacity q.head q.count,
      dequeue_refines q v,
      ap length (dequeue_refines q v).1,
      length-held q'.entries q'.capacity q'.head q'.count,
      enqueue_refines q' f (length f) (dequeue-IsValid q true v),
      take-length f,
    )

-- What the search for a retransmission leaves of the window, where one is allowed in the slot.
abbrev pub searched : Bool → ℕ → Round → Service → Window
searched use_app slot r s =
    if allow_retx use_app slot s
    then (pick (session_now_ms s.tdma_clock r.pick_at) s).1.window
    else s.window

-- No retransmission goes first: none is allowed in the slot, or the search finds none.
abbrev pub finds_retx : Bool → ℕ → Round → Service → Bool
finds_retx use_app slot r s =
    allow_retx use_app slot s && is_selected (pick (session_now_ms s.tdma_clock r.pick_at) s).0

-- Then the frame at the front of the queue is chosen.
pub select_front :
    (use_app : Bool) (slot : ℕ) (r : Round) (s : Service) (f : List ℕ)
    → (s.queue.count == 0) ≡ false
    → (dequeue s.queue true).0 ≡ some f
    → finds_retx use_app slot r s ≡ false
    → select use_app slot r s ≡ (
      queued f,
      record s { window = searched use_app slot r s; queue = (dequeue s.queue true).1 },
    )
unfolding select select_next pick is_empty
select_front use_app slot r s f there taken none_found = ground (arith, there, taken, none_found)

holds_some :
    (q : TxQueue) (f : List ℕ) (rest : List (List ℕ))
    → contents q ≡ f ∷ rest
    → (q.count == 0) ≡ false
holds_some q f rest eq =
    ground (arith, ap length eq, length-held q.entries q.capacity q.head q.count)

-- A frame from the queue that does not fit in the rest of the slot is not lost: with a fresh sync, before
-- the slot's end and where no retransmission is allowed in the slot or none is found, the round makes no
-- call on the driver, and the frame at the front of the queue goes to its back. No eviction is counted. The
-- window of pending frames is what the search for a retransmission leaves, where one is allowed, and
-- else as it was.
pub drain_round_defers :
    (profile : NetworkProfile) (use_app : Bool) (slot sends : ℕ) (r : Round) (s : Service)
    (f : List ℕ) (rest : List (List ℕ))
    → IsValid s.queue
    → contents s.queue ≡ f ∷ rest
    → 0 < length f
    → length f ≤ max_payload_len
    → finds_retx use_app slot r s ≡ false
    → leb (slot_end_ms s.cfg) (position_in_slot_ms s.tdma_clock r.budget_at) ≡ false
    → fits_in_slot profile r.fit_at f s ≡ false
    → (s' : Service) × (drain_round profile true use_app slot sends r s ≡ stopped s' [])
      × (contents s'.queue ≡ rest ++ (f ∷ []))
      × (s'.queue.dropped_oldest ≡ s.queue.dropped_oldest)
      × (s'.window ≡ searched use_app slot r s)
unfolding drain_round send_or_defer defer fits_in_slot
drain_round_defers profile use_app slot sends r s f rest v eq some_bytes short no_retx early late =
    let (taken, accepted, back, same) = put_back s.queue f rest v eq some_bytes short in
    let queue = (enqueue (dequeue s.queue true).1 (some f) (length f)).1 in
    (
      record s { window = searched use_app slot r s; queue = queue },
      rw
          (
            early,
            select_front use_app slot r s f (holds_some s.queue f rest eq) taken no_retx,
            late,
            accepted,
          )
          refl,
      back,
      same,
      refl,
    )

-- A frame at the front of the queue that fits goes on the air in the round.
pub drain_round_sends :
    (profile : NetworkProfile) (use_app : Bool) (slot sends : ℕ) (r : Round) (s : Service)
    (f : List ℕ) (rest : List (List ℕ))
    → IsValid s.queue
    → contents s.queue ≡ f ∷ rest
    → 0 < length f
    → length f ≤ max_payload_len
    → finds_retx use_app slot r s ≡ false
    → leb (slot_end_ms s.cfg) (position_in_slot_ms s.tdma_clock r.budget_at) ≡ false
    → fits_in_slot profile r.fit_at f s ≡ true
    → calls_of (drain_round profile true use_app slot sends r s) ≡ (transmit s.cfg r.answers f).1
unfolding drain_round send_or_defer fits_in_slot
drain_round_sends profile use_app slot sends r s f rest v eq some_bytes short no_retx early fits =
    let (taken, _, _, _) = put_back s.queue f rest v eq some_bytes short in
    let s' : Service = record s {
      window = searched use_app slot r s;
      queue = (dequeue s.queue true).1;
    } in
    rw (early, select_front use_app slot r s f (holds_some s.queue f rest eq) taken no_retx, fits)
      (calls-send_selected use_app r (queued f) s').0
