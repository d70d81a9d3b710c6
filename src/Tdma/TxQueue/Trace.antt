-- ===== src/Tdma/TxQueue/Trace.antt =====
-- Any sequence of calls on the ring against the same sequence on the list of frames.
use smart_fires_io_t.Base.{
  ℕ, ◌≡◌, List, [], ◌∷◌, Bool, true, false, ◌&&◌, Option, some, length, ltb, leb, if◌then◌else◌,
  arith, ap, ap₂, refl, ◌∙◌, take,
}
use smart_fires_io_t.Tdma.TxQueue.{
  TxQueue, max_payload_len, enqueue, append_entry, drop_oldest, dequeue, clear, peek_packet_type,
}
use smart_fires_io_t.Tdma.TxQueue.Valid.{IsValid, enqueue-IsValid, dequeue-IsValid, clear-IsValid}
use smart_fires_io_t.Tdma.TxQueue.Refine.{
  Frames, push_dropping, pop_front, front_type, contents, enqueue_refines, dequeue_refines,
  peek_refines,
}

pub data Op : Type 0 where
  put : List ℕ → Op
  get : Op
  look : Op
  wipe : Op

-- What a caller sees of a call.
pub data Reply : Type 0 where
  accepted : Bool → Reply
  got : Option (List ℕ) → Reply
  saw : Option ℕ → Reply
  wiped : Reply

-- `put` offers a whole buffer, `get` passes a buffer to write to.
unfoldable pub step : TxQueue → Op → Reply × TxQueue
step q (put bytes) = let (r, q') = enqueue q (some bytes) (length bytes) in (accepted r, q')
step q get = let (r, q') = dequeue q true in (got r, q')
step q look = (saw (peek_packet_type q), q)
step q wipe = (wiped, clear q)

unfoldable pub run : TxQueue → List Op → List Reply
unfolding step
run q [] = []
run q (op ∷ ops) = let (r, q') = step q op in r ∷ run q' ops

-- The same calls on the contract.
unfoldable pub step_frames : ℕ → Frames → Op → Reply × Frames
step_frames cap fs (put bytes) =
    if ltb 0 (length bytes) && leb (length bytes) max_payload_len
    then (accepted true, push_dropping cap fs bytes)
    else (accepted false, fs)
step_frames cap fs get = let (r, fs') = pop_front fs in (got r, fs')
step_frames cap fs look = (saw (front_type fs), fs)
step_frames cap fs wipe = (wiped, [])

unfoldable pub run_frames : ℕ → Frames → List Op → List Reply
unfolding step_frames
run_frames cap fs [] = []
run_frames cap fs (op ∷ ops) = let (r, fs') = step_frames cap fs op in r ∷ run_frames cap fs' ops

step-IsValid : (q : TxQueue) (op : Op) → IsValid q → IsValid (step q op).1
unfolding step
step-IsValid q (put bytes) v = enqueue-IsValid q (some bytes) (length bytes) (omega arith) v
step-IsValid q get v = dequeue-IsValid q true v
step-IsValid q look v = v
step-IsValid q wipe v = clear-IsValid q v

step-capacity : (q : TxQueue) (op : Op) → (step q op).1.capacity ≡ q.capacity
unfolding step enqueue append_entry drop_oldest dequeue clear
step-capacity q (put bytes) = ground arith
step-capacity q get = ground arith
step-capacity q look = refl
step-capacity q wipe = refl

take_whole : (xs : List ℕ) → take (length xs) xs ≡ xs
take_whole [] = refl
take_whole (x ∷ xs) = ap (λ l. x ∷ l) (take_whole xs)

step_refines :
    (q : TxQueue) (op : Op)
    → IsValid q
    → ((step q op).0 ≡ (step_frames q.capacity (contents q) op).0)
      × (contents (step q op).1 ≡ (step_frames q.capacity (contents q) op).1)
unfolding step step_frames
step_refines q (put bytes) v =
    ground (arith, enqueue_refines q bytes (length bytes) v, take_whole bytes)
step_refines q get v = ground (arith, dequeue_refines q v)
step_refines q look v = ground (arith, peek_refines q v)
step_refines q wipe v = unfold clear in (refl, refl)

-- No sequence of offers, fetches, peeks and clears tells a valid ring from the list of its frames
-- that drops the oldest at the ring's capacity: every reply is the same.
pub run_refines :
    (q : TxQueue) (ops : List Op) → IsValid q → run q ops ≡ run_frames q.capacity (contents q) ops
unfolding run run_frames
run_refines q [] v = refl
run_refines q (op ∷ ops) v =
    let (r, e) = step_refines q op v in
    ap₂ ◌∷◌ r (
      run_refines (step q op).1 ops (step-IsValid q op v)
      ∙ ap₂ (λ c fs. run_frames c fs ops) (step-capacity q op) e)
