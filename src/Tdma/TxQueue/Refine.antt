-- ===== src/Tdma/TxQueue/Refine.antt =====
-- The ring against its contract: a list of frames, oldest first, which makes room by dropping the
-- oldest.
use smart_fires_io_t.Base.{
  ℕ, zero, suc, ◌+◌, ◌-◌, ◌%◌, ◌≤◌, ◌<◌, ◌≡◌, ◌≢◌, ◌⊎◌, inl, inr, List, [], ◌∷◌, ◌++◌, true, false,
  not, ◌&&◌, ◌||◌, Option, none, some, length, length-append, get_or, get_or-set_self,
  get_or-set_ne, set, take, drop, arith, ap, refl, ◌∙◌, ltb, leb, ◌==◌, if◌then◌else◌,
}
use native.Mathlib.Nat.{mod-add-mod, mod-eq_of_lt, mod-eq-sub-mod}
use native.Mathlib.Decide.{dec_lt}
use smart_fires_io_t.Base.Word.{u8, u32}
use smart_fires_io_t.Wire.Constants.{pkt_magic, header_size}
use smart_fires_io_t.Wire.Layout
use smart_fires_io_t.Tdma.TxQueue.{
  Entry, TxQueue, empty_entry, max_payload_len, memcpy, drop_oldest, append_entry, enqueue, dequeue,
  peek_packet_type,
}
use smart_fires_io_t.Tdma.TxQueue.Valid.{
  IsValid, Fits, Fits-get_or, length-take_le, drop_oldest-IsValid, drop_oldest_room,
}

-- The contract.
abbrev pub Frames : Type 0
Frames = List (List ℕ)

abbrev pub tail_of : Frames → Frames
tail_of [] = []
tail_of (x ∷ xs) = xs

abbrev pub push_dropping : ℕ → Frames → List ℕ → Frames
push_dropping cap fs f = (if leb cap (length fs) then tail_of fs else fs) ++ (f ∷ [])

-- The packet type of the oldest frame, if that begins with a whole header.
abbrev pub front_type : Frames → Option ℕ
front_type [] = none
front_type (f ∷ fs) =
    if ltb (length f) header_size || not (get_or f 0 0 == pkt_magic)
    then none
    else some (get_or f 1 0)

abbrev pub pop_front : Frames → Option (List ℕ) × Frames
pop_front [] = (none, [])
pop_front (f ∷ fs) = (some f, fs)

-- The bytes that an entry holds.
abbrev pub frame : Entry → List ℕ
frame e = take e.len e.payload

-- The frames of the `n` entries from index `h` on, going round at `cap`.
abbrev pub held : List Entry → ℕ → ℕ → ℕ → Frames
held es cap h zero = []
held es cap h (suc n) = held es cap h n ++ (frame (get_or es ((h + n) % cap) empty_entry) ∷ [])

abbrev pub contents : TxQueue → Frames
contents q = held q.entries q.capacity q.head q.count

pub length-held : (es : List Entry) (cap h n : ℕ) → length (held es cap h n) ≡ n
length-held es cap h zero = refl
length-held es cap h (suc n) =
    length-append (held es cap h n) (frame (get_or es ((h + n) % cap) empty_entry) ∷ [])
    ∙ omega (arith, length-held es cap h n)

next_place :
    (start steps size : ℕ) → (start + suc steps) % size ≡ ((start + 1) % size + steps) % size
next_place start steps size = rw mod-add-mod (ap (λ place. place % size) (omega arith))

-- The oldest entry is the one at the head.
held-front :
    (es : List Entry) (cap h n : ℕ)
    → h < cap
    → held es cap h (suc n) ≡ frame (get_or es h empty_entry) ∷ held es cap ((h + 1) % cap) n
held-front es cap h zero lt =
    ap (λ i. frame (get_or es i empty_entry) ∷ [])
      (ap (λ k. k % cap) (omega arith) ∙ mod-eq_of_lt lt)
held-front es cap h (suc n) lt =
    ap (λ fs. fs ++ (frame (get_or es ((h + suc n) % cap) empty_entry) ∷ []))
      (held-front es cap h n lt)
    ∙ ap
        (λ i.
          frame (get_or es h empty_entry)
          ∷ (held es cap ((h + 1) % cap) n ++ (frame (get_or es i empty_entry) ∷ [])))
        (next_place h n cap)

wrapped : (x c : ℕ) → x < c + c → ((x < c) × (x % c ≡ x)) ⊎ ((c ≤ x) × (x % c ≡ x - c))
wrapped x c h = elim (dec_lt x c) [
  | yes p ↦ inl (p, mod-eq_of_lt p)
  | no p ↦ inr (
    omega arith,
    mod-eq-sub-mod {n = x} {m = c} (omega arith) ∙ mod-eq_of_lt {n = x - c} {m = c} (omega arith),
  )
]

-- Two places fewer than `cap` steps apart are different.
apart : (h j n cap : ℕ) → h < cap → j < n → n < cap → (h + n) % cap ≢ (h + j) % cap
apart h j n cap a b d = omega (arith, wrapped (h + n) cap, wrapped (h + j) cap)

held-set :
    (es : List Entry) (cap h n k : ℕ) (e : Entry)
    → h < cap
    → n ≤ k
    → k < cap
    → held (set es ((h + k) % cap) e) cap h n ≡ held es cap h n
held-set es cap h zero k e a b d = refl
held-set es cap h (suc n) k e a b d = rw (
  held-set es cap h n k e a (omega arith) d,
  get_or-set_ne es ((h + k) % cap) ((h + n) % cap) e empty_entry (apart h n k cap a b d),
)

take-append_take :
    (src rest : List ℕ) (n : ℕ) → n ≤ length src → take n (take n src ++ rest) ≡ take n src
take-append_take src rest zero h = refl
take-append_take [] rest (suc n) h = absurd (omega arith)
take-append_take (x ∷ src) rest (suc n) h =
    ap (λ l. x ∷ l) (take-append_take src rest n (omega arith))

held_ne_zero :
    (es : List Entry) (cap h n : ℕ)
    → h < cap
    → n ≢ 0
    → held es cap h n ≡ frame (get_or es h empty_entry) ∷ held es cap ((h + 1) % cap) (n - 1)
held_ne_zero es cap h zero lt p = absurd (p refl)
held_ne_zero es cap h (suc n) lt p =
    let e : n ≡ suc n - 1 = omega arith in
    held-front es cap h n lt
    ∙ ap (λ k. frame (get_or es h empty_entry) ∷ held es cap ((h + 1) % cap) k) e

drop_oldest-contents :
    (q : TxQueue)
    → IsValid q
    → contents (drop_oldest q)
      ≡ (if leb q.capacity (length (contents q)) then tail_of (contents q) else contents q)
unfolding drop_oldest
drop_oldest-contents q v = ground (
  arith,
  length-held q.entries q.capacity q.head q.count,
  held_ne_zero q.entries q.capacity q.head q.count,
)

-- A write just past the held entries extends them by what was written.
held-append :
    (es : List Entry) (cap h n i : ℕ) (e : Entry)
    → h < cap
    → n < cap
    → cap ≤ length es
    → i ≡ (h + n) % cap
    → held (set es i e) cap h (suc n) ≡ held es cap h n ++ (frame e ∷ [])
held-append es cap h n i e a b c at =
    ground (arith, held-set es cap h n n e, get_or-set_self es ((h + n) % cap) e empty_entry)

append_entry-contents :
    (q : TxQueue) (bytes : List ℕ) (len : ℕ)
    → IsValid q
    → q.count < q.capacity
    → len ≤ length bytes
    → contents (append_entry q bytes len) ≡ contents q ++ (take len bytes ∷ [])
unfolding append_entry
append_entry-contents q bytes len v room fits =
    let old = get_or q.entries q.tail empty_entry in
    let e : Entry = record { payload = memcpy old.payload bytes len; len = len } in
    ground (
      arith,
      held-append q.entries q.capacity q.head q.count q.tail e,
      take-append_take bytes (drop len old.payload) len,
      ap (held (set q.entries q.tail e) q.capacity q.head) (grown q.count (omega arith)),
    )
  where
    grown : (n : ℕ) → n < 8 → u8 (n + 1) ≡ suc n
    grown n h = omega arith

dropped-enqueue :
    (q : TxQueue) (bytes : List ℕ) (len : ℕ)
    → (append_entry (drop_oldest q) bytes len).dropped_oldest
      ≡ (if leb q.capacity q.count then u32 (q.dropped_oldest + 1) else q.dropped_oldest)
unfolding append_entry drop_oldest
dropped-enqueue q bytes len = ground arith

capacity-drop_oldest : (q : TxQueue) → (drop_oldest q).capacity ≡ q.capacity
unfolding drop_oldest
capacity-drop_oldest q = ground arith

-- On a payload that it accepts, `enqueue` returns true and appends exactly its `len` bytes, after
-- dropping the oldest frame if the queue was full; it refuses a null pointer, a length of 0 and a
-- length above 220, and then the queue is unchanged. The dropped counter counts the evictions.
pub enqueue_refines :
    (q : TxQueue) (bytes : List ℕ) (len : ℕ)
    → IsValid q
    → len ≤ length bytes
    → let (accepted, q') = enqueue q (some bytes) len in
      (accepted ≡ (ltb 0 len && leb len max_payload_len))
      × (contents q' ≡ (
          if accepted then push_dropping q.capacity (contents q) (take len bytes) else contents q))
      × (q'.dropped_oldest ≡ (
          if accepted && leb q.capacity (length (contents q))
          then u32 (q.dropped_oldest + 1)
          else q.dropped_oldest))
      × (enqueue q none len ≡ (false, q))
unfolding enqueue
enqueue_refines q bytes len v fits = ground (
  arith,
  drop_oldest-contents q v,
  drop_oldest-IsValid q v,
  drop_oldest_room q v,
  append_entry-contents (drop_oldest q) bytes len,
  dropped-enqueue q bytes len,
  length-held q.entries q.capacity q.head q.count,
)

-- `dequeue` with a buffer returns the oldest frame and leaves the others; without one, or on an empty
-- queue, it returns nothing and changes nothing.
pub dequeue_refines :
    (q : TxQueue)
    → IsValid q
    → ((dequeue q true).0 ≡ (pop_front (contents q)).0)
      × (contents (dequeue q true).1 ≡ (pop_front (contents q)).1)
      × (dequeue q false ≡ (none, q))
unfolding dequeue
dequeue_refines q v = ground (arith, held_ne_zero q.entries q.capacity q.head q.count)

get_or-take : (xs : List ℕ) (n i : ℕ) → i < n → get_or (take n xs) i 0 ≡ get_or xs i 0
get_or-take xs zero i h = absurd (omega arith)
get_or-take [] (suc n) i h = refl
get_or-take (x ∷ xs) (suc n) zero h = refl
get_or-take (x ∷ xs) (suc n) (suc i) h = get_or-take xs n i (omega arith)

-- `peekPacketType` tells the packet type of the frame that `dequeue` would return next, and nothing on
-- an empty queue or before a frame that has no whole header or the wrong magic byte.
pub peek_refines : (q : TxQueue) → IsValid q → peek_packet_type q ≡ front_type (contents q)
unfolding peek_packet_type Layout.header_of
peek_refines q v =
    let e = get_or q.entries q.head empty_entry in
    let fit : Fits e = Fits-get_or q.entries q.head v.slots in
    ground (
      arith,
      held_ne_zero q.entries q.capacity q.head q.count,
      length-take_le e.payload e.len,
      get_or-take e.payload e.len 0,
      get_or-take e.payload e.len 1,
    )
