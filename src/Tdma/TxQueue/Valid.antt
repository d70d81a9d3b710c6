-- ===== src/Tdma/TxQueue/Valid.antt =====
-- The representation invariant of the queue: indices in range, no wrap of a byte.
use smart_fires_io_t.Base.{
  ℕ, ◌+◌, ◌-◌, ◌%◌, ◌≤◌, ◌<◌, ◌≡◌, List, [], ◌∷◌, Bool, Option, none, some, refl, ◌∙◌, length,
  length-set, length-append, get_or, set, take, drop, zero, suc, arith, ap,
}
use native.Mathlib.Nat.{mod-add-mod}
use smart_fires_io_t.Tdma.TxQueue.{
  Entry, TxQueue, empty_entry, max_depth, max_payload_len, memcpy, new_queue, drop_oldest,
  append_entry, enqueue, dequeue, clear,
}

-- A slot of the array: its full size, and a length that fits in it.
abbrev pub Fits : Entry → Type 0
Fits e = (length e.payload ≡ max_payload_len) × (e.len ≤ max_payload_len)

abbrev pub AllFit : List Entry → Type 0
AllFit [] = Unit {0}
AllFit (e ∷ es) = Fits e × AllFit es

pub record IsValid (q : TxQueue) : Type 0 where
  pub storage : length q.entries ≡ max_depth
  pub slots : AllFit q.entries
  pub some_room : 1 ≤ q.capacity
  pub room_fits : q.capacity ≤ max_depth
  pub head_in : q.head < q.capacity
  pub count_in : q.count ≤ q.capacity
  pub tail_at : q.tail ≡ (q.head + q.count) % q.capacity

AllFit-set : (es : List Entry) (i : ℕ) (e : Entry) → AllFit es → Fits e → AllFit (set es i e)
AllFit-set [] i e v f = tt
AllFit-set (x ∷ es) zero e v f = (f, v.1)
AllFit-set (x ∷ es) (suc i) e v f = (v.0, AllFit-set es i e v.1 f)

pub Fits-get_or : (es : List Entry) (i : ℕ) → AllFit es → Fits (get_or es i empty_entry)
Fits-get_or [] i v = (refl, omega arith)
Fits-get_or (x ∷ es) zero v = v.0
Fits-get_or (x ∷ es) (suc i) v = Fits-get_or es i v.1

pub length-take_le : (xs : List ℕ) (n : ℕ) → n ≤ length xs → length (take n xs) ≡ n
length-take_le xs zero h = refl
length-take_le [] (suc n) h = absurd (omega arith)
length-take_le (x ∷ xs) (suc n) h = ap suc (length-take_le xs n (omega arith))

length-drop : (xs : List ℕ) (n : ℕ) → length (drop n xs) ≡ length xs - n
length-drop xs zero = omega arith
length-drop [] (suc n) = omega arith
length-drop (x ∷ xs) (suc n) = omega (arith, length-drop xs n)

-- `memcpy` stays inside a destination that is large enough.
length-memcpy :
    (dst src : List ℕ) (n : ℕ)
    → n ≤ length src
    → n ≤ length dst
    → length (memcpy dst src n) ≡ length dst
length-memcpy dst src n h k =
    omega
      (arith, length-append (take n src) (drop n dst), length-take_le src n h, length-drop dst n)

-- Every constructed queue is valid and has a capacity from 1 to 8, whatever depth is asked for.
pub new_queue-IsValid : (depth : ℕ) → IsValid (new_queue depth)
unfolding new_queue
new_queue-IsValid depth = record {
  storage = refl;
  slots = omega arith;
  some_room = ground arith;
  room_fits = ground arith;
  head_in = ground arith;
  count_in = ground arith;
  tail_at = ground arith;
}

pub next-mod : (h n c : ℕ) → h < c → 1 ≤ n → n ≤ c → ((h + 1) % c + (n - 1)) % c ≡ (h + n) % c
next-mod h n c a b d = rw mod-add-mod (ap (λ k. k % c) (omega arith))

pub drop_oldest-IsValid : (q : TxQueue) → IsValid q → IsValid (drop_oldest q)
unfolding drop_oldest
drop_oldest-IsValid q v = ground (arith, next-mod q.head q.count q.capacity)

pub suc-mod : (x c : ℕ) → 0 < c → (x % c + 1) % c ≡ (x + 1) % c
suc-mod x c h = rw mod-add-mod

-- Where an entry is free, `enqueue` writes at the tail.
pub append_entry-IsValid :
    (q : TxQueue) (bytes : List ℕ) (len : ℕ)
    → IsValid q
    → q.count < q.capacity
    → len ≤ length bytes
    → len ≤ max_payload_len
    → IsValid (append_entry q bytes len)
unfolding append_entry
append_entry-IsValid q bytes len v h fits small =
    let old = get_or q.entries q.tail empty_entry in
    let e : Entry = record { payload = memcpy old.payload bytes len; len = len } in
    let was : Fits old = Fits-get_or q.entries q.tail v.slots in
    let now : Fits e = (length-memcpy old.payload bytes len fits (omega arith) ∙ was.0, small) in
    record {
      storage = length-set q.entries q.tail e ∙ v.storage;
      slots = AllFit-set q.entries q.tail e v.slots now;
      some_room = v.some_room;
      room_fits = v.room_fits;
      head_in = v.head_in;
      count_in = omega arith;
      tail_at = ground (arith, suc-mod (q.head + q.count) q.capacity);
    }

pub drop_oldest_room : (q : TxQueue) → IsValid q → (drop_oldest q).count < (drop_oldest q).capacity
unfolding drop_oldest
drop_oldest_room q v = ground arith

-- The buffer behind a pointer has `len` bytes.
abbrev pub Holds : Option (List ℕ) → ℕ → Type 0
Holds none len = Unit {0}
Holds (some bytes) len = len ≤ length bytes

-- `enqueue` of a buffer that holds `len` bytes keeps the invariant, also where it evicts and where it
-- refuses the payload: the indices and the copied bytes stay inside the arrays.
pub enqueue-IsValid :
    (q : TxQueue) (payload : Option (List ℕ)) (len : ℕ)
    → Holds payload len
    → IsValid q
    → IsValid (enqueue q payload len).1
unfolding enqueue
enqueue-IsValid q none len h v = v
enqueue-IsValid q (some bytes) len h v = ground (
  arith,
  append_entry-IsValid (drop_oldest q) bytes len (drop_oldest-IsValid q v) (drop_oldest_room q v) h,
)

-- `dequeue` keeps the invariant.
pub dequeue-IsValid : (q : TxQueue) (buffer : Bool) → IsValid q → IsValid (dequeue q buffer).1
unfolding dequeue
dequeue-IsValid q buffer v = ground (arith, next-mod q.head q.count q.capacity)

-- `clear` keeps the invariant.
pub clear-IsValid : (q : TxQueue) → IsValid q → IsValid (clear q)
unfolding clear
clear-IsValid q v = ground arith
