-- ===== src/Tdma/TxQueue.antt =====
-- TdmaTxQueue (platformio/src/radio/TdmaTxQueue.cpp): a ring of outgoing payloads that drops the
-- oldest when it is full. A pointer that may be null is an option; a call returns the new queue.
pub mod Valid
pub mod Refine
pub mod Trace
mod Checks
use smart_fires_io_t.Base.{
  ℕ, ◌+◌, ◌-◌, ◌*◌, ◌/◌, ◌%◌, Bool, true, false, not, ◌&&◌, ◌||◌, ltb, leb, ◌==◌, if◌then◌else◌,
  List, [], ◌∷◌, ◌++◌, Option, none, some, take, drop, replicate, set, get_or,
}
use smart_fires_io_t.Base.Word.{u8, u32}
use smart_fires_io_t.Wire.Constants.{pkt_magic, header_size}
use smart_fires_io_t.Wire.Layout

abbrev pub max_payload_len : ℕ
max_payload_len = 220

-- `NetworkConfig::kQueueCapacityHardCap`.
abbrev pub max_depth : ℕ
max_depth = 8

pub record Entry : Type 0 where
  pub payload : List ℕ
  pub len : ℕ

pub record TxQueue : Type 0 where
  pub entries : List Entry
  pub capacity : ℕ
  pub head : ℕ
  pub tail : ℕ
  pub count : ℕ
  pub dropped_oldest : ℕ

abbrev pub empty_entry : Entry
empty_entry = record { payload = replicate max_payload_len 0; len = 0 }

unfoldable pub new_queue : ℕ → TxQueue
new_queue depth = record {
  entries = replicate max_depth empty_entry;
  capacity = if depth == 0 then 1 else if ltb max_depth depth then max_depth else depth;
  head = 0;
  tail = 0;
  count = 0;
  dropped_oldest = 0;
}

-- `memcpy(dst, src, n)`: the rest of `dst` keeps its bytes.
abbrev pub memcpy : List ℕ → List ℕ → ℕ → List ℕ
memcpy dst src n = take n src ++ drop n dst

-- The eviction at a full queue; `count--` runs only at a positive count.
unfoldable pub drop_oldest : TxQueue → TxQueue
drop_oldest q =
    if leb q.capacity q.count
    then (record q {
      head = u8 ((q.head + 1) % q.capacity);
      count = q.count - 1;
      dropped_oldest = u32 (q.dropped_oldest + 1);
    })
    else q

-- The write at the tail.
unfoldable pub append_entry : TxQueue → List ℕ → ℕ → TxQueue
append_entry q bytes len =
    let old = get_or q.entries q.tail empty_entry in
    record q {
      entries = set q.entries q.tail (record { payload = memcpy old.payload bytes len; len = len });
      tail = u8 ((q.tail + 1) % q.capacity);
      count = u8 (q.count + 1);
    }

unfoldable pub enqueue : TxQueue → Option (List ℕ) → ℕ → Bool × TxQueue
enqueue q none len = (false, q)
enqueue q (some bytes) len =
    if len == 0 || ltb max_payload_len len
    then (false, q)
    else (true, append_entry (drop_oldest q) bytes len)

-- `buffer` says whether the caller gave one; `some` is the bytes written to it, `lenOut` of them.
unfoldable pub dequeue : TxQueue → Bool → Option (List ℕ) × TxQueue
dequeue q buffer =
    let e = get_or q.entries q.head empty_entry in
    if not buffer || q.count == 0 then (none, q) else (
      some (take e.len e.payload),
      record q { head = u8 ((q.head + 1) % q.capacity); count = q.count - 1 },
    )

unfoldable pub peek_packet_type : TxQueue → Option ℕ
peek_packet_type q =
    let e = get_or q.entries q.head empty_entry in
    let hdr = Layout.header_of e.payload in
    if q.count == 0 || ltb e.len header_size
    then none
    else if not (hdr.magic == pkt_magic)
    then none
    else some hdr.pkt_type

unfoldable pub clear : TxQueue → TxQueue
clear q = record q { head = 0; tail = 0; count = 0 }

unfoldable pub is_empty : TxQueue → Bool
is_empty q = q.count == 0

unfoldable pub is_full : TxQueue → Bool
is_full q = leb q.capacity q.count
