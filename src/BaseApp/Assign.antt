-- ===== src/BaseApp/Assign.antt =====
-- Node identities and the frames that SmartFiresBaseApp.cpp keeps for its own slot: `_nodeAssignments` and
-- `_pendingCommands`. Readings and answers are arguments, by the index of the entry.
use smart_fires_io_t.Base.{
  ℕ, zero, suc, ◌+◌, ◌==◌, Bool, true, false, not, ◌&&◌, ◌||◌, ltb, leb, if◌then◌else◌, List, [],
  ◌∷◌, ◌++◌, Option, none, some, get_or, set, length,
}
use smart_fires_io_t.Base.Word.{u8, u32, sub_u32}
use smart_fires_io_t.Config.Profile.{NetworkProfile}
use smart_fires_io_t.Wire.Constants.{time_sync_lora_size}
use smart_fires_io_t.Wire.Encode.{encode_time_sync}
use smart_fires_io_t.Wire.Packet.{TimeSyncPayload}
use smart_fires_io_t.BaseApp.Tracker.{or_this}
use smart_fires_io_t.BaseApp.Flush.{Timing, Sent, base_tx_deadline_allows}

pub record NodeAssignment : Type 0 where
  pub in_use : Bool
  pub uid_hash : ℕ
  pub node_id : ℕ
  pub pending_direct_sync : Bool
  pub pending_radio_addr : ℕ
  pub pending_trigger_seq : ℕ

abbrev pub no_assignment : NodeAssignment
no_assignment = record {
  in_use = false;
  uid_hash = 0;
  node_id = 0;
  pending_direct_sync = false;
  pending_radio_addr = 0;
  pending_trigger_seq = 0;
}

abbrev pub first_node_id : ℕ
first_node_id = 2

-- How the scan of `findOrCreateNodeAssignment` ends.
pub data Lookup : Type 0 where
  known free_at : ℕ → Lookup
  no_room : Lookup

abbrev pub lookup_of : Option ℕ → Lookup
lookup_of none = no_room
lookup_of (some i) = free_at i

unfoldable pub lookup_from : ℕ → ℕ → List NodeAssignment → Option ℕ → Lookup
lookup_from uid_hash i [] free = lookup_of free
lookup_from uid_hash i (a ∷ rest) free =
    let later = lookup_from uid_hash (i + 1) rest (if a.in_use then free else or_this i free) in
    if a.in_use && a.uid_hash == uid_hash then known i else later

-- The index of the assignment, where there is one, and the assignments afterwards.
unfoldable pub find_or_create_node_assignment :
    ℕ → List NodeAssignment → Option ℕ × List NodeAssignment
unfolding lookup_from
find_or_create_node_assignment uid_hash entries = elim (lookup_from uid_hash 0 entries none) [
  | known i ↦ (some i, entries)
  | free_at i ↦
      let old = get_or entries i no_assignment in
      (
        some i,
        set entries i
            (record old { in_use = true; uid_hash = uid_hash; node_id = u8 (first_node_id + i) }),
      )
  | no_room ↦ (none, entries)
]

-- The time that the base announces.
pub record TimeSource : Type 0 where
  pub session_id : ℕ
  pub has_jetson_time : Bool
  pub jetson_session_id : ℕ
  pub jetson_session_ms_at_update : ℕ
  pub local_ms_at_jetson_update : ℕ

unfoldable pub update_jetson_time_source : ℕ → TimeSyncPayload → TimeSource → TimeSource
update_jetson_time_source now ts t = record t {
  has_jetson_time = true;
  jetson_session_id = ts.session_id;
  jetson_session_ms_at_update = ts.session_time_ms;
  local_ms_at_jetson_update = now;
}

unfoldable pub current_time_sync_payload : ℕ → TimeSource → TimeSyncPayload
current_time_sync_payload now t =
    if t.has_jetson_time
    then (record {
      session_id = t.jetson_session_id;
      session_time_ms =
          u32 (t.jetson_session_ms_at_update + sub_u32 now t.local_ms_at_jetson_update);
    })
    else (record { session_id = t.session_id; session_time_ms = now })

-- The assignments, with the counters of time syncs.
pub record Syncs : Type 0 where
  pub assignments : List NodeAssignment
  pub time_sync_seq : ℕ
  pub time_sync_tx_count : ℕ

-- The direct reply to a node.
unfoldable pub send_direct_time_sync :
    Bool → TimeSyncPayload → ℕ → ℕ → Syncs → Bool × Syncs × List Sent
send_direct_time_sync radio_ok ts radio_addr node_id s =
    let s' : Syncs = record s { time_sync_seq = u8 (s.time_sync_seq + 1) } in
    elim (encode_time_sync node_id s.time_sync_seq ts time_sync_lora_size 0) [
      | none ↦ (false, s', [])
      | some payload ↦ (
        radio_ok,
        record s' { time_sync_tx_count = u32 (s.time_sync_tx_count + (if radio_ok then 1 else 0)) },
        record { to_addr = radio_addr; bytes = payload } ∷ [],
      )
    ]

-- The slot position, the local clock and the radio's answer at each index of the loop.
pub record SyncEnv : Type 0 where
  pub position_at : ℕ → ℕ
  pub now_at : ℕ → ℕ
  pub radio_ok : ℕ → Bool

abbrev pub sync_done : ℕ → Syncs → Syncs
sync_done i s =
    let a = get_or s.assignments i no_assignment in
    record s { assignments = set s.assignments i (record a { pending_direct_sync = false }) }

-- The loop of `sendPendingDirectTimeSync` from an index on.
unfoldable pub send_pending_direct_time_sync_from :
    NetworkProfile → Timing → SyncEnv → TimeSource → ℕ → ℕ → Syncs → Bool × Syncs × List Sent
unfolding base_tx_deadline_allows current_time_sync_payload send_direct_time_sync
send_pending_direct_time_sync_from profile cfg env source zero i s = (false, s, [])
send_pending_direct_time_sync_from profile cfg env source (suc left) i s =
    let a = get_or s.assignments i no_assignment in
    let ts = current_time_sync_payload (env.now_at i) source in
    let (ok, s', sent) =
      send_direct_time_sync (env.radio_ok i) ts a.pending_radio_addr a.node_id s in
    let skipped = not a.in_use || not a.pending_direct_sync in
    let rest =
      send_pending_direct_time_sync_from profile cfg env source left (i + 1)
        (if skipped then s else s') in
    if skipped
    then rest
    else if not (base_tx_deadline_allows profile cfg (env.position_at i) time_sync_lora_size)
    then (false, s, [])
    else if not ok
    then (rest.0, rest.1, sent ++ rest.2)
    else (true, sync_done i s', sent)

unfoldable pub send_pending_direct_time_sync :
    NetworkProfile → Timing → SyncEnv → TimeSource → Syncs → Bool × Syncs × List Sent
unfolding send_pending_direct_time_sync_from
send_pending_direct_time_sync profile cfg env source s =
    send_pending_direct_time_sync_from profile cfg env source (length s.assignments) 0 s

pub record PendingCommand : Type 0 where
  pub in_use : Bool
  pub target_node_id : ℕ
  pub payload : List ℕ
  pub failed_send_attempts : ℕ

-- `kPendingCommandPayloadSize` and `kMaxPendingCommandSendAttempts`.
abbrev pub pending_command_payload_size : ℕ
pending_command_payload_size = 9

abbrev pub max_pending_command_send_attempts : ℕ
max_pending_command_send_attempts = 3

-- The loop over the commands. A command stays only where a send failed fewer than three times.
unfoldable pub send_pending_command_from :
    NetworkProfile
    → Timing
    → (ℕ → ℕ)
    → (ℕ → Bool)
    → ℕ
    → List PendingCommand
    → Bool × List PendingCommand × List Sent
unfolding base_tx_deadline_allows
send_pending_command_from profile cfg position_at radio_ok i [] = (false, [], [])
send_pending_command_from profile cfg position_at radio_ok i (c ∷ cs) =
    let (ok, cs', sent) = send_pending_command_from profile cfg position_at radio_ok (i + 1) cs in
    let out : Sent = record { to_addr = c.target_node_id; bytes = c.payload } in
    let failures = u8 (c.failed_send_attempts + 1) in
    let kept : PendingCommand = record c {
      failed_send_attempts = failures;
      in_use = not (leb max_pending_command_send_attempts failures);
    } in
    if not c.in_use
    then (ok, c ∷ cs', sent)
    else if not (base_tx_deadline_allows profile cfg (position_at i) (length c.payload))
    then (false, c ∷ cs, [])
    else if radio_ok i
    then (true, record c { in_use = false } ∷ cs, out ∷ [])
    else (ok, kept ∷ cs', out ∷ sent)

unfoldable pub send_pending_command :
    NetworkProfile
    → Timing
    → (ℕ → ℕ)
    → (ℕ → Bool)
    → List PendingCommand
    → Bool × List PendingCommand × List Sent
unfolding send_pending_command_from
send_pending_command profile cfg position_at radio_ok cs =
    send_pending_command_from profile cfg position_at radio_ok 0 cs

-- The first free place takes the command.
unfoldable pub enqueue_pending_command_from :
    ℕ → List ℕ → List PendingCommand → Bool × List PendingCommand
enqueue_pending_command_from target payload [] = (false, [])
enqueue_pending_command_from target payload (c ∷ cs) =
    let (ok, cs') = enqueue_pending_command_from target payload cs in
    if c.in_use then (ok, c ∷ cs') else (
      true,
      record { in_use = true; target_node_id = target; payload = payload; failed_send_attempts = 0 }
          ∷ cs,
    )

unfoldable pub enqueue_pending_command :
    ℕ → Option (List ℕ) → List PendingCommand → Bool × List PendingCommand
unfolding enqueue_pending_command_from
enqueue_pending_command target none cs = (false, cs)
enqueue_pending_command target (some payload) cs =
    if length payload == 0 || ltb pending_command_payload_size (length payload)
    then (false, cs)
    else enqueue_pending_command_from target payload cs
