-- ===== src/BaseApp/OneSend/Kinds.antt =====
-- How many frames each kind of send of the base in SmartFiresBaseApp.cpp puts on the air.
use smart_fires_io_t.Base.{
  ℕ, zero, suc, ◌+◌, ◌≤◌, ◌≡◌, refl, sym, subst, Bool, true, false, not, ◌&&◌, ◌||◌, ◌%◌, List, [],
  ◌∷◌, ◌++◌, if◌then◌else◌, if_both, if_cases, ltb, none, some, is_some, length, get_or, arith,
}
use smart_fires_io_t.Base.Word.{u8, u32, sub_u32}
use smart_fires_io_t.Config.Profile.{NetworkProfile}
use smart_fires_io_t.Wire.Constants.{time_sync_lora_size, ack_summary_lora_size}
use smart_fires_io_t.Wire.Packet.{TimeSyncPayload}
use smart_fires_io_t.Wire.Encode.{encode_time_sync, encode_ack_summary}
use smart_fires_io_t.BaseApp.Tracker.{AckTracker, Acks, empty_tracker, max_ack_tracked_nodes}
use smart_fires_io_t.BaseApp.Flush.{
  Timing, Sent, Env, skipped, suppressed, due, due_of, Turn, returned, next,
  base_tx_deadline_allows, send_ack_summary, flush_due, with_tracker, flush_round, flush_from,
  send_pending_ack_summary,
}
use smart_fires_io_t.BaseApp.Assign.{
  Syncs, SyncEnv, TimeSource, PendingCommand, no_assignment, sync_done, send_direct_time_sync,
  send_pending_direct_time_sync_from, send_pending_command_from, current_time_sync_payload,
}

-- At most one frame, and none where the send is not reported as done.
abbrev pub One {ℓ} : {S : Type ℓ} → Bool × S × List Sent → Type 0
One (ok, s, sent) = (length sent ≤ 1) × (ok ≡ false → sent ≡ [])

-- A send that may be tried again elsewhere: where it is not done, the rest has its chance.
after_One {ℓ} :
    {S : Type ℓ} (ok : Bool) (s : S) (sent : List Sent) (r : Bool × S × List Sent)
    → One (ok, s, sent)
    → One r
    → One (if not ok then (r.0, r.1, sent ++ r.2) else (true, s, sent))
after_One true s sent r h k = (h.0, λ e. absurd (ground (arith, e)))
after_One false s sent r h k = subst (λ f. One (r.0, r.1, f ++ r.2)) (sym (h.1 refl)) k

send_direct-One :
    (ts : TimeSyncPayload) (addr id : ℕ) (s : Syncs) → One (send_direct_time_sync true ts addr id s)
unfolding send_direct_time_sync
send_direct-One ts addr id s =
    let s' : Syncs = record s { time_sync_seq = u8 (s.time_sync_seq + 1) } in
    elim (encode_time_sync id s.time_sync_seq ts time_sync_lora_size 0)
      as (λ payload. One {S = Syncs} (elim payload [
        | none ↦ (false, s', [])
        | some bytes ↦ (
          true,
          record s' { time_sync_tx_count = u32 (s.time_sync_tx_count + 1) },
          record { to_addr = addr; bytes = bytes } ∷ [],
        )
      ])) [
        | none ↦ (omega arith, λ _. refl)
        | some bytes ↦ (omega arith, λ e. absurd (ground (arith, e)))
      ]

pub direct_from-One :
    (profile : NetworkProfile) (cfg : Timing) (env : SyncEnv) (source : TimeSource) (left i : ℕ)
    (s : Syncs)
    → ((n : ℕ) → env.radio_ok n ≡ true)
    → One (send_pending_direct_time_sync_from profile cfg env source left i s)
unfolding send_pending_direct_time_sync_from
direct_from-One profile cfg env source zero i s all_ok = (omega arith, λ _. refl)
direct_from-One profile cfg env source (suc left) i s all_ok =
    let a = get_or s.assignments i no_assignment in
    let ts = current_time_sync_payload (env.now_at i) source in
    let r = send_direct_time_sync (env.radio_ok i) ts a.pending_radio_addr a.node_id s in
    let sent : One r =
      subst (λ b. One (send_direct_time_sync b ts a.pending_radio_addr a.node_id s))
        (sym (all_ok i)) (send_direct-One ts a.pending_radio_addr a.node_id s) in
    let skip = not a.in_use || not a.pending_direct_sync in
    let later =
      send_pending_direct_time_sync_from profile cfg env source left (i + 1)
        (if skip then s else r.1) in
    let rest : One later =
      direct_from-One profile cfg env source left (i + 1) (if skip then s else r.1) all_ok in
    if_both (λ (x : Bool × Syncs × List Sent). One x) skip rest
      (if_both (λ (x : Bool × Syncs × List Sent). One x)
        (not (base_tx_deadline_allows profile cfg (env.position_at i) time_sync_lora_size))
        (omega arith, λ _. refl) (after_One r.0 (sync_done i r.1) r.2 later sent rest))

pub commands-One :
    (profile : NetworkProfile) (cfg : Timing) (position_at : ℕ → ℕ) (radio_ok : ℕ → Bool) (i : ℕ)
    (cs : List PendingCommand)
    → ((n : ℕ) → radio_ok n ≡ true)
    → One (send_pending_command_from profile cfg position_at radio_ok i cs)
unfolding send_pending_command_from
commands-One profile cfg position_at radio_ok i [] all_ok = (omega arith, λ _. refl)
commands-One profile cfg position_at radio_ok i (c ∷ cs) all_ok =
    let rest = commands-One profile cfg position_at radio_ok (i + 1) cs all_ok in
    if_cases (λ (x : Bool × List PendingCommand × List Sent). One x) (not c.in_use) (λ _. rest)
      (λ _.
        if_cases (λ (x : Bool × List PendingCommand × List Sent). One x)
          (not (base_tx_deadline_allows profile cfg (position_at i) (length c.payload)))
          (λ _. (omega arith, λ _. refl))
          (λ _.
            if_cases (λ (x : Bool × List PendingCommand × List Sent). One x) (radio_ok i)
              (λ _. (omega arith, λ e. absurd (ground (arith, e))))
              (λ off. absurd (ground (arith, off, all_ok i)))))

send_ack_summary-One : (id base mask : ℕ) (s : Acks) → One (send_ack_summary true id base mask s)
unfolding send_ack_summary
send_ack_summary-One id base mask s =
    let s' : Acks = record s { ack_summary_seq = u8 (s.ack_summary_seq + 1) } in
    elim (encode_ack_summary s.ack_summary_seq
        (record { node_id = id; ack_base_seq = base; ack_mask = mask }) ack_summary_lora_size 0)
      as (λ encoded. One {S = Acks} (
        if is_some encoded && true
        then (
          true,
          record s' { ack_tx_count = u32 (s.ack_tx_count + 1) },
          elim encoded as (λ _. List Sent) [
            | none ↦ []
            | some payload ↦ record { to_addr = id; bytes = payload } ∷ []
          ],
        )
        else (
          false,
          s',
          elim encoded as (λ _. List Sent) [
            | none ↦ []
            | some payload ↦ record { to_addr = id; bytes = payload } ∷ []
          ],
        ))) [
          | none ↦ (omega arith, λ _. refl)
          | some payload ↦ (omega arith, λ e. absurd (ground (arith, e)))
        ]

-- The rounds of the flush: a round that goes on has sent nothing.
abbrev OneTurn : Turn → Type 0
OneTurn (returned ok s sent) = One (ok, s, sent)
OneTurn (next s sent) = sent ≡ []

flush_due-One :
    (profile : NetworkProfile) (cfg : Timing) (env : Env) (offset i : ℕ) (t : AckTracker) (s : Acks)
    → ((n : ℕ) → env.radio_ok n ≡ true)
    → OneTurn (flush_due profile cfg env offset i t s)
unfolding flush_due
flush_due-One profile cfg env offset i t s all_ok =
    let r = send_ack_summary (env.radio_ok offset) t.node_id t.ack_base_seq t.ack_mask s in
    let sent : One r =
      subst (λ b. One (send_ack_summary b t.node_id t.ack_base_seq t.ack_mask s))
        (sym (all_ok offset)) (send_ack_summary-One t.node_id t.ack_base_seq t.ack_mask s) in
    if_both OneTurn
      (not (base_tx_deadline_allows profile cfg (env.position_at offset) ack_summary_lora_size))
      (omega arith, λ _. refl)
      (if_cases OneTurn (not r.0) (λ fails. sent.1 (ground (arith, fails)))
        (λ done. (sent.0, λ e. absurd (ground (arith, e)))))

flush_from-One :
    (profile : NetworkProfile) (cfg : Timing) (env : Env) (left offset : ℕ) (s : Acks)
    → ((n : ℕ) → env.radio_ok n ≡ true)
    → One (flush_from profile cfg env left offset s)
unfolding flush_from flush_round
flush_from-One profile cfg env zero offset s all_ok = (omega arith, λ _. refl)
flush_from-One profile cfg env (suc left) offset s all_ok =
    let i = u8 ((s.next_flush_index + offset) % max_ack_tracked_nodes) in
    let t = get_or s.trackers i empty_tracker in
    let round : OneTurn (flush_round profile cfg env offset s) =
      elim (due_of cfg env.now t)
        as (λ d. OneTurn (elim d [
          | skipped ↦ next s []
          | suppressed ↦ next (with_tracker i (record t { dirty = false }) s) []
          | due ↦ flush_due profile cfg env offset i t s
        ])) [
          | skipped ↦ refl
          | suppressed ↦ refl
          | due ↦ flush_due-One profile cfg env offset i t s all_ok
        ] in
    elim (flush_round profile cfg env offset s)
        as (λ turn.
          OneTurn turn
          → One {S = Acks} (elim turn [
            | returned ok s' sent ↦ (ok, s', sent)
            | next s' sent ↦
                let rest = flush_from profile cfg env left (offset + 1) s' in
                (rest.0, rest.1, sent ++ rest.2)
          ])) [
            | returned ok s' sent ↦ λ h. h
            | next s' sent ↦ λ none_sent.
                let rest = flush_from profile cfg env left (offset + 1) s' in
                subst (λ f. One (rest.0, rest.1, f ++ rest.2)) (sym none_sent)
                  (flush_from-One profile cfg env left (offset + 1) s' all_ok)
          ]
      round

pub flush_pending-One :
    (profile : NetworkProfile) (cfg : Timing) (env : Env) (s : Acks)
    → ((n : ℕ) → env.radio_ok n ≡ true)
    → One (send_pending_ack_summary profile cfg env s)
unfolding send_pending_ack_summary
flush_pending-One profile cfg env s all_ok =
    if_both (λ (x : Bool × Acks × List Sent). One x)
      (not s.flush_requested
        && ltb 0 cfg.ack_summary_min_interval_ms
        && ltb (sub_u32 env.now s.last_flush_ms) cfg.ack_summary_min_interval_ms)
      (omega arith, λ _. refl)
      (flush_from-One profile cfg env max_ack_tracked_nodes 0 (record s { flush_requested = false })
        all_ok)
