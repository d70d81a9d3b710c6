-- ===== src/BaseApp/Reply.antt =====
-- The replies to AWAKEN frames in `maybeSendInBaseWindow` of SmartFiresBaseApp.cpp.
use smart_fires_io_t.Base.{
  ℕ, zero, suc, ◌+◌, ◌≤◌, ◌<◌, ◌≡◌, refl, sym, ap, subst, Bool, true, false, not, ◌&&◌, ◌||◌, ◌⊎◌,
  inl, inr, List, [], ◌∷◌, some, length, set, arith, if_cases, Bool-cases,
}
use smart_fires_io_t.Config.Profile.{NetworkProfile}
use smart_fires_io_t.Wire.Constants.{time_sync_lora_size}
use smart_fires_io_t.Wire.Packet.{TimeSyncPayload}
use smart_fires_io_t.Wire.Encode.{encode_time_sync}
use smart_fires_io_t.Tdma.Clock.{my_turn}
use smart_fires_io_t.BaseApp.Flush.{Timing, Sent, base_tx_deadline_allows}
use smart_fires_io_t.BaseApp.Assign.{
  NodeAssignment, Syncs, SyncEnv, TimeSource, send_direct_time_sync,
  send_pending_direct_time_sync_from, send_pending_direct_time_sync, current_time_sync_payload,
}
use smart_fires_io_t.BaseApp.Assigned.{entry}
use smart_fires_io_t.BaseApp.State.{BaseApp, timing}
use smart_fires_io_t.BaseApp.Loop.{Window, position, maybe_send_in_base_window}

abbrev pub is_waiting : NodeAssignment → Bool
is_waiting a = a.in_use && a.pending_direct_sync

≤-cases : (i k : ℕ) → i ≤ k → (i ≡ k) ⊎ (i < k)
≤-cases i k h = ground (arith, h)

-- That the entry `j` has its reply: a TIME_SYNC for its id goes to its radio, and the entry waits no longer.
pub record Replies (now_at : ℕ → ℕ) (source : TimeSource) (s : Syncs) (j : ℕ)
    (r : Bool × Syncs × List Sent) : Type 0 where
  pub frame : List ℕ
  pub encoded :
      encode_time_sync
        (entry s.assignments j).node_id
        s.time_sync_seq
        (current_time_sync_payload (now_at j) source)
        time_sync_lora_size
        0
      ≡ some frame
  pub done : r.0 ≡ true
  pub out :
      r.2 ≡ record { to_addr = (entry s.assignments j).pending_radio_addr; bytes = frame } ∷ []
  pub cleared :
      r.1.assignments
      ≡ set s.assignments j (record (entry s.assignments j) { pending_direct_sync = false })

time_sync_encoded :
    (id seq : ℕ) (ts : TimeSyncPayload)
    → (frame : List ℕ) × (encode_time_sync id seq ts time_sync_lora_size 0 ≡ some frame)
unfolding encode_time_sync
time_sync_encoded id seq ts = (_, refl)

sent_directly :
    (ts : TimeSyncPayload) (addr id : ℕ) (s : Syncs) (frame : List ℕ)
    → encode_time_sync id s.time_sync_seq ts time_sync_lora_size 0 ≡ some frame
    → let r = send_direct_time_sync true ts addr id s in
      (r.0 ≡ true)
      × (r.1.assignments ≡ s.assignments)
      × (r.2 ≡ record { to_addr = addr; bytes = frame } ∷ [])
unfolding send_direct_time_sync
sent_directly ts addr id s frame e = rw (e, send_direct_time_sync) (refl, refl, refl)

module _ (profile : NetworkProfile) (cfg : Timing) (env : SyncEnv) (source : TimeSource)
    (fits : (n : ℕ)
      → base_tx_deadline_allows profile cfg (env.position_at n) time_sync_lora_size ≡ true)
    (all_ok : (n : ℕ) → env.radio_ok n ≡ true) where
  here_Replies :
      (left i : ℕ) (s : Syncs)
      → is_waiting (entry s.assignments i) ≡ true
      → Replies env.now_at source s i
          (send_pending_direct_time_sync_from profile cfg env source (suc left) i s)
  unfolding send_pending_direct_time_sync_from
  here_Replies left i s waits =
      let a = entry s.assignments i in
      let ts = current_time_sync_payload (env.now_at i) source in
      let (frame, e) = time_sync_encoded a.node_id s.time_sync_seq ts in
      let r = send_direct_time_sync (env.radio_ok i) ts a.pending_radio_addr a.node_id s in
      let (done, same, out) : (r.0 ≡ true)
          × (r.1.assignments ≡ s.assignments)
          × (r.2 ≡ record { to_addr = a.pending_radio_addr; bytes = frame } ∷ []) =
        subst
          (λ b.
            let q = send_direct_time_sync b ts a.pending_radio_addr a.node_id s in
            (q.0 ≡ true)
            × (q.1.assignments ≡ s.assignments)
            × (q.2 ≡ record { to_addr = a.pending_radio_addr; bytes = frame } ∷ []))
          (sym (all_ok i)) (sent_directly ts a.pending_radio_addr a.node_id s frame e) in
      let P = Replies env.now_at source s i in
      if_cases P (not a.in_use || not a.pending_direct_sync)
        (λ skipped. absurd (ground (arith, waits, skipped)))
        (λ _.
          if_cases P
            (not (base_tx_deadline_allows profile cfg (env.position_at i) time_sync_lora_size))
            (λ late. absurd (ground (arith, fits i, late)))
            (λ _.
              if_cases P (not r.0) (λ failed. absurd (ground (arith, done, failed)))
                (λ _. record {
                  frame = frame;
                  encoded = e;
                  done = refl;
                  out = out;
                  cleared =
                      ap (λ es. set es i (record (entry es i) { pending_direct_sync = false }))
                        same;
                })))

  step_over :
      (left i : ℕ) (s : Syncs)
      → not (entry s.assignments i).in_use || not (entry s.assignments i).pending_direct_sync ≡ true
      → send_pending_direct_time_sync_from profile cfg env source (suc left) i s
        ≡ send_pending_direct_time_sync_from profile cfg env source left (i + 1) s
  unfolding send_pending_direct_time_sync_from
  step_over left i s skipped = rw skipped refl

  from_Replies :
      (left i k : ℕ) (s : Syncs)
      → i ≤ k
      → k < i + left
      → is_waiting (entry s.assignments k) ≡ true
      → (j : ℕ) × (i ≤ j)
        × (j ≤ k)
        × (is_waiting (entry s.assignments j) ≡ true)
        × Replies env.now_at source s j
            (send_pending_direct_time_sync_from profile cfg env source left i s)
  from_Replies zero i k s low high waits = absurd (omega (arith, low, high))
  from_Replies (suc left) i k s low high waits =
      elim (Bool-cases (is_waiting (entry s.assignments i))) [
        | inl now ↦ (i, omega arith, low, now, here_Replies left i s now)
        | inr other ↦
            let over = step_over left i s (ground (arith, other)) in
            let past : i + 1 ≤ k = elim (≤-cases i k low) [
              | inl e ↦ absurd (ground (arith, waits, other, e))
              | inr less ↦ omega (arith, less)
            ] in
            let (j, low', high', now, reply) =
              from_Replies left (i + 1) k s past (omega (arith, high)) waits in
            (
              j,
              omega (arith, low'),
              high',
              now,
              subst (Replies env.now_at source s j) (sym over) reply,
            )
      ]

-- AWAKEN replies come first: in the base's turn, while the slot has room for a TIME_SYNC frame and the radio
-- accepts it, a call of `maybeSendInBaseWindow` sends exactly one frame where any assignment waits for its
-- reply. That frame is the TIME_SYNC for the id of a waiting assignment, no later in the table than the
-- given one, and goes to the radio address that its AWAKEN came from; that assignment then waits no
-- longer, and the table is otherwise as before.
pub awaken_reply_first :
    (profile : NetworkProfile) (t : Window) (b : BaseApp) (k : ℕ)
    → ((n : ℕ)
        → base_tx_deadline_allows profile
            (timing profile)
            (position b (t.sync_deadline_at n))
            time_sync_lora_size
          ≡ true)
    → ((n : ℕ) → t.sync_ok n ≡ true)
    → (my_turn b.tdma_clock t.turn_at).0 ≡ true
    → k < length b.syncs.assignments
    → is_waiting (entry b.syncs.assignments k) ≡ true
    → let r = maybe_send_in_base_window profile t b in
      (j : ℕ) × (j ≤ k)
      × (is_waiting (entry b.syncs.assignments j) ≡ true)
      × Replies t.sync_sent_at b.source b.syncs j (true, r.0.syncs, r.1)
unfolding maybe_send_in_base_window send_pending_direct_time_sync
awaken_reply_first profile t b k fits ok mine below waits =
    let env : SyncEnv = record {
      position_at = λ i. position b (t.sync_deadline_at i);
      now_at = t.sync_sent_at;
      radio_ok = t.sync_ok;
    } in
    let (j, low, high, now, reply) =
      from_Replies profile (timing profile) env b.source fits ok (length b.syncs.assignments) 0 k
        b.syncs (omega arith) (omega (arith, below)) waits in
    let P = λ (x : BaseApp × List Sent).
      Replies t.sync_sent_at b.source b.syncs j (true, x.0.syncs, x.1) in
    let r = send_pending_direct_time_sync profile (timing profile) env b.source b.syncs in
    (
      j,
      high,
      now,
      if_cases P (not (my_turn b.tdma_clock t.turn_at).0)
          (λ off. absurd (ground (arith, mine, off)))
          (λ _.
            if_cases P r.0
              (λ _. record {
                frame = reply.frame;
                encoded = reply.encoded;
                done = refl;
                out = reply.out;
                cleared = reply.cleared;
              })
              (λ failed. absurd (ground (arith, reply.done, failed)))),
    )
