-- ===== src/BaseApp/Sound/Sends.antt =====
-- The sends of the base's slot in SmartFiresBaseApp.cpp keep the power table and the assignments.
use smart_fires_io_t.Base.{
  ℕ, zero, suc, ◌+◌, ◌<◌, ◌≡◌, refl, sym, ap, ◌∙◌, subst, Bool, true, false, not, ◌||◌,
  if◌then◌else◌, if_both, if_cases, List, [], ◌∷◌, ltb, length, length-set, arith,
}
use smart_fires_io_t.Config.Profile.{NetworkProfile}
use smart_fires_io_t.Wire.Constants.{time_sync_lora_size}
use smart_fires_io_t.Wire.Packet.{TimeSyncPayload}
use smart_fires_io_t.Wire.Encode.{encode_time_sync}
use smart_fires_io_t.Base.Word.{sub_u32}
use smart_fires_io_t.Tdma.Clock.{my_turn}
use smart_fires_io_t.BaseApp.Flush.{
  Env, Timing, Sent, base_tx_deadline_allows, send_pending_ack_summary,
}
use smart_fires_io_t.BaseApp.Assign.{
  NodeAssignment, Syncs, SyncEnv, TimeSource, sync_done, send_direct_time_sync,
  send_pending_direct_time_sync_from, send_pending_direct_time_sync, current_time_sync_payload,
  send_pending_command,
}
use smart_fires_io_t.BaseApp.Assigned.{IsAssigned, entry, set-IsAssigned}
use smart_fires_io_t.BaseApp.State.{BaseApp, timing}
use smart_fires_io_t.BaseApp.Loop.{
  Window, position, maybe_send_periodic_time_sync, send_acks_or_sync, send_commands_or_less,
  maybe_send_in_base_window,
}
use smart_fires_io_t.BaseApp.Sound.{IsSound, Option-both}

used_below : (es : List NodeAssignment) (i : ℕ) → (entry es i).in_use ≡ true → i < length es
used_below [] i used = absurd (ground (arith, used))
used_below (a ∷ es) zero used = omega arith
used_below (a ∷ es) (suc i) used = omega (arith, used_below es i used)

module _ (profile : NetworkProfile) where
  -- The direct time syncs change only whether one is pending.
  abbrev AreFew : List NodeAssignment → Type 0
  AreFew es = IsAssigned es × (length es < 254)

  abbrev Synced : Bool × Syncs × List Sent → Type 0
  Synced r = AreFew r.1.assignments

  send_direct_keeps :
      (ok : Bool) (ts : TimeSyncPayload) (addr id : ℕ) (s : Syncs)
      → (send_direct_time_sync ok ts addr id s).1.assignments ≡ s.assignments
  unfolding send_direct_time_sync
  send_direct_keeps ok ts addr id s =
      Option-both (λ (x : Bool × Syncs × List Sent). x.1.assignments ≡ s.assignments)
        (encode_time_sync id s.time_sync_seq ts time_sync_lora_size 0) refl (λ bytes. refl)

  sync_done-AreFew :
      (i : ℕ) (s : Syncs)
      → AreFew s.assignments
      → (entry s.assignments i).in_use ≡ true
      → AreFew (sync_done i s).assignments
  sync_done-AreFew i s (h, few) used =
      let es = s.assignments in
      let a : NodeAssignment = record (entry es i) { pending_direct_sync = false } in
      (
        set-IsAssigned es i a h refl refl refl (used_below es i used),
        subst (λ n. n < 254) (sym (length-set es i a)) few,
      )

  direct_from-Synced :
      (cfg : Timing) (env : SyncEnv) (source : TimeSource) (left i : ℕ) (s : Syncs)
      → AreFew s.assignments
      → Synced (send_pending_direct_time_sync_from profile cfg env source left i s)
  unfolding send_pending_direct_time_sync_from
  direct_from-Synced cfg env source zero i s h = h
  direct_from-Synced cfg env source (suc left) i s h =
      let a = entry s.assignments i in
      let ts = current_time_sync_payload (env.now_at i) source in
      let r = send_direct_time_sync (env.radio_ok i) ts a.pending_radio_addr a.node_id s in
      let same : r.1.assignments ≡ s.assignments =
        send_direct_keeps (env.radio_ok i) ts a.pending_radio_addr a.node_id s in
      let skipped = not a.in_use || not a.pending_direct_sync in
      let sent : AreFew r.1.assignments = subst AreFew (sym same) h in
      let rest =
        direct_from-Synced cfg env source left (i + 1) (if skipped then s else r.1)
          (if_both (λ (x : Syncs). AreFew x.assignments) skipped h sent) in
      if_cases Synced skipped (λ _. rest)
        (λ here.
          if_both Synced
            (not (base_tx_deadline_allows profile cfg (env.position_at i) time_sync_lora_size)) h
            (if_both Synced (not r.0) rest (
              sync_done-AreFew i r.1 sent
                (ap (λ es. (entry es i).in_use) same ∙ ground (arith, here)))))

  abbrev Done : BaseApp × List Sent → Type 0
  Done r = IsSound r.0

  periodic-IsSound :
      (t : Window) (b : BaseApp) → IsSound b → Done (maybe_send_periodic_time_sync profile t b)
  unfolding maybe_send_periodic_time_sync
  periodic-IsSound t b h =
      let due =
        b.manual_time_sync_pending
        || not (
            ltb (sub_u32 t.periodic_at b.last_periodic_time_sync_ms)
              profile.periodic_time_sync_ms) in
      let fits =
        base_tx_deadline_allows profile (timing profile) (position b t.periodic_deadline_at)
          time_sync_lora_size in
      let ts = current_time_sync_payload t.periodic_sent_at b.source in
      if_both Done (not due || not fits) h (
        Option-both Done (encode_time_sync 0 b.syncs.time_sync_seq ts time_sync_lora_size 0) h
          (λ payload. h))

  acks-IsSound :
      (t : Window) (slot_index : ℕ) (b : BaseApp)
      → IsSound b
      → Done (send_acks_or_sync profile t slot_index b)
  unfolding send_acks_or_sync
  acks-IsSound t slot_index b h =
      let env : Env = record {
        now = t.flush_at;
        slot_index = slot_index;
        position_at = λ i. position b (t.flush_deadline_at i);
        radio_ok = t.flush_ok;
      } in
      let r = send_pending_ack_summary profile (timing profile) env b.acks in
      if_both Done r.0 h (periodic-IsSound t (record b { acks = r.1 }) h)

  commands-IsSound :
      (t : Window) (slot_index : ℕ) (b : BaseApp)
      → IsSound b
      → Done (send_commands_or_less profile t slot_index b)
  unfolding send_commands_or_less
  commands-IsSound t slot_index b h =
      let r =
        send_pending_command profile (timing profile) (λ i. position b (t.command_deadline_at i))
          t.command_ok b.commands in
      if_both Done r.0 h (acks-IsSound t slot_index (record b { commands = r.1 }) h)

  pub window-IsSound :
      (t : Window) (b : BaseApp) → IsSound b → Done (maybe_send_in_base_window profile t b)
  unfolding maybe_send_in_base_window send_pending_direct_time_sync
  window-IsSound t b h =
      let slot_index = (my_turn b.tdma_clock t.turn_at).1 in
      let env : SyncEnv = record {
        position_at = λ i. position b (t.sync_deadline_at i);
        now_at = t.sync_sent_at;
        radio_ok = t.sync_ok;
      } in
      let r = send_pending_direct_time_sync profile (timing profile) env b.source b.syncs in
      let few : AreFew r.1.assignments =
        direct_from-Synced (timing profile) env b.source (length b.syncs.assignments) 0 b.syncs
          (h.assigned, h.few) in
      let b' : BaseApp = record b { syncs = r.1 } in
      let h' : IsSound b' = record { table = h.table; assigned = few.0; few = few.1 } in
      if_both Done (not (my_turn b.tdma_clock t.turn_at).0) h
        (if_both Done r.0 h' (commands-IsSound t slot_index b' h'))
