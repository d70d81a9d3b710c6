-- ===== src/BaseApp/OneSend.antt =====
-- How many frames `maybeSendInBaseWindow` of SmartFiresBaseApp.cpp puts on the air in one call.
mod Kinds
use smart_fires_io_t.Base.{
  ℕ, ◌+◌, ◌≤◌, ◌≡◌, refl, sym, subst, Bool, true, false, not, ◌||◌, List, [], ◌++◌, if◌then◌else◌,
  if_both, if_cases, ltb, Option-cases, inl, inr, none, length, arith,
}
use smart_fires_io_t.Base.Word.{sub_u32}
use smart_fires_io_t.Config.Profile.{NetworkProfile}
use smart_fires_io_t.Wire.Constants.{time_sync_lora_size}
use smart_fires_io_t.Wire.Encode.{encode_time_sync}
use smart_fires_io_t.Tdma.Clock.{my_turn}
use smart_fires_io_t.BaseApp.Flush.{
  Sent, Env, due, base_tx_deadline_allows, send_pending_ack_summary,
}
use smart_fires_io_t.BaseApp.Assign.{
  SyncEnv, send_pending_direct_time_sync, send_pending_command, current_time_sync_payload,
}
use smart_fires_io_t.BaseApp.State.{BaseApp, timing}
use smart_fires_io_t.BaseApp.Loop.{
  Window, position, maybe_send_periodic_time_sync, send_acks_or_sync, send_commands_or_less,
  maybe_send_in_base_window,
}
use smart_fires_io_t.BaseApp.OneSend.Kinds.{One, direct_from-One, commands-One, flush_pending-One}

-- One kind of frame after another, each where none went out before.
falls_through {ℓ} :
    {S : Type ℓ} (ok : Bool) (b : S) (sent : List Sent) (r : S × List Sent)
    → One (ok, b, sent)
    → length r.1 ≤ 1
    → let out : S × List Sent = if ok then (b, sent) else (r.0, sent ++ r.1) in length out.1 ≤ 1
falls_through true b sent r h k = h.0
falls_through false b sent r h k = subst (λ f. length (f ++ r.1) ≤ 1) (sym (h.1 refl)) k

periodic_le :
    (profile : NetworkProfile) (t : Window) (b : BaseApp)
    → length (maybe_send_periodic_time_sync profile t b).1 ≤ 1
unfolding maybe_send_periodic_time_sync
periodic_le profile t b =
    let due =
      b.manual_time_sync_pending
      || not (
          ltb (sub_u32 t.periodic_at b.last_periodic_time_sync_ms) profile.periodic_time_sync_ms) in
    let fits =
      base_tx_deadline_allows profile (timing profile) (position b t.periodic_deadline_at)
        time_sync_lora_size in
    let ts = current_time_sync_payload t.periodic_sent_at b.source in
    let payload = encode_time_sync 0 b.syncs.time_sync_seq ts time_sync_lora_size 0 in
    if_both (λ (x : BaseApp × List Sent). length x.1 ≤ 1) (not due || not fits) (omega arith)
      (elim (Option-cases payload) [
        | inl e ↦ rw e (omega arith)
        | inr (bytes, e) ↦ rw e (omega arith)
      ])

acks_le :
    (profile : NetworkProfile) (t : Window) (slot_index : ℕ) (b : BaseApp)
    → ((n : ℕ) → t.flush_ok n ≡ true)
    → length (send_acks_or_sync profile t slot_index b).1 ≤ 1
unfolding send_acks_or_sync
acks_le profile t slot_index b flush =
    let env : Env = record {
      now = t.flush_at;
      slot_index = slot_index;
      position_at = λ i. position b (t.flush_deadline_at i);
      radio_ok = t.flush_ok;
    } in
    let r = send_pending_ack_summary profile (timing profile) env b.acks in
    let b' : BaseApp = record b { acks = r.1 } in
    falls_through r.0 b' r.2 (maybe_send_periodic_time_sync profile t b')
      (flush_pending-One profile (timing profile) env b.acks flush) (periodic_le profile t b')

commands_le :
    (profile : NetworkProfile) (t : Window) (slot_index : ℕ) (b : BaseApp)
    → ((n : ℕ) → t.command_ok n ≡ true)
    → ((n : ℕ) → t.flush_ok n ≡ true)
    → length (send_commands_or_less profile t slot_index b).1 ≤ 1
unfolding send_commands_or_less send_pending_command
commands_le profile t slot_index b command flush =
    let position_at = λ (i : ℕ). position b (t.command_deadline_at i) in
    let r = send_pending_command profile (timing profile) position_at t.command_ok b.commands in
    let b' : BaseApp = record b { commands = r.1 } in
    falls_through r.0 b' r.2 (send_acks_or_sync profile t slot_index b')
      (commands-One profile (timing profile) position_at t.command_ok 0 b.commands command)
      (acks_le profile t slot_index b' flush)

-- The base sends at most one frame in a call: where the radio accepts every send, `maybeSendInBaseWindow`
-- puts at most one frame on the air, of whichever of the four kinds, and none outside the base's turn.
pub maybe_send_in_base_window_one :
    (profile : NetworkProfile) (t : Window) (b : BaseApp)
    → ((n : ℕ) → t.sync_ok n ≡ true)
    → ((n : ℕ) → t.command_ok n ≡ true)
    → ((n : ℕ) → t.flush_ok n ≡ true)
    → let sent = (maybe_send_in_base_window profile t b).1 in
      (length sent ≤ 1) × ((my_turn b.tdma_clock t.turn_at).0 ≡ false → sent ≡ [])
unfolding maybe_send_in_base_window send_pending_direct_time_sync
maybe_send_in_base_window_one profile t b sync command flush =
    let cfg = timing profile in
    let slot_index = (my_turn b.tdma_clock t.turn_at).1 in
    let env : SyncEnv = record {
      position_at = λ i. position b (t.sync_deadline_at i);
      now_at = t.sync_sent_at;
      radio_ok = t.sync_ok;
    } in
    let r1 = send_pending_direct_time_sync profile cfg env b.source b.syncs in
    let one1 : One r1 =
      direct_from-One profile cfg env b.source (length b.syncs.assignments) 0 b.syncs sync in
    let b1 : BaseApp = record b { syncs = r1.1 } in
    let later = send_commands_or_less profile t slot_index b1 in
    if_cases
      (λ (x : BaseApp × List Sent).
        (length x.1 ≤ 1) × ((my_turn b.tdma_clock t.turn_at).0 ≡ false → x.1 ≡ []))
      (not (my_turn b.tdma_clock t.turn_at).0) (λ other. (omega arith, λ _. refl))
      (λ mine. (
        falls_through r1.0 b1 r1.2 later one1 (commands_le profile t slot_index b1 command flush),
        λ e. absurd (ground (arith, mine, e)),
      ))
