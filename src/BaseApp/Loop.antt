-- ===== src/BaseApp/Loop.antt =====
-- `update` of SmartFiresBaseApp.cpp: the periodic frames, the base's own slot, and the order of it all.
use Prim.Native.Nat.{bit_or}
use smart_fires_io_t.Base.{
  ℕ, ◌+◌, ◌*◌, Bool, true, false, not, ◌&&◌, ◌||◌, ltb, if◌then◌else◌, List, [], ◌∷◌, ◌++◌, Option,
  none, some, map,
}
use smart_fires_io_t.Base.Word.{u8, u16, u32, sub_u32}
use smart_fires_io_t.Config.Profile.{NetworkProfile, fingerprint}
use smart_fires_io_t.Wire.Constants.{time_sync_lora_size, network_profile_uart_payload_size}
use smart_fires_io_t.Wire.Packet.{NetworkProfilePayload}
use smart_fires_io_t.Wire.Encode.{encode_time_sync, encode_network_profile, encode_base_frame}
use smart_fires_io_t.Base.Int.{pos}
use smart_fires_io_t.Tdma.Clock.{apply_sync, my_turn, position_in_slot_ms}
use smart_fires_io_t.TxPower.Controller.{update}
use smart_fires_io_t.BaseApp.Flush.{Sent, Env, base_tx_deadline_allows, send_pending_ack_summary}
use smart_fires_io_t.BaseApp.Assign.{
  Syncs, SyncEnv, current_time_sync_payload, send_pending_direct_time_sync, send_pending_command,
}
use smart_fires_io_t.BaseApp.Uart.{process_incoming_jetson_uart}
use smart_fires_io_t.BaseApp.State.{
  BaseApp, Effect, on_air, to_jetson, begin_radio, system_reset, timing,
  dynamic_tx_power_default_enabled,
}
use smart_fires_io_t.BaseApp.Jetson.{handle_jetson_command_payload, send_tx_power_decision}
use smart_fires_io_t.BaseApp.Incoming.{Arrival, process_incoming_lora}

-- What `millis` reads in a call of `maybeSendInBaseWindow`, and the radio's answers; in the loops, by the
-- index or offset of the entry.
pub record Window : Type 0 where
  pub turn_at : ℕ
  pub sync_deadline_at : ℕ → ℕ
  pub sync_sent_at : ℕ → ℕ
  pub sync_ok : ℕ → Bool
  pub command_deadline_at : ℕ → ℕ
  pub command_ok : ℕ → Bool
  pub flush_at : ℕ
  pub flush_deadline_at : ℕ → ℕ
  pub flush_ok : ℕ → Bool
  pub periodic_at : ℕ
  pub periodic_deadline_at : ℕ
  pub periodic_sent_at : ℕ
  pub periodic_ok : Bool

abbrev pub position : BaseApp → ℕ → ℕ
position b now = position_in_slot_ms b.tdma_clock now

unfoldable pub maybe_send_periodic_time_sync :
    NetworkProfile → Window → BaseApp → BaseApp × List Sent
maybe_send_periodic_time_sync profile t b =
    let due =
      b.manual_time_sync_pending
      || not (
          ltb (sub_u32 t.periodic_at b.last_periodic_time_sync_ms) profile.periodic_time_sync_ms) in
    let fits =
      base_tx_deadline_allows profile (timing profile) (position b t.periodic_deadline_at)
        time_sync_lora_size in
    let ts = current_time_sync_payload t.periodic_sent_at b.source in
    let syncs = b.syncs in
    let counted : Syncs = record syncs { time_sync_seq = u8 (syncs.time_sync_seq + 1) } in
    let done : BaseApp = record b {
      manual_time_sync_pending = false;
      last_periodic_time_sync_ms = t.periodic_at;
      syncs = counted;
    } in
    if not due || not fits
    then (b, [])
    else elim (encode_time_sync 0 syncs.time_sync_seq ts time_sync_lora_size 0) [
      | none ↦ (done, [])
      | some payload ↦ (
        record done {
          syncs = record counted {
            time_sync_tx_count = u32 (syncs.time_sync_tx_count + (if t.periodic_ok then 1 else 0));
          };
        },
        record { to_addr = b.time_sync_broadcast_addr; bytes = payload } ∷ [],
      )
    ]

-- The four kinds of frame in the order of their priority; the next kind has its chance where none went out.
unfoldable pub send_acks_or_sync : NetworkProfile → Window → ℕ → BaseApp → BaseApp × List Sent
unfolding maybe_send_periodic_time_sync
send_acks_or_sync profile t slot_index b =
    let env : Env = record {
      now = t.flush_at;
      slot_index = slot_index;
      position_at = λ i. position b (t.flush_deadline_at i);
      radio_ok = t.flush_ok;
    } in
    let (ok, acks, sent) = send_pending_ack_summary profile (timing profile) env b.acks in
    let flushed : BaseApp = record b { acks = acks } in
    let (b', later) = maybe_send_periodic_time_sync profile t flushed in
    if ok then (flushed, sent) else (b', sent ++ later)

unfoldable pub send_commands_or_less : NetworkProfile → Window → ℕ → BaseApp → BaseApp × List Sent
unfolding send_acks_or_sync
send_commands_or_less profile t slot_index b =
    let (ok, commands, sent) =
      send_pending_command profile (timing profile) (λ i. position b (t.command_deadline_at i))
        t.command_ok b.commands in
    let tried : BaseApp = record b { commands = commands } in
    let (b', later) = send_acks_or_sync profile t slot_index tried in
    if ok then (tried, sent) else (b', sent ++ later)

unfoldable pub maybe_send_in_base_window : NetworkProfile → Window → BaseApp → BaseApp × List Sent
unfolding send_commands_or_less
maybe_send_in_base_window profile t b =
    let (mine, slot_index) = my_turn b.tdma_clock t.turn_at in
    let env : SyncEnv = record {
      position_at = λ i. position b (t.sync_deadline_at i);
      now_at = t.sync_sent_at;
      radio_ok = t.sync_ok;
    } in
    let (ok, syncs, sent) =
      send_pending_direct_time_sync profile (timing profile) env b.source b.syncs in
    let replied : BaseApp = record b { syncs = syncs } in
    let (b', later) = send_commands_or_less profile t slot_index replied in
    if not mine then (b, []) else if ok then (replied, sent) else (b', sent ++ later)

unfoldable pub network_profile_payload : NetworkProfile → NetworkProfilePayload
network_profile_payload p = record {
  schema_version = 1;
  profile_id = u8 p.id;
  spreading_factor = p.spreading_factor;
  coding_rate_denominator = p.coding_rate_denominator;
  bandwidth_hz = p.bandwidth_hz;
  num_slots = p.total_slots;
  slot_width_ms = p.slot_width_ms;
  guard_ms = u16 p.guard_ms;
  max_bundle_deltas = p.max_bundle_deltas;
  continuous_sample_period_ms = p.continuous_sample_period_ms;
  timed_sample_period_ms = p.timed_sample_period_ms;
  status_interval_ms = p.status_interval_ms;
  fingerprint = fingerprint p;
}

-- `kNetworkProfileAnnounceMs`.
abbrev pub network_profile_announce_ms : ℕ
network_profile_announce_ms = 5000

unfoldable pub maybe_announce_network_profile :
    NetworkProfile → Bool → ℕ → BaseApp → BaseApp × List Effect
unfolding network_profile_payload
maybe_announce_network_profile profile force now b =
    let payload =
      encode_network_profile b.base_addr b.network_profile_seq (network_profile_payload profile)
        network_profile_uart_payload_size in
    let frame : Option (List ℕ) = elim payload [
      | none ↦ none
      | some bytes ↦ encode_base_frame (pos 0) bytes (5 + network_profile_uart_payload_size)
    ] in
    if not force && ltb (sub_u32 now b.last_announce_ms) network_profile_announce_ms
    then (b, [])
    else (
      record b { network_profile_seq = u8 (b.network_profile_seq + 1); last_announce_ms = now },
      elim frame [ none ↦ [] | some bytes ↦ to_jetson bytes ∷ [] ],
    )

unfoldable pub is_system_reset : List Effect → Bool
is_system_reset [] = false
is_system_reset (system_reset ∷ rest) = true
is_system_reset (_ ∷ rest) = is_system_reset rest

-- The payloads of the frames on the serial line, in order; `now_at` is what `millis` reads at each. Behind
-- a hard reset of the base nothing is done.
unfoldable pub handle_payloads :
    NetworkProfile → (ℕ → ℕ) → ℕ → List (List ℕ) → BaseApp → BaseApp × List Effect
handle_payloads profile now_at n [] b = (b, [])
handle_payloads profile now_at n (payload ∷ rest) b =
    let (ok, b', effects) = handle_jetson_command_payload profile (now_at n) payload b in
    let counted : BaseApp =
      if ok then (record b' { cmd_forward_count = u32 (b'.cmd_forward_count + 1) }) else b' in
    let (b'', later) = handle_payloads profile now_at (n + 1) rest counted in
    if is_system_reset effects then (b', effects) else (b'', effects ++ later)

unfoldable pub serve_jetson_uart :
    NetworkProfile → (ℕ → ℕ) → List ℕ → BaseApp → BaseApp × List Effect
unfolding handle_payloads
serve_jetson_uart profile now_at bytes b =
    let (payloads, uart) = process_incoming_jetson_uart bytes b.uart in
    handle_payloads profile now_at 0 payloads (record b { uart = uart })

-- What a call of `update` reads and receives.
pub record Pass : Type 0 where
  pub payload_at : ℕ
  pub sync_at : ℕ
  pub incoming : List (Option Arrival)
  pub serial : List ℕ
  pub serial_at : ℕ → ℕ
  pub announce_at : ℕ
  pub power_at : ℕ
  pub power_sent_at : ℕ
  pub window : Window

-- The base's clock follows the time that the base announces.
unfoldable pub sync_clock : ℕ → ℕ → BaseApp → BaseApp
sync_clock payload_at now b =
    let ts = current_time_sync_payload payload_at b.source in
    record b { tdma_clock = apply_sync ts.session_id ts.session_time_ms now b.tdma_clock }

unfoldable pub tick_tx_power : NetworkProfile → ℕ → ℕ → BaseApp → BaseApp
tick_tx_power profile now sent_at b =
    let (d, tx_power) = update profile now b.tx_power in
    if dynamic_tx_power_default_enabled profile
    then send_tx_power_decision sent_at d (record b { tx_power = tx_power })
    else b

-- `update`, without the health log.
unfoldable pub update_base : NetworkProfile → Pass → BaseApp → BaseApp × List Effect
unfolding sync_clock tick_tx_power
update_base profile t b =
    let (heard, e1) =
      process_incoming_lora profile t.incoming (sync_clock t.payload_at t.sync_at b) in
    let (served, e2) = serve_jetson_uart profile t.serial_at t.serial heard in
    let (announced, e3) = maybe_announce_network_profile profile false t.announce_at served in
    let ticked = tick_tx_power profile t.power_at t.power_sent_at announced in
    let (done, sent) = maybe_send_in_base_window profile t.window ticked in
    if not b.initialized
    then (b, [])
    else if is_system_reset e2
    then (served, e1 ++ e2)
    else (done, e1 ++ e2 ++ e3 ++ map on_air sent)

-- `begin`: `now` is read for the last times, `seed` for the session's id.
unfoldable pub begin_base :
    NetworkProfile → Bool → ℕ → ℕ → ℕ → BaseApp → Bool × BaseApp × List Effect
begin_base profile radio_began now seed announce_at b =
    let source = b.source in
    let acks = b.acks in
    let ready : BaseApp = record b {
      initialized = true;
      last_periodic_time_sync_ms = now;
      last_announce_ms = now;
      acks = record acks { last_flush_ms = now };
      source = record source {
        session_id = bit_or (bit_or 0x53460000 (u8 b.base_addr * 256)) (u8 seed);
      };
    } in
    let (b', effects) = maybe_announce_network_profile profile true announce_at ready in
    if radio_began then (true, b', begin_radio ∷ effects) else (false, b, begin_radio ∷ [])
