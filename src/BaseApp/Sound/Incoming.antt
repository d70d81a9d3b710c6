-- ===== src/BaseApp/Sound/Incoming.antt =====
-- `processIncomingLoRa` of SmartFiresBaseApp.cpp keeps the power table and the assignments.
use smart_fires_io_t.Base.{
  ℕ, ◌<◌, refl, sym, subst, ◌==◌, Bool, true, not, ◌&&◌, if_both, List, [], ◌∷◌, Option, none, some,
  leb, length, length-set,
}
use smart_fires_io_t.Config.Profile.{NetworkProfile}
use smart_fires_io_t.Wire.Constants.{
  pkt_magic, header_size, pkt_awaken, pkt_status, pkt_cmd_ack, pkt_cmd_set_tx_power,
  status_tx_power_static,
}
use smart_fires_io_t.Wire.Layout
use smart_fires_io_t.Wire.Packet.{PktHeader}
use smart_fires_io_t.Wire.Encode.{encode_base_frame}
use smart_fires_io_t.Wire.Decode.{
  decode_awaken, decode_status, decode_cmd_ack, decode_window_marker,
}
use smart_fires_io_t.Telemetry.Types.{has_flag}
use smart_fires_io_t.Base.Int.{ℤ}
use smart_fires_io_t.TxPower.Upsert.{IsTable}
use smart_fires_io_t.TxPower.Step.{step, step-IsTable, packet_received, status, cmd_ack, awaken}
use smart_fires_io_t.BaseApp.Assign.{NodeAssignment, find_or_create_node_assignment}
use smart_fires_io_t.BaseApp.Assigned.{Finds, entry, find_or_create-Finds, set-IsAssigned}
use smart_fires_io_t.BaseApp.State.{BaseApp, Effect, dynamic_tx_power_default_enabled}
use smart_fires_io_t.BaseApp.Incoming.{
  Arrival, base_frame_size, is_telemetry_packet_type, is_window_marker_packet_type, forward,
  patched_awaken, welcome, handle_awaken, handle_status, handle_cmd_ack, track_telemetry,
  track_marker, handle_frame, note_received, process_packet, process_incoming_lora,
}
use smart_fires_io_t.BaseApp.Sound.{
  AreSound, IsSound, Option-both, with_table, send_tx_power_decision-IsSound,
}

module _ (profile : NetworkProfile) where
  abbrev Kept {ℓ} : {E : Type ℓ} → BaseApp × E → Type 0
  Kept r = IsSound r.0

  abbrev Forwarded : BaseApp × List Effect → Type 0
  Forwarded r = IsSound r.0

  forward-IsSound :
      (rssi : ℤ) (bytes : List ℕ) (b : BaseApp) → IsSound b → Forwarded (forward rssi bytes b)
  unfolding forward
  forward-IsSound rssi bytes b h =
      Option-both Forwarded (encode_base_frame rssi bytes base_frame_size) h (λ frame. h)

  note_received-IsSound :
      (a : Arrival) (valid : Bool) (hdr : PktHeader) (b : BaseApp)
      → IsSound b
      → IsSound (note_received profile a valid hdr b)
  unfolding note_received step
  note_received-IsSound a valid hdr b h =
      with_table profile b.tx_power _
        (if_both IsTable (valid && not (hdr.node_id == 0) && not (hdr.pkt_type == pkt_awaken))
          (step-IsTable profile (packet_received hdr.node_id a.snr a.sampled_at) b.tx_power h.table)
          h.table)
        h

  welcome-IsSound :
      (a : Arrival) (hdr : PktHeader) (i : ℕ) (b : BaseApp)
      → IsSound b
      → i < length b.syncs.assignments
      → IsSound (welcome profile a hdr i b)
  unfolding welcome step
  welcome-IsSound a hdr i b h below =
      let es = b.syncs.assignments in
      let waiting : NodeAssignment = record (entry es i) {
        pending_direct_sync = true;
        pending_radio_addr = a.from_addr;
        pending_trigger_seq = hdr.seq;
      } in
      record {
        table = step-IsTable profile (awaken (entry es i).node_id a.handled_at) b.tx_power h.table;
        assigned = set-IsAssigned es i waiting h.assigned refl refl refl below;
        few = subst (λ n. n < 254) (sym (length-set es i waiting)) h.few;
      }

  abbrev Placed : BaseApp → Option ℕ × List NodeAssignment → Type 0
  Placed b (none, es) = AreSound b.tx_power es
  Placed b (some i, es) = AreSound b.tx_power es × (i < length es)

  place-Placed :
      (uid : ℕ) (b : BaseApp)
      → IsSound b
      → Placed b (find_or_create_node_assignment uid b.syncs.assignments)
  place-Placed uid b h =
      placed (find_or_create_node_assignment uid b.syncs.assignments)
        (find_or_create-Finds uid b.syncs.assignments h.assigned h.few)
    where
      placed : (r : Option ℕ × List NodeAssignment) → Finds uid b.syncs.assignments r → Placed b r
      placed (none, es) same = subst (AreSound b.tx_power) (sym same) h
      placed (some i, es) f = (
        record {
          table = h.table;
          assigned = f.assigned;
          few = subst (λ n. n < 254) (sym f.size) h.few;
        },
        subst (λ n. i < n) (sym f.size) f.below,
      )

  handle_awaken-IsSound :
      (a : Arrival) (b : BaseApp) → IsSound b → Forwarded (handle_awaken profile a b)
  unfolding handle_awaken
  handle_awaken-IsSound a b h = Option-both Forwarded (decode_awaken a.bytes) h (λ (hdr, asked).
      let r = find_or_create_node_assignment asked.uid_hash b.syncs.assignments in
      let syncs = b.syncs in
      let known : BaseApp = record b { syncs = record syncs { assignments = r.1 } } in
      elim r.0
          as (λ place.
            Placed b (place, r.1)
            → Forwarded (elim place [
              | none ↦ forward a.rssi (patched_awaken none a.bytes) known
              | some i ↦
                  forward a.rssi (patched_awaken (some (entry r.1 i).node_id) a.bytes)
                    (welcome profile a hdr i known)
            ])) [
              | none ↦ λ k. forward-IsSound a.rssi _ known k
              | some i ↦
                  λ (k, below). forward-IsSound a.rssi _ _ (welcome-IsSound a hdr i known k below)
            ]
        (place-Placed asked.uid_hash b h))

  handle_status-IsSound :
      (a : Arrival) (b : BaseApp) → IsSound b → IsSound (handle_status profile a b)
  unfolding handle_status step
  handle_status-IsSound a b h = Option-both IsSound (decode_status a.bytes) h (λ (hdr, s).
      let pinned = has_flag s.flags status_tx_power_static in
      let heard =
        with_table profile b.tx_power _
          (step-IsTable profile
            (status hdr.node_id s.retx_total s.fail_total s.tx_power_dbm pinned a.handled_at)
            b.tx_power h.table)
          h in
      if_both IsSound (dynamic_tx_power_default_enabled profile)
        (send_tx_power_decision-IsSound profile a.handled_at _ _ heard) heard)

  handle_cmd_ack-IsSound : (a : Arrival) (b : BaseApp) → IsSound b → IsSound (handle_cmd_ack a b)
  unfolding handle_cmd_ack step
  handle_cmd_ack-IsSound a b h = Option-both IsSound (decode_cmd_ack a.bytes) h (λ (hdr, ack).
      if_both IsSound (ack.cmd_type == pkt_cmd_set_tx_power)
        (with_table profile b.tx_power _
          (step-IsTable profile (cmd_ack hdr.node_id a.handled_at) b.tx_power h.table) h)
        h)

  track_marker-IsSound : (a : Arrival) (b : BaseApp) → IsSound b → IsSound (track_marker a b)
  unfolding track_marker
  track_marker-IsSound a b h =
      Option-both IsSound (decode_window_marker a.bytes) h (λ (hdr, marker). h)

  handle_frame-IsSound :
      (a : Arrival) (hdr : PktHeader) (b : BaseApp)
      → IsSound b
      → IsSound (handle_frame profile a hdr b)
  unfolding handle_frame track_telemetry
  handle_frame-IsSound a hdr b h =
      let handled =
        if_both IsSound (hdr.pkt_type == pkt_status) (handle_status-IsSound a b h)
          (if_both IsSound (hdr.pkt_type == pkt_cmd_ack) (handle_cmd_ack-IsSound a b h) h) in
      if_both IsSound (is_telemetry_packet_type hdr.pkt_type) handled (
        if_both IsSound (is_window_marker_packet_type hdr.pkt_type)
          (track_marker-IsSound a _ handled) handled)

  pub process_packet-IsSound :
      (a : Arrival) (b : BaseApp) → IsSound b → IsSound (process_packet profile a b).0
  unfolding process_packet
  process_packet-IsSound a b h =
      let hdr = Layout.header_of a.bytes in
      let valid = leb header_size (length a.bytes) && hdr.magic == pkt_magic in
      let noted = note_received-IsSound a valid hdr b h in
      if_both Forwarded (valid && hdr.pkt_type == pkt_awaken) (handle_awaken-IsSound a _ noted) (
        if_both Forwarded valid
          (forward-IsSound a.rssi a.bytes _ (handle_frame-IsSound a hdr _ noted))
          (forward-IsSound a.rssi a.bytes _ noted))

  pub process_incoming_lora-IsSound :
      (arrivals : List (Option Arrival)) (b : BaseApp)
      → IsSound b
      → IsSound (process_incoming_lora profile arrivals b).0
  unfolding process_incoming_lora
  process_incoming_lora-IsSound [] b h = h
  process_incoming_lora-IsSound (none ∷ rest) b h = h
  process_incoming_lora-IsSound (some a ∷ rest) b h =
      process_incoming_lora-IsSound rest (process_packet profile a b).0
        (process_packet-IsSound a b h)
