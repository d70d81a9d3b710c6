-- ===== src/Telemetry/Handler.antt =====
-- PacketHandler (platformio/src/radio/PacketHandler.cpp): the accumulator of samples into BUNDLE frames
-- and the STATUS frame. `F` is the type `float`; its arithmetic is a parameter (`FloatOps`). `deltas` is
-- the part of `_deltas` below `_deltaCount`; a frame buffer with its length is the list of its bytes.
pub mod Valid
pub mod Bundle
mod Checks
use Prim.Native.Nat.{bit_and, bit_or}
use smart_fires_io_t.Base.{
  ℕ, ◌+◌, ◌==◌, Bool, true, false, not, ◌&&◌, ◌||◌, List, [], ◌∷◌, ◌++◌, Option, none, some,
  is_some, ltb, leb, length, if◌then◌else◌,
}
use smart_fires_io_t.Base.Int.{ℤ, pos}
use smart_fires_io_t.Base.Word.{u8, u32, sub_u32}
use smart_fires_io_t.Wire.Constants.{
  max_bundle_lora_size, status_lora_size, status_gps_valid, status_batt_valid, status_imu_valid,
  status_tx_power_static,
}
use smart_fires_io_t.Wire.Packet.{FullStatePayload, DeltaPayload, StatusPayload}
use smart_fires_io_t.Wire.Encode.{encode_bundle, encode_status}
use smart_fires_io_t.Telemetry.Delta.{make_delta}
use smart_fires_io_t.Telemetry.Types.{
  sht31_flag, wind_flag, gps_flag, sps30_flag, FloatOps, SensorSnapshot, LastGood, PacketHandler,
  has_flag, zero_state, written_bytes, saturate_u16,
}

module _ {F : Type 0} where
  unfoldable pub status_due : ℕ → PacketHandler F → Bool
  status_due now h =
      not h.status_ready
      && (not h.status_ever_sent || leb h.status_interval_ms (sub_u32 now h.last_status_ms))

  unfoldable pub encode_accumulated_bundle : PacketHandler F → Bool × PacketHandler F
  encode_accumulated_bundle h =
      let encoded =
        encode_bundle h.node_id h.seq h.ref h.deltas (length h.deltas) max_bundle_lora_size 0 in
      (
        is_some encoded,
        record h {
          seq = u8 (h.seq + 1);
          bundle = written_bytes encoded;
          bundle_ready = is_some encoded;
          has_ref = false;
          deltas = [];
        },
      )

  unfoldable pub has_partial_bundle : PacketHandler F → Bool
  has_partial_bundle h = h.bundle_encoding_enabled && h.has_ref

  unfoldable pub flush_window : PacketHandler F → Bool × PacketHandler F
  unfolding encode_accumulated_bundle
  flush_window h =
      if h.bundle_ready
      then (true, h)
      else if not h.bundle_encoding_enabled || not h.has_ref
      then (false, h)
      else encode_accumulated_bundle h

  -- `has_buf` is false for a null pointer; `none` is the return value 0.
  unfoldable pub take_bundle : Bool → ℕ → PacketHandler F → Option (List ℕ) × PacketHandler F
  take_bundle has_buf buf_size h =
      if not h.bundle_ready || not has_buf || ltb buf_size (length h.bundle)
      then (none, h)
      else (some h.bundle, record h { bundle_ready = false })

  unfoldable pub take_status_packet : Bool → ℕ → PacketHandler F → Option (List ℕ) × PacketHandler F
  take_status_packet has_buf buf_size h =
      if not h.status_ready || not has_buf || ltb buf_size (length h.status)
      then (none, h)
      else (some h.status, record h { status_ready = false })

  unfoldable pub reset_status_timer : PacketHandler F → PacketHandler F
  reset_status_timer h = record h { status_ever_sent = false; status_ready = false; status = [] }

  unfoldable pub reset_bundle_state : PacketHandler F → PacketHandler F
  reset_bundle_state h = record h {
    has_ref = false;
    deltas = [];
    bundle_ready = false;
    bundle = [];
    ref = zero_state;
    prev_sample = zero_state;
  }

  unfoldable pub set_node_id : ℕ → PacketHandler F → PacketHandler F
  set_node_id node_id h = record h { node_id = node_id }

  unfoldable pub set_bundle_encoding_enabled : Bool → PacketHandler F → PacketHandler F
  unfolding reset_bundle_state
  set_bundle_encoding_enabled true h = record h { bundle_encoding_enabled = true }
  set_bundle_encoding_enabled false h =
      if not h.bundle_encoding_enabled
      then h
      else reset_bundle_state (record h { bundle_encoding_enabled = false })

  unfoldable pub set_link_stats : ℕ → ℕ → PacketHandler F → PacketHandler F
  set_link_stats retx_total fail_total h = record h {
    retx_total = retx_total;
    fail_total = fail_total;
  }

  unfoldable pub set_tx_power_state : ℤ → Bool → PacketHandler F → PacketHandler F
  set_tx_power_state dbm is_static h = record h { tx_power_dbm = dbm; tx_power_static = is_static }

  -- The snapshot with last good values in place of invalid ones, and the new last good values.
  unfoldable pub gate_invalid_sensors :
      SensorSnapshot F → LastGood F → SensorSnapshot F × LastGood F
  gate_invalid_sensors snap good =
      let wind = has_flag snap.sensor_flags wind_flag in
      let sht = has_flag snap.sensor_flags sht31_flag in
      let sps = has_flag snap.sensor_flags sps30_flag in
      let values : LastGood F = record {
        wind_mps = if wind then snap.wind_mps else good.wind_mps;
        temp_c = if sht then snap.temp_c else good.temp_c;
        humidity_pct = if sht then snap.humidity_pct else good.humidity_pct;
        pm1_0 = if sps then snap.pm1_0 else good.pm1_0;
        pm2_5 = if sps then snap.pm2_5 else good.pm2_5;
        pm4_0 = if sps then snap.pm4_0 else good.pm4_0;
        pm10 = if sps then snap.pm10 else good.pm10;
      } in
      (
        record snap {
          wind_mps = values.wind_mps;
          temp_c = values.temp_c;
          humidity_pct = values.humidity_pct;
          pm1_0 = values.pm1_0;
          pm2_5 = values.pm2_5;
          pm4_0 = values.pm4_0;
          pm10 = values.pm10;
        },
        values,
      )

  -- `push` behind the STATUS check and the gate: a quantized sample joins the bundle.
  unfoldable pub add_sample : FullStatePayload → PacketHandler F → Bool × PacketHandler F
  unfolding encode_accumulated_bundle
  add_sample sample h =
      if not h.has_ref
      then (false, record h { ref = sample; prev_sample = sample; has_ref = true; deltas = [] })
      else let grown = record h {
        deltas = h.deltas ++ (make_delta h.ref h.prev_sample sample ∷ []);
        prev_sample = sample;
      } in
        if ltb (length grown.deltas) h.max_deltas
        then (false, grown)
        else encode_accumulated_bundle grown

module _ {F : Type 0} (ops : FloatOps F) where
  abbrev pub no_last_good : LastGood F
  no_last_good = record {
    wind_mps = ops.zero_float;
    temp_c = ops.zero_float;
    humidity_pct = ops.zero_float;
    pm1_0 = ops.zero_float;
    pm2_5 = ops.zero_float;
    pm4_0 = ops.zero_float;
    pm10 = ops.zero_float;
  }

  unfoldable pub reset : PacketHandler F → PacketHandler F
  unfolding reset_bundle_state reset_status_timer
  reset h = record (reset_status_timer (reset_bundle_state h)) { seq = 0; last_good = no_last_good }

  -- The constructor with its initializers.
  unfoldable pub new_handler : ℕ → ℕ → ℕ → PacketHandler F
  new_handler node_id max_deltas status_interval_ms = record {
    node_id = node_id;
    max_deltas = max_deltas;
    status_interval_ms = status_interval_ms;
    seq = 0;
    ref = zero_state;
    prev_sample = zero_state;
    deltas = [];
    has_ref = false;
    bundle_ready = false;
    bundle = [];
    status_ever_sent = false;
    last_status_ms = 0;
    status_ready = false;
    status = [];
    bundle_encoding_enabled = true;
    retx_total = 0;
    fail_total = 0;
    tx_power_dbm = pos 20;
    tx_power_static = false;
    last_good = no_last_good;
  }

  unfoldable pub status_payload : SensorSnapshot F → PacketHandler F → StatusPayload
  status_payload snap h =
      let gps = has_flag snap.sensor_flags gps_flag in
      let f1 = if gps then status_gps_valid else 0 in
      let f2 = if snap.battery_valid then bit_or f1 status_batt_valid else f1 in
      let f3 = if snap.imu_valid then bit_or f2 status_imu_valid else f2 in
      record {
        lat_e7 = if gps then ops.e7 snap.lat_deg else pos 0;
        lon_e7 = if gps then ops.e7 snap.lon_deg else pos 0;
        battery_mv = if snap.battery_valid then snap.battery_mv else 0;
        battery_pct = if snap.battery_valid then snap.battery_pct else 0;
        flags = if h.tx_power_static then bit_or f3 status_tx_power_static else f3;
        heading_deg_x10 = if snap.imu_valid then ops.rounded_tenths snap.heading_deg else 0;
        heading_accuracy = if snap.imu_valid then snap.heading_accuracy else 0;
        retx_total = saturate_u16 h.retx_total;
        fail_total = saturate_u16 h.fail_total;
        tx_power_dbm = h.tx_power_dbm;
      }

  unfoldable pub try_encode_status : SensorSnapshot F → PacketHandler F → PacketHandler F
  unfolding status_due status_payload
  try_encode_status snap h =
      if not (status_due snap.session_time_ms h)
      then h
      else let encoded = encode_status h.node_id h.seq (status_payload snap h) status_lora_size 0 in
        let stored = record h {
          seq = u8 (h.seq + 1);
          status = written_bytes encoded;
          status_ready = is_some encoded;
        } in
        if is_some encoded
        then (record stored { last_status_ms = snap.session_time_ms; status_ever_sent = true })
        else stored

  unfoldable pub quantize : SensorSnapshot F → FullStatePayload
  quantize snap = record {
    session_time = snap.session_time_ms;
    sensor_flags = snap.sensor_flags;
    wind_cms = ops.rounded_hundredths snap.wind_mps;
    temp_cdegc = ops.signed_hundredths snap.temp_c;
    humidity_cpct = ops.rounded_hundredths snap.humidity_pct;
    pm1_0_ug10 = ops.rounded_tenths snap.pm1_0;
    pm2_5_ug10 = ops.rounded_tenths snap.pm2_5;
    pm4_0_ug10 = ops.rounded_tenths snap.pm4_0;
    pm10_ug10 = ops.rounded_tenths snap.pm10;
  }

  unfoldable pub push : SensorSnapshot F → PacketHandler F → Bool × PacketHandler F
  unfolding try_encode_status gate_invalid_sensors quantize add_sample
  push snap h =
      let polled = try_encode_status snap (record h { bundle_ready = false }) in
      if not polled.bundle_encoding_enabled
      then (false, polled)
      else let (gated, values) = gate_invalid_sensors snap polled.last_good in
        add_sample (quantize gated) (record polled { last_good = values })
