-- ===== src/Telemetry/Handler/Valid.antt =====
-- The representation invariant of PacketHandler.cpp: what the fields of the accumulator can hold.
use smart_fires_io_t.Base.{
  ℕ, ◌+◌, ◌≤◌, ◌<◌, ◌≡◌, ◌⊎◌, inl, inr, Bool, true, false, not, ◌||◌, List, [], ◌∷◌, ◌++◌,
  Bool-cases, ltb, length, length-append, if◌then◌else◌, arith, refl, sym, subst,
}
use smart_fires_io_t.Base.Int.{InRange}
use smart_fires_io_t.Wire.Constants.{bundle_max_deltas}
use smart_fires_io_t.Wire.Packet.{FullStatePayload, DeltaPayload}
use smart_fires_io_t.Wire.Fits
use smart_fires_io_t.Wire.BundleTrip.{DeltasFit}
use smart_fires_io_t.Telemetry.Types.{FloatOps, SensorSnapshot, LastGood, PacketHandler, zero_state}
use smart_fires_io_t.Telemetry.Delta.{make_delta}
use smart_fires_io_t.Telemetry.Delta.Accuracy.{make_delta-DeltaFits}
use smart_fires_io_t.Telemetry.Handler.{
  try_encode_status, gate_invalid_sensors, quantize, encode_accumulated_bundle, add_sample, push,
  flush_window, reset_bundle_state, new_handler,
}

-- The conversions give values of their types.
pub record IsLawful {F : Type 0} (ops : FloatOps F) : Type 0 where
  pub hundredths_fit : (x : F) → ops.rounded_hundredths x < 65536
  pub tenths_fit : (x : F) → ops.rounded_tenths x < 65536
  pub signed_fit : (x : F) → InRange 32768 (ops.signed_hundredths x)
  pub e7_fit : (x : F) → InRange 2147483648 (ops.e7 x)

pub record SnapshotFits {F : Type 0} (snap : SensorSnapshot F) : Type 0 where
  pub time_fits : snap.session_time_ms < 4294967296
  pub flags_fit : snap.sensor_flags < 65536
  pub mv_fits : snap.battery_mv < 65536
  pub pct_fits : snap.battery_pct < 256
  pub accuracy_fits : snap.heading_accuracy < 65536

-- Fewer deltas than the configured number, which is at least 1 and at most the array's 14; no delta
-- without a reference; every field within its width.
pub record IsValid {F : Type 0} (h : PacketHandler F) : Type 0 where
  pub depth : h.max_deltas ≤ bundle_max_deltas
  pub room : length h.deltas < h.max_deltas
  pub based : (h.has_ref ≡ true) ⊎ (h.deltas ≡ [])
  pub node_fits : h.node_id < 256
  pub seq_fits : h.seq < 256
  pub ref_fits : Fits.FullStateFits h.ref
  pub deltas_fit : DeltasFit h.deltas

zero_state-Fits : Fits.FullStateFits zero_state
zero_state-Fits = record {
  session_time_fits = omega arith;
  sensor_flags_fits = omega arith;
  wind_cms_fits = omega arith;
  temp_cdegc_fits = (omega arith, omega arith);
  humidity_cpct_fits = omega arith;
  pm1_0_ug10_fits = omega arith;
  pm2_5_ug10_fits = omega arith;
  pm4_0_ug10_fits = omega arith;
  pm10_ug10_fits = omega arith;
}

pub DeltasFit-snoc :
    (ds : List DeltaPayload) (d : DeltaPayload)
    → DeltasFit ds
    → Fits.DeltaFits d
    → DeltasFit (ds ++ (d ∷ []))
DeltasFit-snoc [] d v h = (h, tt)
DeltasFit-snoc (x ∷ ds) d (hx, v) h = (hx, DeltasFit-snoc ds d v h)

pub length-snoc :
    (ds : List DeltaPayload) (d : DeltaPayload) → length (ds ++ (d ∷ [])) ≡ length ds + 1
length-snoc ds d = omega (arith, length-append ds (d ∷ []))

module _ {F : Type 0} where
  -- The bundle's part after a frame was encoded or dropped.
  emptied-IsValid :
      (h h' : PacketHandler F)
      → IsValid h
      → h'.max_deltas ≡ h.max_deltas
      → h'.deltas ≡ []
      → h'.node_id < 256
      → h'.seq < 256
      → Fits.FullStateFits h'.ref
      → IsValid h'
  emptied-IsValid h h' v m e n q r = record {
    depth = subst (λ k. k ≤ bundle_max_deltas) (sym m) v.depth;
    room = rw (e, m) (omega (arith, v.room));
    based = inr e;
    node_fits = n;
    seq_fits = q;
    ref_fits = r;
    deltas_fit = subst DeltasFit (sym e) tt;
  }

  encoded-IsValid :
      (h : PacketHandler F)
      → (0 < h.max_deltas)
      → h.max_deltas ≤ bundle_max_deltas
      → h.node_id < 256
      → Fits.FullStateFits h.ref
      → IsValid (encode_accumulated_bundle h).1
  unfolding encode_accumulated_bundle
  encoded-IsValid h p m n r = record {
    depth = m;
    room = p;
    based = inr refl;
    node_fits = n;
    seq_fits = omega arith;
    ref_fits = r;
    deltas_fit = tt;
  }

  -- Adding a sample whose fields fit keeps the accumulator well formed.
  pub add_sample-IsValid :
      (sample : FullStatePayload) (h : PacketHandler F)
      → IsValid h
      → Fits.FullStateFits sample
      → IsValid (add_sample sample h).1
  unfolding add_sample
  add_sample-IsValid sample h v fits = elim (Bool-cases h.has_ref) [
    | inr fresh ↦ simp fresh (record {
      depth = v.depth;
      room = omega (arith, v.room);
      based = inl refl;
      node_fits = v.node_fits;
      seq_fits = v.seq_fits;
      ref_fits = fits;
      deltas_fit = tt;
    })
    | inl based ↦
        simp based
          (elim (Bool-cases (
            ltb (length (h.deltas ++ (make_delta h.ref h.prev_sample sample ∷ []))) h.max_deltas)) [
              | inl short ↦ rw short (record {
                depth = v.depth;
                room = ground arith;
                based = inl refl;
                node_fits = v.node_fits;
                seq_fits = v.seq_fits;
                ref_fits = v.ref_fits;
                deltas_fit =
                    DeltasFit-snoc h.deltas _ v.deltas_fit
                      (make_delta-DeltaFits h.ref h.prev_sample sample fits.wind_cms_fits);
              })
              | inr full ↦ rw full (
                  encoded-IsValid
                    (record h {
                      deltas = h.deltas ++ (make_delta h.ref h.prev_sample sample ∷ []);
                      prev_sample = sample;
                    })
                    (omega (arith, v.room)) v.depth v.node_fits v.ref_fits)
            ])
  ]

  pub flush_window-IsValid : (h : PacketHandler F) → IsValid h → IsValid (flush_window h).1
  unfolding flush_window
  flush_window-IsValid h v = elim (Bool-cases (h.bundle_ready)) [
    | inl ready ↦ simp ready v
    | inr none_ready ↦
        simp none_ready (elim (Bool-cases (not h.bundle_encoding_enabled || not h.has_ref)) [
          | inl off ↦ rw off v
          | inr on ↦
              rw on (encoded-IsValid h (omega (arith, v.room)) v.depth v.node_fits v.ref_fits)
        ])
  ]

  reset_bundle_state-IsValid : (h : PacketHandler F) → IsValid h → IsValid (reset_bundle_state h)
  unfolding reset_bundle_state
  reset_bundle_state-IsValid h v =
      emptied-IsValid h (reset_bundle_state h) v refl refl v.node_fits v.seq_fits zero_state-Fits

-- What a handler's accumulator consists of; two handlers that agree on it are well formed together.
pub record SameBundle {F : Type 0} (h h' : PacketHandler F) : Type 0 where
  pub same_depth : h'.max_deltas ≡ h.max_deltas
  pub same_deltas : h'.deltas ≡ h.deltas
  pub same_has_ref : h'.has_ref ≡ h.has_ref
  pub same_ref : h'.ref ≡ h.ref
  pub same_prev : h'.prev_sample ≡ h.prev_sample
  pub same_node : h'.node_id ≡ h.node_id

pub SameBundle-IsValid :
    {F : Type 0} (h h' : PacketHandler F) → SameBundle h h' → h'.seq < 256 → IsValid h → IsValid h'
SameBundle-IsValid h h' e q v = record {
  depth = subst (λ k. k ≤ bundle_max_deltas) (sym e.same_depth) v.depth;
  room = rw (e.same_deltas, e.same_depth) v.room;
  based = rw (e.same_deltas, e.same_has_ref) v.based;
  node_fits = subst (λ k. k < 256) (sym e.same_node) v.node_fits;
  seq_fits = q;
  ref_fits = subst Fits.FullStateFits (sym e.same_ref) v.ref_fits;
  deltas_fit = subst DeltasFit (sym e.same_deltas) v.deltas_fit;
}

-- The two handlers differ in no field that the accumulator has.
same_refl :
    {F : Type 0} {h : PacketHandler F} {b : Bool} {g : LastGood F}
    → SameBundle h (record h { bundle_ready = b; last_good = g })
same_refl = record {
  same_depth = refl;
  same_deltas = refl;
  same_has_ref = refl;
  same_ref = refl;
  same_prev = refl;
  same_node = refl;
}

if-IsValid :
    {F : Type 0} (b : Bool) (x y : Bool × PacketHandler F)
    → IsValid x.1
    → IsValid y.1
    → IsValid (if b then x else y).1
if-IsValid true x y v w = v
if-IsValid false x y v w = w

module _ {F : Type 0} (ops : FloatOps F) where
  quantize-Fits :
      (snap : SensorSnapshot F)
      → IsLawful ops
      → SnapshotFits snap
      → Fits.FullStateFits (quantize ops snap)
  unfolding quantize
  quantize-Fits snap l v = record {
    session_time_fits = v.time_fits;
    sensor_flags_fits = v.flags_fit;
    wind_cms_fits = l.hundredths_fit snap.wind_mps;
    temp_cdegc_fits = l.signed_fit snap.temp_c;
    humidity_cpct_fits = l.hundredths_fit snap.humidity_pct;
    pm1_0_ug10_fits = l.tenths_fit snap.pm1_0;
    pm2_5_ug10_fits = l.tenths_fit snap.pm2_5;
    pm4_0_ug10_fits = l.tenths_fit snap.pm4_0;
    pm10_ug10_fits = l.tenths_fit snap.pm10;
  }

  gated-Fits :
      (snap : SensorSnapshot F) (good : LastGood F)
      → SnapshotFits snap
      → SnapshotFits (gate_invalid_sensors snap good).0
  unfolding gate_invalid_sensors
  gated-Fits snap good v = record {
    time_fits = v.time_fits;
    flags_fit = v.flags_fit;
    mv_fits = v.mv_fits;
    pct_fits = v.pct_fits;
    accuracy_fits = v.accuracy_fits;
  }

  pub try_encode_status-SameBundle :
      (snap : SensorSnapshot F) (h : PacketHandler F)
      → h.seq < 256
      → SameBundle h (try_encode_status ops snap h) × ((try_encode_status ops snap h).seq < 256)
  unfolding try_encode_status
  try_encode_status-SameBundle snap h q = (
    record {
      same_depth = ground arith;
      same_deltas = ground arith;
      same_has_ref = ground arith;
      same_ref = ground arith;
      same_prev = ground arith;
      same_node = ground arith;
    },
    ground arith,
  )

  -- Pushing a snapshot keeps the accumulator well formed, at conversions that give values of their types
  -- and a snapshot whose fields fit.
  pub push-IsValid :
      (snap : SensorSnapshot F) (h : PacketHandler F)
      → IsLawful ops
      → SnapshotFits snap
      → IsValid h
      → IsValid (push ops snap h).1
  unfolding push
  push-IsValid snap h l fits v =
      let h0 : PacketHandler F = record h { bundle_ready = false } in
      let p : PacketHandler F = try_encode_status ops snap h0 in
      let (same, q) = try_encode_status-SameBundle snap h0 v.seq_fits in
      let v0 : IsValid h0 = SameBundle-IsValid h h0 same_refl v.seq_fits v in
      let pv : IsValid p = SameBundle-IsValid h0 p same q v0 in
      if-IsValid (not p.bundle_encoding_enabled) _ _ pv (
        add_sample-IsValid _ _
          (SameBundle-IsValid p (record p { last_good = (gate_invalid_sensors snap p.last_good).1 })
            same_refl q pv)
          (quantize-Fits _ l (gated-Fits snap p.last_good fits)))

  pub new_handler-IsValid :
      (node_id max_deltas status_interval_ms : ℕ)
      → node_id < 256
      → 0 < max_deltas
      → max_deltas ≤ bundle_max_deltas
      → IsValid (new_handler ops node_id max_deltas status_interval_ms)
  unfolding new_handler
  new_handler-IsValid node_id max_deltas status_interval_ms n p m = record {
    depth = m;
    room = p;
    based = inr refl;
    node_fits = n;
    seq_fits = omega arith;
    ref_fits = zero_state-Fits;
    deltas_fit = tt;
  }
