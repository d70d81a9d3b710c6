-- ===== src/Telemetry/Handler/Bundle.antt =====
-- What becomes of the samples in PacketHandler.cpp: `push` and `flushWindow` against the decoder.
use smart_fires_io_t.Base.{
  ◌+◌, ◌*◌, ◌≤◌, ◌<◌, ◌≡◌, ◌⊎◌, inl, inr, Bool, true, false, not, List, [], ◌∷◌, ◌++◌, some,
  Bool-cases, ltb, length, if◌then◌else◌, arith, refl,
}
use smart_fires_io_t.Wire.Constants.{pkt_bundle, bundle_max_deltas, max_bundle_lora_size}
use smart_fires_io_t.Wire.Packet.{FullStatePayload, DeltaPayload}
use smart_fires_io_t.Wire.Fits
use smart_fires_io_t.Wire.Encode.{header}
use smart_fires_io_t.Wire.Decode.{decode_bundle}
use smart_fires_io_t.Wire.BundleTrip.{DeltasFit, bundle_roundtrip}
use smart_fires_io_t.Telemetry.Types.{PacketHandler}
use smart_fires_io_t.Telemetry.Delta.{make_delta}
use smart_fires_io_t.Telemetry.Delta.Accuracy.{make_delta-DeltaFits}
use smart_fires_io_t.Telemetry.Handler.{
  encode_accumulated_bundle, add_sample, flush_window, has_partial_bundle,
}
use smart_fires_io_t.Telemetry.Handler.Valid.{IsValid, DeltasFit-snoc, length-snoc}

-- A handler closed a bundle: it returned true, a frame is ready that decodes to the reference and the
-- deltas under the node's id and the sequence number before, and the accumulator is empty.
pub record Closed {F : Type 0} (h : PacketHandler F) (ds : List DeltaPayload)
    (r : Bool × PacketHandler F) : Type 0 where
  pub done : r.0 ≡ true
  pub ready : r.1.bundle_ready ≡ true
  pub decodes : decode_bundle r.1.bundle ≡ some (header pkt_bundle h.node_id h.seq 0, h.ref, ds)
  pub size : length r.1.bundle ≡ 27 + 12 * length ds
  pub emptied : r.1.deltas ≡ []
  pub unbased : r.1.has_ref ≡ false

module _ {F : Type 0} where
  encoded-Closed :
      (h : PacketHandler F)
      → length h.deltas ≤ bundle_max_deltas
      → h.node_id < 256
      → h.seq < 256
      → Fits.FullStateFits h.ref
      → DeltasFit h.deltas
      → Closed h h.deltas (encode_accumulated_bundle h)
  unfolding encode_accumulated_bundle
  encoded-Closed h few n q r d =
      let hv : Fits.HeaderFits (header pkt_bundle h.node_id h.seq 0) = record {
        magic_fits = omega arith;
        pkt_type_fits = omega arith;
        node_id_fits = n;
        seq_fits = q;
        flags_fits = omega arith;
      } in
      let (raw, wrote, size, back) =
        bundle_roundtrip h.node_id h.seq max_bundle_lora_size 0 h.ref h.deltas few (omega arith) hv
          r d in
      record {
        done = rw wrote refl;
        ready = rw wrote refl;
        decodes = rw wrote back;
        size = rw wrote size;
        emptied = refl;
        unbased = refl;
      }

  -- Adding a sample whose fields fit to a well-formed accumulator has three outcomes. Without a
  -- reference the sample becomes the reference, with no deltas. With one, its delta is appended: if
  -- there are still fewer deltas than the configured number, false is returned, the reference stays and
  -- the sample is the previous one; otherwise there are exactly that number and the bundle is closed:
  -- true is returned, a frame is ready that decodes to the reference and all the deltas under the
  -- node's id and sequence number, and the accumulator is empty.
  pub add_sample_outcome :
      (sample : FullStatePayload) (h : PacketHandler F)
      → IsValid h
      → Fits.FullStateFits sample
      → let r = add_sample sample h in
        let ds = h.deltas ++ (make_delta h.ref h.prev_sample sample ∷ []) in
        ((h.has_ref ≡ false)
          × (r.0 ≡ false)
          × (r.1.ref ≡ sample)
          × (r.1.deltas ≡ [])
          × (r.1.has_ref ≡ true))
        ⊎ ((h.has_ref ≡ true)
            × (r.0 ≡ false)
            × (r.1.ref ≡ h.ref)
            × (r.1.deltas ≡ ds)
            × (r.1.prev_sample ≡ sample)
            × (length ds < h.max_deltas))
        ⊎ ((h.has_ref ≡ true) × (length ds ≡ h.max_deltas) × Closed h ds r)
  unfolding add_sample
  add_sample_outcome sample h v fits =
      let d : DeltaPayload = make_delta h.ref h.prev_sample sample in
      let ds : List DeltaPayload = h.deltas ++ (d ∷ []) in
      let grown : PacketHandler F = record h { deltas = ds; prev_sample = sample } in
      elim (Bool-cases h.has_ref) [
        | inr fresh ↦ inl (fresh, ground arith, ground arith, ground arith, ground arith)
        | inl based ↦ elim (Bool-cases (ltb (length ds) h.max_deltas)) [
          | inl short ↦
              inr
                (inl (based, ground arith, ground arith, ground arith, ground arith, ground arith))
          | inr full ↦ inr (
              inr (
                based,
                ground (arith, length-snoc h.deltas d, v.room),
                closed_if h ds grown (not h.has_ref) (ltb (length ds) h.max_deltas) _ _
                    (ground arith) full refl refl refl
                    (encoded-Closed grown (omega (arith, length-snoc h.deltas d, v.room, v.depth))
                      v.node_fits v.seq_fits v.ref_fits
                      (DeltasFit-snoc h.deltas d v.deltas_fit
                        (make_delta-DeltaFits h.ref h.prev_sample sample fits.wind_cms_fits))),
              ))
        ]
      ]
    where
      closed_if :
          (g : PacketHandler F) (ds : List DeltaPayload) (k : PacketHandler F) (a b : Bool)
          (x y : Bool × PacketHandler F)
          → a ≡ false
          → b ≡ false
          → k.node_id ≡ g.node_id
          → k.seq ≡ g.seq
          → k.ref ≡ g.ref
          → Closed k ds (encode_accumulated_bundle k)
          → Closed g ds (if a then x else if b then y else encode_accumulated_bundle k)
      closed_if g ds k a b x y e f n q r c =
          rw (e, f)
            (record {
              done = c.done;
              ready = c.ready;
              decodes = rw (← n, ← q, ← r) c.decodes;
              size = c.size;
              emptied = c.emptied;
              unbased = c.unbased;
            })

  -- Flushing a window with a partial bundle and no frame waiting closes the bundle with the deltas that
  -- there are; otherwise flushing changes nothing, and says whether a frame waits.
  pub flush_window_outcome :
      (h : PacketHandler F)
      → IsValid h
      → ((h.bundle_ready ≡ false)
          × (has_partial_bundle h ≡ true)
          × Closed h h.deltas (flush_window h))
        ⊎ (flush_window h ≡ (h.bundle_ready, h))
  unfolding flush_window has_partial_bundle
  flush_window_outcome h v =
      let c =
        encoded-Closed h (omega (arith, v.room, v.depth)) v.node_fits v.seq_fits v.ref_fits
          v.deltas_fit in
      ground arith
