-- ===== src/Wire/BundleTrip.antt =====
-- BUNDLE of BinaryPacket.h: `encodeBundlePayload` against `decodeBundle`.
use smart_fires_io_t.Base.{
  ℕ, ◌+◌, ◌*◌, ◌≤◌, ◌<◌, ◌≡◌, ◌≢◌, List, [], ◌∷◌, ◌++◌, true, false, none, some, length, take, drop,
  get_or, set, arith, refl, ap, ◌∙◌,
}
use smart_fires_io_t.Wire.Constants.{pkt_bundle, bundle_max_deltas, delta_size}
use smart_fires_io_t.Wire.Crc.{crc8, seal, crc_ok}
use smart_fires_io_t.Wire.Crc.Laws.{IsBytes, crc_ok-seal}
use smart_fires_io_t.Wire.Crc.Detect.{single_byte_detected}
use smart_fires_io_t.Wire.Packet.{PktHeader, FullStatePayload, DeltaPayload}
use smart_fires_io_t.Wire.Layout
use smart_fires_io_t.Wire.Layout.{le32}
use smart_fires_io_t.Wire.Fits
use smart_fires_io_t.Wire.ReadBack.{header_of-bytes, full_state_of-bytes, delta_of-bytes}
use smart_fires_io_t.Wire.Encode.{header, deltas_bytes, encode_bundle}
use smart_fires_io_t.Wire.Decode.{deltas_of, decode_bundle}
use smart_fires_io_t.Wire.RoundTrip.{
  seal-header, length-seal, length-header_bytes, drop-header_bytes,
}

abbrev pub DeltasFit : List DeltaPayload → Type 0
DeltasFit [] = Unit {0}
DeltasFit (d ∷ ds) = Fits.DeltaFits d × DeltasFit ds

delta_bytes-append :
    (d : DeltaPayload) (xs ys : List ℕ)
    → Layout.delta_bytes d xs ++ ys ≡ Layout.delta_bytes d (xs ++ ys)
unfolding Layout.delta_bytes
delta_bytes-append d xs ys = refl

drop-delta_bytes : (d : DeltaPayload) (xs : List ℕ) → drop delta_size (Layout.delta_bytes d xs) ≡ xs
unfolding Layout.delta_bytes
drop-delta_bytes d xs = refl

length-delta_bytes :
    (d : DeltaPayload) (xs : List ℕ) → length (Layout.delta_bytes d xs) ≡ length xs + 12
unfolding Layout.delta_bytes
length-delta_bytes d xs = omega arith

deltas_of-bytes :
    (ds : List DeltaPayload) (rest : List ℕ)
    → DeltasFit ds
    → deltas_of (length ds) (deltas_bytes ds ++ rest) ≡ ds
unfolding deltas_of deltas_bytes
deltas_of-bytes [] rest v = refl
deltas_of-bytes (d ∷ ds) rest (hd, v) = rw (
  delta_bytes-append d,
  drop-delta_bytes d,
  deltas_of-bytes ds rest v,
  delta_of-bytes d (deltas_bytes ds ++ rest) hd,
)

length-deltas_bytes : (ds : List DeltaPayload) → length (deltas_bytes ds) ≡ length ds * 12
unfolding deltas_bytes
length-deltas_bytes [] = omega arith
length-deltas_bytes (d ∷ ds) =
    omega (arith, length-delta_bytes d (deltas_bytes ds), length-deltas_bytes ds)

-- The frame after its header: the reference, the count, the deltas, the checksum.
frame_tail : FullStatePayload → List DeltaPayload → ℕ → List ℕ
frame_tail ref ds crc = Layout.full_state_bytes ref (length ds ∷ (deltas_bytes ds ++ (crc ∷ [])))

tail-append :
    (ref : FullStatePayload) (ds : List DeltaPayload) (crc : ℕ)
    → Layout.full_state_bytes ref (length ds ∷ deltas_bytes ds) ++ (crc ∷ [])
      ≡ frame_tail ref ds crc
unfolding Layout.full_state_bytes frame_tail
tail-append ref ds crc = refl

length-tail :
    (ref : FullStatePayload) (rest : List ℕ)
    → length (Layout.full_state_bytes ref rest) ≡ length rest + 20
unfolding Layout.full_state_bytes
length-tail ref rest = omega arith

-- Where the decoder looks in a frame.
frame_reads :
    (hdr : PktHeader) (ref : FullStatePayload) (ds : List DeltaPayload) (crc : ℕ)
    → let raw = Layout.header_bytes hdr (frame_tail ref ds crc) in
      (get_or raw 25 0 ≡ length ds) × (drop 26 raw ≡ deltas_bytes ds ++ (crc ∷ []))
unfolding Layout.header_bytes Layout.full_state_bytes frame_tail
frame_reads hdr ref ds crc = (refl, refl)

take_all : (ds : List DeltaPayload) → take (length ds) ds ≡ ds
take_all [] = refl
take_all (d ∷ ds) = ap (λ l. d ∷ l) (take_all ds)

-- A BUNDLE of at most 14 deltas whose fields fit is encoded in `27 + 12 * n` bytes in any buffer of
-- at least that size, and decodes to its header, reference and deltas.
pub bundle_roundtrip :
    (node_id seq buf_size flags : ℕ) (ref : FullStatePayload) (ds : List DeltaPayload)
    → length ds ≤ bundle_max_deltas
    → 27 + 12 * length ds ≤ buf_size
    → Fits.HeaderFits (header pkt_bundle node_id seq flags)
    → Fits.FullStateFits ref
    → DeltasFit ds
    → (raw : List ℕ) × (encode_bundle node_id seq ref ds (length ds) buf_size flags ≡ some raw)
      × (length raw ≡ 27 + 12 * length ds)
      × (decode_bundle raw ≡ some (header pkt_bundle node_id seq flags, ref, ds))
unfolding encode_bundle decode_bundle
bundle_roundtrip node_id seq buf_size flags ref ds few room hv rv dv =
    let hdr : PktHeader = header pkt_bundle node_id seq flags in
    let payload = Layout.full_state_bytes ref (length ds ∷ deltas_bytes ds) in
    let body = Layout.header_bytes hdr payload in
    let shape : seal body ≡ Layout.header_bytes hdr (frame_tail ref ds (crc8 body)) =
      seal-header hdr payload ∙ ap (Layout.header_bytes hdr) (tail-append ref ds (crc8 body)) in
    let n : length (seal body) ≡ 27 + 12 * length ds = omega (
      arith,
      length-seal body,
      length-header_bytes hdr payload,
      length-tail ref (length ds ∷ deltas_bytes ds),
      length-deltas_bytes ds,
    ) in
    let h : Layout.header_of (seal body) ≡ hdr = rw shape (header_of-bytes hdr _ hv) in
    let r : Layout.full_state_of (drop 5 (seal body)) ≡ ref =
      rw (shape, drop-header_bytes hdr) (unfold frame_tail in (full_state_of-bytes ref _ rv)) in
    let c : get_or (seal body) 25 0 ≡ length ds =
      rw shape ((frame_reads hdr ref ds (crc8 body)).0) in
    let d : deltas_of (length ds) (drop 26 (seal body)) ≡ ds =
      rw (shape, (frame_reads hdr ref ds (crc8 body)).1) (deltas_of-bytes ds (crc8 body ∷ []) dv) in
    (seal body, ground (arith, take_all ds), n, ground (arith, crc_ok-seal body))

-- What a decoder accepted passed the integrity test.
decode_bundle-crc :
    (raw : List ℕ) (r : PktHeader × FullStatePayload × List DeltaPayload)
    → decode_bundle raw ≡ some r
    → crc_ok raw ≡ true
unfolding decode_bundle
decode_bundle-crc raw r e = ground arith

bad_crc_refused : (raw : List ℕ) → crc_ok raw ≡ false → decode_bundle raw ≡ none
unfolding decode_bundle
bad_crc_refused raw e = ground arith

-- A received BUNDLE that decodes is refused once any one of its bytes is replaced by another byte.
pub damaged_bundle_refused :
    (raw : List ℕ) (i v : ℕ) (r : PktHeader × FullStatePayload × List DeltaPayload)
    → IsBytes raw
    → decode_bundle raw ≡ some r
    → i < length raw
    → v < 256
    → v ≢ get_or raw i 0
    → decode_bundle (set raw i v) ≡ none
damaged_bundle_refused raw i v r w e lt hv ne =
    bad_crc_refused (set raw i v)
      (single_byte_detected raw i v w (decode_bundle-crc raw r e) lt hv ne)
