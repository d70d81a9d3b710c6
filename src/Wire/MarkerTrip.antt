-- ===== src/Wire/MarkerTrip.antt =====
-- Encoders against decoders of BinaryPacket.h: AWAKEN in both layouts and the window markers.
use smart_fires_io_t.Base.{
  ℕ, zero, suc, ◌≤◌, ◌<◌, ◌≡◌, ◌⊎◌, List, [], ◌∷◌, some, length, take, drop, arith, refl, sym, ap,
}
use smart_fires_io_t.Wire.Constants.{pkt_magic, pkt_awaken, pkt_window_begin, pkt_window_end}
use smart_fires_io_t.Wire.Crc.{crc8, seal}
use smart_fires_io_t.Wire.Crc.Laws.{crc_ok-seal}
use smart_fires_io_t.Wire.Packet.{PktHeader, AwakenPayload, WindowMarkerPayload}
use smart_fires_io_t.Wire.Layout
use smart_fires_io_t.Wire.Layout.{le32}
use smart_fires_io_t.Wire.Fits
use smart_fires_io_t.Wire.ReadBack.{header_of-bytes, awaken_of-bytes, window_marker_of-bytes}
use smart_fires_io_t.Wire.Encode.{header, encode_fixed, encode_awaken, encode_window_marker}
use smart_fires_io_t.Wire.Decode.{decode_awaken, decode_window_marker}
use smart_fires_io_t.Wire.RoundTrip.{Carries, seal-header}

take_all : (xs : List ℕ) (n : ℕ) → n ≡ length xs → take n xs ≡ xs
take_all [] zero h = refl
take_all [] (suc n) h = absurd (omega arith)
take_all (x ∷ xs) zero h = absurd (omega arith)
take_all (x ∷ xs) (suc n) h = ap (λ l. x ∷ l) (take_all xs n (omega arith))

-- A window marker of either kind whose fields fit is encoded in 17 bytes in any buffer of at least
-- that size, and decodes to itself and to a header with the sequence number 0.
pub window_marker_roundtrip :
    (pkt_type node_id buf_size flags : ℕ) (p : WindowMarkerPayload)
    → (pkt_type ≡ pkt_window_begin) ⊎ (pkt_type ≡ pkt_window_end)
    → 17 ≤ buf_size
    → Fits.HeaderFits (header pkt_type node_id 0 flags)
    → Fits.WindowMarkerFits p
    → Carries 17
        (header pkt_type node_id 0 flags)
        p
        (encode_window_marker pkt_type node_id p buf_size flags)
        decode_window_marker
unfolding encode_window_marker encode_fixed decode_window_marker
window_marker_roundtrip pkt_type node_id buf_size flags p kind room hv v =
    let hdr : PktHeader = header pkt_type node_id 0 flags in
    let body = Layout.header_bytes hdr (Layout.window_marker_bytes p []) in
    let n : length (seal body) ≡ 17 =
      unfold Layout.header_bytes Layout.window_marker_bytes seal in refl in
    let whole : take 17 (seal body) ≡ seal body = take_all (seal body) 17 (sym n) in
    let h : Layout.header_of (seal body) ≡ hdr =
      rw (seal-header hdr (Layout.window_marker_bytes p [])) (header_of-bytes hdr _ hv) in
    let q : Layout.window_marker_of (drop 5 (seal body)) ≡ p =
      unfold Layout.header_bytes Layout.window_marker_bytes seal in
      (window_marker_of-bytes p (crc8 body ∷ []) v) in
    (seal body, ground arith, n, ground (arith, crc_ok-seal body))

-- An AWAKEN packet whose fields fit is encoded in 12 bytes in any buffer of at least that size, and
-- decodes to itself and its header.
pub awaken_roundtrip :
    (node_id seq buf_size flags : ℕ) (p : AwakenPayload)
    → 12 ≤ buf_size
    → Fits.HeaderFits (header pkt_awaken node_id seq flags)
    → Fits.AwakenFits p
    → Carries 12
        (header pkt_awaken node_id seq flags)
        p
        (encode_awaken node_id seq p buf_size flags)
        decode_awaken
unfolding encode_awaken encode_fixed decode_awaken
awaken_roundtrip node_id seq buf_size flags p room hv v =
    let hdr : PktHeader = header pkt_awaken node_id seq flags in
    let body = Layout.header_bytes hdr (Layout.awaken_bytes p []) in
    let n : length (seal body) ≡ 12 = unfold Layout.header_bytes Layout.awaken_bytes seal in refl in
    let whole : take 12 (seal body) ≡ seal body = take_all (seal body) 12 (sym n) in
    let h : Layout.header_of (take 5 (seal body)) ≡ hdr =
      unfold Layout.header_bytes Layout.header_of Layout.awaken_bytes seal in refl in
    let q : Layout.awaken_of (take 6 (drop 5 (seal body))) ≡ p =
      unfold Layout.header_bytes Layout.awaken_bytes seal in (awaken_of-bytes p [] v) in
    (seal body, ground arith, n, ground (arith, crc_ok-seal body))

-- A frame in the legacy AWAKEN layout, four header bytes and the uid hash, decodes to that header
-- with flags 0 and to that uid hash with reset cause 0 and hang zone 0.
pub legacy_awaken_decodes :
    (node_id seq uid_hash : ℕ)
    → uid_hash < 4294967296
    → decode_awaken (seal (pkt_magic ∷ pkt_awaken ∷ node_id ∷ seq ∷ le32 uid_hash []))
      ≡ some (
        header pkt_awaken node_id seq 0,
        record { uid_hash = uid_hash; reset_cause = 0; hang_zone = 0 },
      )
unfolding decode_awaken
legacy_awaken_decodes node_id seq uid_hash h =
    let body : List ℕ = pkt_magic ∷ pkt_awaken ∷ node_id ∷ seq ∷ le32 uid_hash [] in
    let n : length (seal body) ≡ 9 = unfold seal in refl in
    let whole : take 9 (seal body) ≡ seal body = take_all (seal body) 9 (sym n) in
    let e : Layout.header_of (take 4 (seal body)) ≡ header pkt_awaken node_id seq 0 =
      unfold seal Layout.header_of in refl in
    let q : Layout.awaken_of (take 4 (drop 4 (seal body)))
        ≡ record { uid_hash = uid_hash; reset_cause = 0; hang_zone = 0 } =
      unfold seal Layout.awaken_of in ground arith in
    ground (arith, crc_ok-seal body)
