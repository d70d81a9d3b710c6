-- ===== src/Wire/Checks.antt =====
-- The theorems on frames, applied to frames of node 3.
use smart_fires_io_t.Base.{
  ℕ, ◌+◌, ◌*◌, ◌<◌, ◌≡◌, List, [], ◌∷◌, Bool, true, false, ltb, ◌&&◌, some, length, set, arith,
  refl,
}
use smart_fires_io_t.Base.Int.{pos, negsuc}
use smart_fires_io_t.Wire.Constants.{pkt_bundle}
use smart_fires_io_t.Wire.Crc.{crc_bit, crc_bits, crc8_from, crc8, seal, crc_ok}
use smart_fires_io_t.Wire.Crc.Laws.{IsBytes}
use smart_fires_io_t.Wire.Crc.Detect.{single_byte_detected}
use smart_fires_io_t.Wire.Packet.{FullStatePayload, DeltaPayload}
use smart_fires_io_t.Wire.Fits
use smart_fires_io_t.Wire.Encode.{header, encode_bundle}
use smart_fires_io_t.Wire.Decode.{decode_bundle}
use smart_fires_io_t.Wire.BundleTrip.{bundle_roundtrip}

abbrev all_bytes : List ℕ → Bool
all_bytes [] = true
all_bytes (b ∷ bs) = ltb b 256 && all_bytes bs

all_bytes-IsBytes : (bs : List ℕ) → all_bytes bs ≡ true → IsBytes bs
all_bytes-IsBytes [] h = tt
all_bytes-IsBytes (b ∷ bs) h = (ground arith, all_bytes-IsBytes bs (ground arith))

header-Fits :
    (pkt_type node_id seq : ℕ)
    → pkt_type < 256
    → node_id < 256
    → seq < 256
    → Fits.HeaderFits (header pkt_type node_id seq 0)
header-Fits pkt_type node_id seq h k l = record {
  magic_fits = omega arith;
  pkt_type_fits = h;
  node_id_fits = k;
  seq_fits = l;
  flags_fits = omega arith;
}

-- A header of TIME_SYNC and its checksum.
abbrev small_frame : List ℕ
small_frame = seal (0xa5 ∷ 4 ∷ 3 ∷ [])

single_byte_detected_example : crc_ok (set small_frame 1 5) ≡ false
unfolding seal crc8 crc8_from crc_bits crc_bit crc_ok
single_byte_detected_example =
    single_byte_detected small_frame 1 5 (all_bytes-IsBytes small_frame refl) refl (omega arith)
      (omega arith) (omega arith)

abbrev reference : FullStatePayload
reference = record {
  session_time = 600000;
  sensor_flags = 0x13;
  wind_cms = 320;
  temp_cdegc = negsuc 249;
  humidity_cpct = 4510;
  pm1_0_ug10 = 12;
  pm2_5_ug10 = 20;
  pm4_0_ug10 = 24;
  pm10_ug10 = 25;
}

reference-Fits : Fits.FullStateFits reference
reference-Fits = record {
  session_time_fits = omega arith;
  sensor_flags_fits = omega arith;
  wind_cms_fits = omega arith;
  temp_cdegc_fits = (omega arith, omega arith);
  humidity_cpct_fits = omega arith;
  pm1_0_ug10_fits = omega arith;
  pm2_5_ug10_fits = omega arith;
  pm4_0_ug10_fits = omega arith;
  pm10_ug10_fits = omega arith;
}

abbrev delta : DeltaPayload
delta = record {
  dt_ticks_250ms = 40;
  wind_cms = 300;
  temp_delta_deci_c = negsuc 2;
  humidity_delta_0p2pct = pos 1;
  pm1_0_delta_ug = pos 0;
  pm2_5_delta_ug10 = negsuc 3;
  pm4_0_delta_ug = pos 2;
  pm10_delta_ug10 = pos 5;
  flags = 0;
}

delta-Fits : Fits.DeltaFits delta
delta-Fits = record {
  dt_ticks_250ms_fits = omega arith;
  wind_cms_fits = omega arith;
  temp_delta_deci_c_fits = (omega arith, omega arith);
  humidity_delta_0p2pct_fits = (omega arith, omega arith);
  pm1_0_delta_ug_fits = (omega arith, omega arith);
  pm2_5_delta_ug10_fits = (omega arith, omega arith);
  pm4_0_delta_ug_fits = (omega arith, omega arith);
  pm10_delta_ug10_fits = (omega arith, omega arith);
  flags_fits = omega arith;
}

bundle_roundtrip_example :
    (raw : List ℕ) × (encode_bundle 3 9 reference (delta ∷ delta ∷ []) 2 200 0 ≡ some raw)
    × (length raw ≡ 27 + 12 * 2)
    × (decode_bundle raw ≡ some (header pkt_bundle 3 9 0, reference, delta ∷ delta ∷ []))
bundle_roundtrip_example =
    bundle_roundtrip 3 9 200 0 reference (delta ∷ delta ∷ []) (omega arith) (omega arith)
      (header-Fits pkt_bundle 3 9 (omega arith) (omega arith) (omega arith)) reference-Fits
      (delta-Fits, (delta-Fits, tt))

-- A BUNDLE with no delta and a reference of zeros.
abbrev bare_frame : List ℕ
bare_frame = seal (
    0xa5 ∷ pkt_bundle ∷ 3 ∷ 9 ∷ 0 ∷ 0 ∷ 0 ∷ 0 ∷ 0 ∷ 0 ∷ 0 ∷ 0 ∷ 0 ∷ 0 ∷ 0 ∷ 0 ∷ 0 ∷ 0 ∷ 0 ∷ 0 ∷ 0
    ∷ 0 ∷ 0 ∷ 0 ∷ 0 ∷ 0 ∷ [])

bare_frame-IsBytes : IsBytes bare_frame
unfolding seal crc8 crc8_from crc_bits crc_bit
bare_frame-IsBytes = all_bytes-IsBytes bare_frame refl
