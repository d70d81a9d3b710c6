-- ===== src/BaseApp/Relay.antt =====
-- What SmartFiresBaseApp.cpp makes of a frame on its way from one side to the other.
use smart_fires_io_t.Base.{ℕ, ◌+◌, ◌≡◌, ◌<◌, refl, false, ltb, List, [], ◌∷◌, none, length, arith}
use smart_fires_io_t.Wire.Constants.{
  time_sync_lora_size, pkt_time_sync, cmd_set_tx_power_lora_size, pkt_cmd_set_tx_power, header_size,
}
use smart_fires_io_t.Wire.Crc.{seal}
use smart_fires_io_t.Wire.Crc.Laws.{crc_ok-seal}
use smart_fires_io_t.Wire.Layout
use smart_fires_io_t.Wire.RoundTrip.{length-seal}
use smart_fires_io_t.Wire.Decode.{
  decode_fixed, decode_time_sync, decode_cmd_set_tx_power, decode_cmd_calibrate, decode_cmd_reset,
}
use smart_fires_io_t.BaseApp.Jetson.{
  decode_from_jetson, decode_cmd_calibrate_from_jetson, decode_cmd_reset_from_jetson,
  handle_time_sync, handle_cmd_calibrate, handle_cmd_reset, handle_cmd_set_tx_power,
  handle_jetson_command_payload,
}
use smart_fires_io_t.Config.Profile.{NetworkProfile}
use smart_fires_io_t.BaseApp.State.{BaseApp}

-- A frame of the header and two bytes.
seven :
    (P : List ℕ → Type 0)
    → ((c0 c1 c2 c3 c4 c5 c6 : ℕ) → P (c0 ∷ c1 ∷ c2 ∷ c3 ∷ c4 ∷ c5 ∷ c6 ∷ []))
    → (raw : List ℕ) → length raw ≡ header_size + 2
    → P raw
seven P h (c0 ∷ c1 ∷ c2 ∷ c3 ∷ c4 ∷ c5 ∷ c6 ∷ []) size = h c0 c1 c2 c3 c4 c5 c6
seven P h [] size = absurd (omega (arith, size))
seven P h (c0 ∷ []) size = absurd (omega (arith, size))
seven P h (c0 ∷ c1 ∷ []) size = absurd (omega (arith, size))
seven P h (c0 ∷ c1 ∷ c2 ∷ []) size = absurd (omega (arith, size))
seven P h (c0 ∷ c1 ∷ c2 ∷ c3 ∷ []) size = absurd (omega (arith, size))
seven P h (c0 ∷ c1 ∷ c2 ∷ c3 ∷ c4 ∷ []) size = absurd (omega (arith, size))
seven P h (c0 ∷ c1 ∷ c2 ∷ c3 ∷ c4 ∷ c5 ∷ []) size = absurd (omega (arith, size))
seven P h (c0 ∷ c1 ∷ c2 ∷ c3 ∷ c4 ∷ c5 ∷ c6 ∷ c7 ∷ rest) size = absurd (omega (arith, size))

calibrate_same :
    (raw : List ℕ)
    → length raw ≡ header_size + 2
    → decode_cmd_calibrate_from_jetson (seal raw) ≡ decode_cmd_calibrate_from_jetson raw
unfolding decode_cmd_calibrate_from_jetson decode_from_jetson decode_cmd_calibrate decode_fixed
    Layout.header_of Layout.cmd_calibrate_of
calibrate_same =
    seven
      (λ raw. decode_cmd_calibrate_from_jetson (seal raw) ≡ decode_cmd_calibrate_from_jetson raw)
      (λ c0 c1 c2 c3 c4 c5 c6.
        let raw = c0 ∷ c1 ∷ c2 ∷ c3 ∷ c4 ∷ c5 ∷ c6 ∷ [] in
        unfold seal in ground (arith, crc_ok-seal raw))

reset_same :
    (raw : List ℕ)
    → length raw ≡ header_size + 2
    → decode_cmd_reset_from_jetson (seal raw) ≡ decode_cmd_reset_from_jetson raw
unfolding decode_cmd_reset_from_jetson decode_from_jetson decode_cmd_reset decode_fixed
    Layout.header_of Layout.cmd_reset_of
reset_same =
    seven (λ raw. decode_cmd_reset_from_jetson (seal raw) ≡ decode_cmd_reset_from_jetson raw)
      (λ c0 c1 c2 c3 c4 c5 c6.
        let raw = c0 ∷ c1 ∷ c2 ∷ c3 ∷ c4 ∷ c5 ∷ c6 ∷ [] in
        unfold seal in ground (arith, crc_ok-seal raw))

header_same :
    (raw : List ℕ)
    → length raw ≡ header_size + 2
    → Layout.header_of (seal raw) ≡ Layout.header_of raw
unfolding Layout.header_of seal
header_same =
    seven (λ raw. Layout.header_of (seal raw) ≡ Layout.header_of raw) (λ c0 c1 c2 c3 c4 c5 c6. refl)

too_short {ℓ} :
    {P : Type ℓ} (size t : ℕ) (payload_of : List ℕ → P) (raw : List ℕ)
    → length raw < size
    → decode_fixed size t payload_of raw ≡ none
unfolding decode_fixed
too_short size t payload_of raw h = ground (arith, h)

no_time_sync : (raw : List ℕ) → length raw < time_sync_lora_size → decode_time_sync raw ≡ none
unfolding decode_time_sync
no_time_sync = too_short time_sync_lora_size pkt_time_sync Layout.time_sync_of

no_set_power :
    (raw : List ℕ) → length raw < cmd_set_tx_power_lora_size → decode_cmd_set_tx_power raw ≡ none
unfolding decode_cmd_set_tx_power
no_set_power = too_short cmd_set_tx_power_lora_size pkt_cmd_set_tx_power Layout.cmd_set_tx_power_of

module _ (raw : List ℕ) (b : BaseApp) (size : length raw ≡ header_size + 2) where
  calibrate_handled : handle_cmd_calibrate (seal raw) b ≡ handle_cmd_calibrate raw b
  unfolding handle_cmd_calibrate
  calibrate_handled = rw (calibrate_same raw size, handle_cmd_calibrate) refl

  reset_handled : handle_cmd_reset (seal raw) b ≡ handle_cmd_reset raw b
  unfolding handle_cmd_reset
  reset_handled = rw (reset_same raw size, handle_cmd_reset) refl

  time_sync_refused : (now : ℕ) → handle_time_sync now (seal raw) b ≡ handle_time_sync now raw b
  unfolding handle_time_sync
  time_sync_refused now =
      rw
        (
          no_time_sync raw (omega (arith, size)),
          no_time_sync (seal raw) (omega (arith, size, length-seal raw)),
          handle_time_sync,
        )
        refl

  set_power_refused :
      (profile : NetworkProfile)
      → handle_cmd_set_tx_power profile (seal raw) b ≡ handle_cmd_set_tx_power profile raw b
  unfolding handle_cmd_set_tx_power
  set_power_refused profile =
      rw
        (
          no_set_power raw (omega (arith, size)),
          no_set_power (seal raw) (omega (arith, size, length-seal raw)),
          handle_cmd_set_tx_power,
        )
        refl

-- A command of the old form is a command: the base does the same, to its state and outside, for a frame of
-- the header and two bytes and for that frame with its checksum behind it, whatever the bytes are.
pub bare_command_same :
    (profile : NetworkProfile) (now : ℕ) (raw : List ℕ) (b : BaseApp)
    → length raw ≡ header_size + 2
    → handle_jetson_command_payload profile now (seal raw) b
      ≡ handle_jetson_command_payload profile now raw b
unfolding handle_jetson_command_payload
bare_command_same profile now raw b size =
    let long : ltb (length (seal raw)) header_size ≡ false =
      ground (arith, size, length-seal raw) in
    let long' : ltb (length raw) header_size ≡ false = ground (arith, size) in
    rw
      (
        long,
        long',
        header_same raw size,
        calibrate_handled raw b size,
        reset_handled raw b size,
        time_sync_refused raw b size now,
        set_power_refused raw b size profile,
      )
      refl
