-- ===== src/Config/Airtime.antt =====
-- LoRaAirtime.h: the LoRa packet airtime in integers. Each `uint32_t` operation wraps; the shift
-- `1u << sf` is `2 ^ sf`.
pub mod Bounds
use smart_fires_io_t.Base.{
  ℕ, ◌+◌, ◌-◌, ◌*◌, ◌/◌, ◌%◌, ◌^◌, Bool, true, false, ltb, ◌==◌, if◌then◌else◌,
}
use smart_fires_io_t.Base.Int.{ℤ, pos, pos_part, ◌+ℤ◌, ◌-ℤ◌, ltb_ℤ}
use smart_fires_io_t.Base.Word.{u16, u32, sub_u32}

pub record Modem : Type 0 where
  pub spreading_factor : ℕ
  pub bandwidth_hz : ℕ
  pub coding_rate_denominator : ℕ
  pub preamble_symbols : ℕ
  pub explicit_header : Bool
  pub payload_crc : Bool
  pub low_data_rate_optimize : Bool

unfoldable pub ceil_div : ℕ → ℕ → ℕ
ceil_div numerator denominator =
    if denominator == 0 then 0 else sub_u32 (u32 (numerator + denominator)) 1 / denominator

unfoldable pub symbol_microseconds : Modem → ℕ
symbol_microseconds modem = ceil_div (u32 (2 ^ modem.spreading_factor * 1000000)) modem.bandwidth_hz

unfoldable pub payload_numerator : ℕ → Modem → ℤ
payload_numerator bytes modem =
    pos (8 * bytes)
    -ℤ pos (4 * modem.spreading_factor)
    +ℤ pos 28
    +ℤ pos (if modem.payload_crc then 16 else 0)
    -ℤ pos (if modem.explicit_header then 0 else 20)

unfoldable pub payload_denominator : Modem → ℕ
payload_denominator modem =
    u32 (4 * sub_u32 modem.spreading_factor (if modem.low_data_rate_optimize then 2 else 0))

-- The cast runs only at a positive numerator.
unfoldable pub coded_blocks : ℕ → Modem → ℕ
coded_blocks bytes modem =
    if ltb_ℤ (pos 0) (payload_numerator bytes modem)
    then ceil_div (pos_part (payload_numerator bytes modem)) (payload_denominator modem)
    else 0

unfoldable pub payload_symbols : ℕ → Modem → ℕ
payload_symbols bytes modem = u32 (8 + coded_blocks bytes modem * modem.coding_rate_denominator)

unfoldable pub total_quarter_symbols : ℕ → Modem → ℕ
total_quarter_symbols bytes modem =
    u32 (modem.preamble_symbols * 4 + 17 + payload_symbols bytes modem * 4)

unfoldable pub microseconds : ℕ → Modem → ℕ
microseconds bytes modem =
    ceil_div (u32 (total_quarter_symbols bytes modem * symbol_microseconds modem)) 4

unfoldable pub milliseconds : ℕ → Modem → ℕ
milliseconds bytes modem = ceil_div (microseconds bytes modem) 1000

abbrev pub radio_head_header_bytes : ℕ
radio_head_header_bytes = 4

unfoldable pub application_milliseconds : ℕ → Modem → ℕ
application_milliseconds application_bytes modem =
    milliseconds (u16 (application_bytes + radio_head_header_bytes)) modem
