-- ===== src/BaseApp/Uart.antt =====
-- The parser of frames on the serial line to the Jetson, in SmartFiresBaseApp.cpp.
use smart_fires_io_t.Base.{
  ℕ, ◌+◌, ◌==◌, not, leb, if◌then◌else◌, List, [], ◌∷◌, ◌++◌, Option, none, some, length,
}
use smart_fires_io_t.Base.Word.{u32}
use smart_fires_io_t.Wire.Constants.{frame_m0, frame_m1}
use smart_fires_io_t.Wire.Crc.{crc8}

pub data Stage : Type 0 where
  wait_m0 wait_m1 wait_len read_data wait_crc : Stage

-- `UartRxState` and the counters; `data` holds the `dataPos` bytes read so far.
pub record UartRx : Type 0 where
  pub stage : Stage
  pub len : ℕ
  pub data_read : List ℕ
  pub frame_error_count : ℕ
  pub byte_rx_count : ℕ

abbrev pub new_uart_rx : UartRx
new_uart_rx = record {
  stage = wait_m0;
  len = 0;
  data_read = [];
  frame_error_count = 0;
  byte_rx_count = 0;
}

unfoldable pub reset_jetson_uart_rx : UartRx → UartRx
reset_jetson_uart_rx u = record u { stage = wait_m0; len = 0; data_read = [] }

abbrev pub count_error : UartRx → UartRx
count_error u = record u { frame_error_count = u32 (u.frame_error_count + 1) }

-- The switch on the stage: the payload of a frame that the byte ends, and the state afterwards.
unfoldable pub accept_byte : Stage → ℕ → UartRx → Option (List ℕ) × UartRx
unfolding reset_jetson_uart_rx
accept_byte wait_m0 b u = if b == frame_m0 then (none, record u { stage = wait_m1 }) else (none, u)
accept_byte wait_m1 b u = (none, record u { stage = if b == frame_m1 then wait_len else wait_m0 })
accept_byte wait_len b u =
    if b == 0
    then (none, reset_jetson_uart_rx (count_error u))
    else (none, record u { len = b; data_read = []; stage = read_data })
accept_byte read_data b u =
    let data_read = u.data_read ++ (b ∷ []) in
    (
      none,
      record u {
        data_read = data_read;
        stage = if leb u.len (length data_read) then wait_crc else read_data;
      },
    )
accept_byte wait_crc b u =
    if not (b == crc8 (u.len ∷ u.data_read))
    then (none, reset_jetson_uart_rx (count_error u))
    else (some u.data_read, reset_jetson_uart_rx u)

unfoldable pub push_jetson_uart_byte : ℕ → UartRx → Option (List ℕ) × UartRx
unfolding accept_byte
push_jetson_uart_byte b u =
    accept_byte u.stage b (record u { byte_rx_count = u32 (u.byte_rx_count + 1) })

abbrev pub with_payload : Option (List ℕ) → List (List ℕ) → List (List ℕ)
with_payload none rest = rest
with_payload (some payload) rest = payload ∷ rest

-- The loop of `processIncomingJetsonUart` over the bytes that are available: the payloads that it hands
-- to `handleJetsonCommandPayload`, in order.
unfoldable pub process_incoming_jetson_uart : List ℕ → UartRx → List (List ℕ) × UartRx
unfolding push_jetson_uart_byte
process_incoming_jetson_uart [] u = ([], u)
process_incoming_jetson_uart (b ∷ bs) u =
    let (payload, u') = push_jetson_uart_byte b u in
    let (later, u'') = process_incoming_jetson_uart bs u' in (with_payload payload later, u'')
