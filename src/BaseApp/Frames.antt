-- ===== src/BaseApp/Frames.antt =====
-- The serial parser of SmartFiresBaseApp.cpp on whole frames.
use smart_fires_io_t.Base.{
  ℕ, suc, ◌+◌, ◌<◌, ◌≡◌, ◌≢◌, refl, sym, ap, ◌∙◌, ◌==◌, eq→==, true, false, leb, if◌then◌else◌,
  List, [], ◌∷◌, ◌++◌, length, length-append, arith,
}
use smart_fires_io_t.Base.Word.{u32}
use smart_fires_io_t.Wire.Constants.{frame_m0, frame_m1}
use smart_fires_io_t.Wire.Crc.{crc8}
use smart_fires_io_t.BaseApp.Uart.{
  UartRx, Stage, wait_m0, read_data, wait_crc, reset_jetson_uart_rx, accept_byte,
  push_jetson_uart_byte, process_incoming_jetson_uart,
}

-- A payload as the Jetson frames it.
abbrev pub framed : List ℕ → List ℕ
framed payload =
    frame_m0 ∷ frame_m1 ∷ length payload ∷ payload ++ (crc8 (length payload ∷ payload) ∷ [])

append_assoc : (xs ys zs : List ℕ) → (xs ++ ys) ++ zs ≡ xs ++ (ys ++ zs)
append_assoc [] ys zs = refl
append_assoc (x ∷ xs) ys zs = ap (λ l. x ∷ l) (append_assoc xs ys zs)

-- The parser between two frames, and within the data of one.
abbrev pub idle : ℕ → ℕ → UartRx
idle errors bytes = record {
  stage = wait_m0;
  len = 0;
  data_read = [];
  frame_error_count = errors;
  byte_rx_count = bytes;
}

abbrev reading : Stage → ℕ → List ℕ → ℕ → ℕ → UartRx
reading stage len seen errors bytes = record {
  stage = stage;
  len = len;
  data_read = seen;
  frame_error_count = errors;
  byte_rx_count = bytes;
}

abbrev pub and_then : List ℕ → List (List ℕ) × UartRx → List (List ℕ) × UartRx
and_then payload (payloads, u) = (payload ∷ payloads, u)

-- The checksum behind the data.
at_checksum :
    (seen after : List ℕ) (len errors bytes : ℕ)
    → process_incoming_jetson_uart
        (crc8 (len ∷ seen) ∷ after)
        (reading wait_crc len seen errors bytes)
      ≡ and_then seen (process_incoming_jetson_uart after (idle errors (u32 (bytes + 1))))
unfolding process_incoming_jetson_uart push_jetson_uart_byte accept_byte reset_jetson_uart_rx
at_checksum seen after len errors bytes =
    rw (eq→== (crc8 (len ∷ seen)) (crc8 (len ∷ seen)) refl) refl

-- A byte of the data, which is the last one or not.
at_data :
    (b : ℕ) (seen rest : List ℕ) (len errors bytes : ℕ)
    → process_incoming_jetson_uart (b ∷ rest) (reading read_data len seen errors bytes)
      ≡ process_incoming_jetson_uart rest (
          reading
            (if leb len (length (seen ++ (b ∷ []))) then wait_crc else read_data)
            len
            (seen ++ (b ∷ []))
            errors
            (u32 (bytes + 1)))
unfolding process_incoming_jetson_uart push_jetson_uart_byte accept_byte
at_data b seen rest len errors bytes = refl

-- The data and the checksum.
at_payload :
    (b : ℕ) (bs seen after : List ℕ) (len errors bytes : ℕ)
    → len ≡ length seen + suc (length bs)
    → (n : ℕ) × (process_incoming_jetson_uart
          (b ∷ bs ++ (crc8 (len ∷ seen ++ (b ∷ bs)) ∷ after))
          (reading read_data len seen errors bytes)
        ≡ and_then (seen ++ (b ∷ bs)) (process_incoming_jetson_uart after (idle errors n)))
at_payload b [] seen after len errors bytes h =
    let last : leb len (length (seen ++ (b ∷ []))) ≡ true =
      ground (arith, h, length-append seen (b ∷ [])) in
    (
      u32 (u32 (bytes + 1) + 1),
      at_data b seen (crc8 (len ∷ seen ++ (b ∷ [])) ∷ after) len errors bytes
          ∙ rw last (at_checksum (seen ++ (b ∷ [])) after len errors (u32 (bytes + 1))),
    )
at_payload b (c ∷ bs) seen after len errors bytes h =
    let more : leb len (length (seen ++ (b ∷ []))) ≡ false =
      ground (arith, h, length-append seen (b ∷ [])) in
    let same : (seen ++ (b ∷ [])) ++ (c ∷ bs) ≡ seen ++ (b ∷ c ∷ bs) =
      append_assoc seen (b ∷ []) (c ∷ bs) in
    let (n, rest) =
      at_payload c bs (seen ++ (b ∷ [])) after len errors (u32 (bytes + 1))
        (omega (arith, h, length-append seen (b ∷ []))) in
    (
      n,
      at_data b seen (c ∷ bs ++ (crc8 (len ∷ seen ++ (b ∷ c ∷ bs)) ∷ after)) len errors bytes
          ∙ rw (more, sym same) rest,
    )

-- The marks and the length in front of the data.
at_start :
    (len : ℕ) (rest : List ℕ) (errors bytes : ℕ)
    → 0 < len
    → process_incoming_jetson_uart (frame_m0 ∷ frame_m1 ∷ len ∷ rest) (idle errors bytes)
      ≡ process_incoming_jetson_uart rest
          (reading read_data len [] errors (u32 (u32 (u32 (bytes + 1) + 1) + 1)))
unfolding process_incoming_jetson_uart push_jetson_uart_byte accept_byte
at_start len rest errors bytes h =
    let some_bytes : (len == 0) ≡ false = ground (arith, h) in rw some_bytes refl

-- The parser undoes the framing: between two frames, on the bytes of a framed payload that is not empty
-- and whatever follows them, it hands out the payload, unchanged, and then what it hands out for the
-- bytes that follow, from between two frames again. It counts no error on the way.
pub framed_roundtrip :
    (payload after : List ℕ) (errors bytes : ℕ)
    → 0 < length payload
    → (n : ℕ) × (process_incoming_jetson_uart (framed payload ++ after) (idle errors bytes)
        ≡ and_then payload (process_incoming_jetson_uart after (idle errors n)))
framed_roundtrip [] after errors bytes h = absurd (omega (arith, h))
framed_roundtrip (b ∷ bs) after errors bytes h =
    let counted = u32 (u32 (u32 (bytes + 1) + 1) + 1) in
    let len = length (b ∷ bs) in
    let (n, done) = at_payload b bs [] after len errors counted (omega arith) in
    let same : (b ∷ bs ++ (crc8 (len ∷ b ∷ bs) ∷ [])) ++ after
        ≡ b ∷ bs ++ (crc8 (len ∷ b ∷ bs) ∷ after) =
      append_assoc (b ∷ bs) (crc8 (len ∷ b ∷ bs) ∷ []) after in
    let sealed = crc8 (len ∷ b ∷ bs) ∷ [] in
    (
      n,
      at_start len ((b ∷ bs ++ sealed) ++ after) errors bytes (omega arith)
          ∙ ap (λ l. process_incoming_jetson_uart l (reading read_data len [] errors counted)) same
          ∙ done,
    )

-- Bytes without the first frame mark.
abbrev pub NoMark : List ℕ → Type 0
NoMark [] = Unit {0}
NoMark (b ∷ bs) = (b ≢ frame_m0) × NoMark bs

no_payload :
    (bs : List ℕ) (errors bytes : ℕ)
    → NoMark bs
    → (process_incoming_jetson_uart bs (idle errors bytes)).0 ≡ []
unfolding process_incoming_jetson_uart push_jetson_uart_byte accept_byte
no_payload [] errors bytes h = refl
no_payload (b ∷ bs) errors bytes h =
    let other : (b == frame_m0) ≡ false = ground (arith, h.0) in
    let rest = no_payload bs errors (u32 (bytes + 1)) h.1 in rw other rest

-- A stray mark loses a frame: where the byte 0xAA comes directly before a framed payload in which 0xAA does
-- not occur, nor as its length or checksum, the parser hands out nothing.
pub stray_mark_loses_frame :
    (payload : List ℕ) (errors bytes : ℕ)
    → NoMark (length payload ∷ payload ++ (crc8 (length payload ∷ payload) ∷ []))
    → (process_incoming_jetson_uart (frame_m0 ∷ framed payload) (idle errors bytes)).0 ≡ []
unfolding process_incoming_jetson_uart push_jetson_uart_byte accept_byte
stray_mark_loses_frame payload errors bytes h =
    no_payload (frame_m1 ∷ length payload ∷ payload ++ (crc8 (length payload ∷ payload) ∷ []))
      errors (u32 (u32 (bytes + 1) + 1)) (omega arith, h)
