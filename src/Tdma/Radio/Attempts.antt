-- ===== src/Tdma/Radio/Attempts.antt =====
-- The loop of link-acknowledged attempts in `drainTxQueue` of TdmaRadioService.cpp, whose counter is a byte.
use smart_fires_io_t.Base.{
  ℕ, zero, suc, ◌+◌, ◌≤◌, ◌<◌, ◌≡◌, ap, true, false, List, arith, replicate,
}
use smart_fires_io_t.Base.Word.{u8}
use smart_fires_io_t.Tdma.Radio.Types.{RadioConfig, send_to_wait}
use smart_fires_io_t.Tdma.Radio.Drain.{max_attempts, attempt_from, repeated, transmit}
use smart_fires_io_t.Tdma.Radio.Drain.Select.{telemetry_uses_link_ack}

unanswered :
    (n attempt : ℕ) → attempt < 256 → attempt_from (replicate n false) 255 attempt ≡ (suc n, true)
unfolding attempt_from
unanswered zero attempt byte = ground (arith, byte)
unanswered (suc n) attempt byte =
    ground (arith, byte, unanswered n (u8 (attempt + 1)) (omega arith))

-- With 254 retries or more and link acknowledgements the loop of attempts has no bound: where `n` sends go
-- unacknowledged, however many, and the next one is acknowledged, `n + 1` sends are made.
pub link_attempts_unbounded :
    (cfg : RadioConfig) (n : ℕ) (bytes : List ℕ)
    → telemetry_uses_link_ack cfg ≡ true
    → 254 ≤ cfg.max_retries
    → transmit cfg (replicate n false) bytes
      ≡ (true, repeated (n + 1) (send_to_wait cfg.base_addr bytes))
unfolding transmit
link_attempts_unbounded cfg n bytes acked many =
    let limit : max_attempts cfg ≡ 255 = ground (arith, many) in
    let next : suc n ≡ n + 1 = omega arith in
    rw (acked, limit, unanswered n 1 (omega arith))
      (ap (λ k. (true, repeated k (send_to_wait cfg.base_addr bytes))) next)
