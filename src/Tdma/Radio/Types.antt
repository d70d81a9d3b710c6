-- ===== src/Tdma/Radio/Types.antt =====
-- The types of TdmaRadioService (platformio/include/radio/TdmaRadioService.h), the part of TdmaConfig that
-- it reads, and the packet of ITdmaRadioDriver. A payload with its length is the list of its bytes.
use smart_fires_io_t.Base.{ℕ, Bool, List}
use smart_fires_io_t.Base.Int.{ℤ}
use smart_fires_io_t.Tdma.Clock.{Clock}
use smart_fires_io_t.Tdma.TxQueue.{TxQueue}

pub data ReliabilityMode : Type 0 where
  strict_link_ack app_layer_ack_summary : ReliabilityMode

-- `NetworkConfig::kReliabilityWindowHardCap`.
abbrev pub max_reliability_window : ℕ
max_reliability_window = 8

pub record RadioConfig : Type 0 where
  pub node_id : ℕ
  pub base_addr : ℕ
  pub num_slots : ℕ
  pub slot_width_ms : ℕ
  pub guard_ms : ℕ
  pub enable_link_ack : Bool
  pub max_retries : ℕ
  pub enable_app_reliability : Bool
  pub reliability_window_depth : ℕ
  pub reliability_max_attempts : ℕ
  pub reliability_max_age_ms : ℕ
  pub reliability_min_retry_gap_ms : ℕ
  pub reliability_fresh_traffic_holdoff_ms : ℕ
  pub reliability_mode : ReliabilityMode
  pub expected_ack_interval_ms : ℕ
  pub retry_wait_multiplier_permille : ℕ
  pub retry_wait_min_ms : ℕ
  pub retry_wait_max_ms : ℕ
  pub require_ack_summary_before_first_retry : Bool

pub record PendingEntry : Type 0 where
  pub in_use : Bool
  pub seq : ℕ
  pub payload : List ℕ
  pub first_sent_ms : ℕ
  pub last_sent_ms : ℕ
  pub attempts : ℕ
  pub sent_successfully : Bool
  pub ack_gate_opened : Bool

-- `_pending`, `_pendingCount` and `_pendingDropCount`.
pub record Window : Type 0 where
  pub entries : List PendingEntry
  pub count : ℕ
  pub drops : ℕ

pub record ReceivedPacket : Type 0 where
  pub from_addr : ℕ
  pub to_addr : ℕ
  pub bytes : List ℕ
  pub rssi : ℤ

pub record ReceivedCommand : Type 0 where
  pub bytes : List ℕ
  pub rssi : ℤ
  pub from_addr : ℕ

pub data RadioState : Type 0 where
  off ready failed : RadioState

pub data RadioError : Type 0 where
  no_error begin_failed enqueue_failed send_failed : RadioError

pub record Service : Type 0 where
  pub cfg : RadioConfig
  pub tdma_clock : Clock
  pub queue : TxQueue
  pub window : Window
  pub radio_state : RadioState
  pub radio_error : RadioError
  pub sent_count : ℕ
  pub enqueued_count : ℕ
  pub failed_send_count : ℕ
  pub retransmit_count : ℕ
  pub ack_summary_count : ℕ
  pub time_sync_count : ℕ
  pub last_ack_summary_session_ms : ℕ
  pub has_received_ack_summary : Bool
  pub last_tx_slot_index : ℕ
  pub last_retx_attempt_slot_index : ℕ
  pub last_fresh_telemetry_sent_ms : ℕ
  pub last_retx_health_log_ms : ℕ
  pub has_fresh_telemetry_sent : Bool
  pub has_pending_command : Bool
  pub pending_command : ReceivedCommand
  pub radio_asleep : Bool
  pub duty_sleep_requested : Bool

-- The calls that the service makes on its driver, in order.
pub data DriverCall : Type 0 where
  begin_radio sleep_radio : DriverCall
  send_to send_to_wait : ℕ → List ℕ → DriverCall
  set_local_address : ℕ → DriverCall
  set_power : ℤ → DriverCall
