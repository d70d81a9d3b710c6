-- ===== src/BaseApp/State.antt =====
-- The state of SmartFiresBaseApp (platformio/include/app/SmartFiresBaseApp.h), its configuration, and what
-- it does to the outside. The members that only the log reads are left out.
use smart_fires_io_t.Base.{ℕ, ◌+◌, ◌*◌, ◌-◌, ◌==◌, Bool, false, List, [], replicate}
use smart_fires_io_t.Base.Word.{u8, u32}
use smart_fires_io_t.Config.Profile.{NetworkProfile, frame_period_ms}
use smart_fires_io_t.Tdma.Clock.{Clock, Config, new_clock}
use smart_fires_io_t.TxPower.Controller.{Table, new_table}
use smart_fires_io_t.BaseApp.Tracker.{Acks, new_acks}
use smart_fires_io_t.BaseApp.Flush.{Timing, Sent}
use smart_fires_io_t.BaseApp.Assign.{Syncs, TimeSource, PendingCommand, no_assignment}
use smart_fires_io_t.BaseApp.Uart.{UartRx, new_uart_rx}

-- The counters of what was received.
pub record RxCounts : Type 0 where
  pub raw : ℕ
  pub awaken : ℕ
  pub bundle : ℕ
  pub status : ℕ
  pub full_state : ℕ
  pub cmd_ack : ℕ
  pub failures : ℕ
  pub forwarded : ℕ

pub record BaseApp : Type 0 where
  pub base_addr : ℕ
  pub time_sync_broadcast_addr : ℕ
  pub tdma_clock : Clock
  pub tx_power : Table
  pub uart : UartRx
  pub initialized : Bool
  pub rx : RxCounts
  pub cmd_forward_count : ℕ
  pub last_rx_ms : ℕ
  pub last_periodic_time_sync_ms : ℕ
  pub manual_time_sync_pending : Bool
  pub last_announce_ms : ℕ
  pub network_profile_seq : ℕ
  pub acks : Acks
  pub syncs : Syncs
  pub source : TimeSource
  pub commands : List PendingCommand

-- A frame on the air, bytes on the serial line to the Jetson, and the two ways to start again.
pub data Effect : Type 0 where
  on_air : Sent → Effect
  to_jetson : List ℕ → Effect
  begin_radio system_reset : Effect

-- The settings that BaseConfig.h takes from the profile.
unfoldable pub timing : NetworkProfile → Timing
timing p = record {
  ack_summary_min_interval_ms = 25;
  node_silence_ms = u32 (2 * frame_period_ms p);
  slot_width_ms = p.slot_width_ms;
  guard_ms = p.guard_ms;
}

-- `NetworkConfig::kDynamicTxPowerDefaultEnabled`.
abbrev pub dynamic_tx_power_default_enabled : NetworkProfile → Bool
dynamic_tx_power_default_enabled p = p.id == 7

-- The fields of `makeBaseTdmaConfig` that the clock reads before a sync is stale.
unfoldable pub make_base_tdma_config : NetworkProfile → Config
make_base_tdma_config p = record {
  node_id = 1;
  num_slots = p.total_slots;
  slot_width_ms = p.slot_width_ms;
  guard_ms = p.guard_ms;
  sync_stale_ms = 1320000;
  rx_wake_ahead_ms = 50;
}

-- `BaseConfig::kMaxAssignedNodes`, and with one more `kMaxPendingCommands`.
abbrev pub max_assigned_nodes : NetworkProfile → ℕ
max_assigned_nodes p = p.total_slots - 1

abbrev pub no_pending_command : PendingCommand
no_pending_command = record {
  in_use = false;
  target_node_id = 0;
  payload = [];
  failed_send_attempts = 0;
}

-- The base before `begin`.
unfoldable pub new_base : NetworkProfile → BaseApp
unfolding make_base_tdma_config
new_base p = record {
  base_addr = 1;
  time_sync_broadcast_addr = 255;
  tdma_clock = new_clock (make_base_tdma_config p);
  tx_power = new_table p;
  uart = new_uart_rx;
  initialized = false;
  rx = record {
    raw = 0;
    awaken = 0;
    bundle = 0;
    status = 0;
    full_state = 0;
    cmd_ack = 0;
    failures = 0;
    forwarded = 0;
  };
  cmd_forward_count = 0;
  last_rx_ms = 0;
  last_periodic_time_sync_ms = 0;
  manual_time_sync_pending = false;
  last_announce_ms = 0;
  network_profile_seq = 0;
  acks = new_acks;
  syncs = record {
    assignments = replicate (max_assigned_nodes p) no_assignment;
    time_sync_seq = 0;
    time_sync_tx_count = 0;
  };
  source = record {
    session_id = 0;
    has_jetson_time = false;
    jetson_session_id = 0;
    jetson_session_ms_at_update = 0;
    local_ms_at_jetson_update = 0;
  };
  commands = replicate (u8 (max_assigned_nodes p + 1)) no_pending_command;
}
