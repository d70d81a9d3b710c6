-- ===== src/TxPower/Node.antt =====
-- TxPowerController (platformio/src/radio/TxPowerController.cpp): the entry of one node and what the
-- controller decides on it. A signed value is an integer.
use smart_fires_io_t.Base.{
  ℕ, ◌+◌, Bool, true, false, not, ◌&&◌, ◌||◌, ltb, leb, ◌==◌, if◌then◌else◌,
}
use smart_fires_io_t.Base.Int.{
  ℤ, pos, ◌+ℤ◌, ◌-ℤ◌, times, quot, ltb_ℤ, leb_ℤ, eqb_ℤ, int8, int16, int32,
}
use smart_fires_io_t.Base.Word.{u8, u16, sub_u16, sub_u32}
use smart_fires_io_t.Config.Profile.{NetworkProfile}

-- The constants of NetworkConfig.h and BaseConfig.h.
abbrev pub min_tx_power_dbm : ℤ
min_tx_power_dbm = pos 5

abbrev pub max_tx_power_dbm : ℤ
max_tx_power_dbm = pos 20

-- `kRadioTxPowerDbm`, from which the maximum is taken.
abbrev pub radio_tx_power_dbm : ℤ
radio_tx_power_dbm = pos 20

abbrev pub max_tx_power_tracked_nodes : ℕ
max_tx_power_tracked_nodes = 16

abbrev pub target_snr_margin_db_x10 : ℤ
target_snr_margin_db_x10 = pos 100

abbrev pub tx_power_step_dbm : ℤ
tx_power_step_dbm = pos 2

abbrev pub snr_dead_band_db_x10 : ℤ
snr_dead_band_db_x10 = pos 30

abbrev pub tx_power_min_decision_interval_ms : ℕ
tx_power_min_decision_interval_ms = 60000

abbrev pub tx_power_silence_timeout_ms : ℕ
tx_power_silence_timeout_ms = 300000

abbrev pub max_tx_power_silence_probes : ℕ
max_tx_power_silence_probes = 3

-- `TX_POWER_MODE_DYNAMIC` and `TX_POWER_MODE_STATIC`: the only values that the code stores.
pub data Mode : Type 0 where
  dynamic static : Mode

abbrev pub is_static_mode : Mode → Bool
is_static_mode static = true
is_static_mode dynamic = false

pub data Action : Type 0 where
  no_action set_power : Action

pub data Reason : Type 0 where
  no_reason margin_low headroom_step_down silence_probe : Reason

pub record Decision : Type 0 where
  pub action : Action
  pub node_id : ℕ
  pub target_dbm : ℤ
  pub reason : Reason
  pub margin_db_x10 : ℤ

abbrev pub no_decision : Decision
no_decision = record {
  action = no_action;
  node_id = 0;
  target_dbm = pos 0;
  reason = no_reason;
  margin_db_x10 = pos 0;
}

abbrev pub is_none : Action → Bool
is_none no_action = true
is_none set_power = false

pub record Node : Type 0 where
  pub in_use : Bool
  pub node_id : ℕ
  pub mode : Mode
  pub current_dbm : ℤ
  pub has_pending : Bool
  pub pending_dbm : ℤ
  pub pending_since_ms : ℕ
  pub snr_sum_db : ℤ
  pub snr_count : ℕ
  pub have_link_stats : Bool
  pub last_retx_total : ℕ
  pub last_fail_total : ℕ
  pub have_decided : Bool
  pub last_decision_ms : ℕ
  pub heard : Bool
  pub last_heard_ms : ℕ
  pub silence_probes : ℕ

unfoldable pub clamp_dbm : ℤ → ℤ
clamp_dbm dbm =
    if ltb_ℤ dbm min_tx_power_dbm
    then min_tx_power_dbm
    else if ltb_ℤ max_tx_power_dbm dbm
    then max_tx_power_dbm
    else int8 dbm

-- What `onPacketReceived` does to the node's entry.
unfoldable pub hear : ℤ → ℕ → Node → Node
hear snr_db now n = record n {
  snr_sum_db = int32 (n.snr_sum_db +ℤ snr_db);
  snr_count = if ltb n.snr_count 0xffff then u16 (n.snr_count + 1) else n.snr_count;
  heard = true;
  last_heard_ms = now;
  silence_probes = 0;
}

-- What `onStatus` records of the report before it considers a decision.
unfoldable pub note_status : ℕ → ℕ → ℤ → Bool → Node → Node
note_status retx_total fail_total tx_power_dbm is_static n =
    let reported = record n {
      current_dbm = tx_power_dbm;
      mode = if is_static then static else dynamic;
    } in
    if not n.have_link_stats
    then (record reported {
      last_retx_total = retx_total;
      last_fail_total = fail_total;
      have_link_stats = true;
    })
    else reported

abbrev pub command : Reason → ℤ → Decision → Decision
command reason target d = record d { action = set_power; target_dbm = target; reason = reason }

-- The part of `decide` behind the closing of the decision window.
unfoldable pub rule : ℤ → ℤ → ℕ → ℕ → Decision → Decision
unfolding clamp_dbm
rule current margin retx_delta fail_delta d =
    if ltb_ℤ margin target_snr_margin_db_x10
    then (if eqb_ℤ max_tx_power_dbm current then d else command margin_low max_tx_power_dbm d)
    else if ltb 0 retx_delta || ltb 0 fail_delta
    then d
    else if leb_ℤ margin (int16 (target_snr_margin_db_x10 +ℤ snr_dead_band_db_x10))
    then d
    else let target = clamp_dbm (current -ℤ tx_power_step_dbm) in
      if eqb_ℤ target current then d else command headroom_step_down target d

-- The margin accumulator's average in tenths of a dB, at a positive count.
unfoldable pub average_snr_db_x10 : Node → ℤ
average_snr_db_x10 n = int16 (quot (int32 (times n.snr_sum_db 10)) n.snr_count)

-- The decision window closes: the samples, the link-stat baseline and the rate-limit clock reset
-- together.
unfoldable pub close_window : ℕ → ℕ → ℕ → Node → Node
close_window retx_total fail_total now n = record n {
  have_decided = true;
  last_decision_ms = now;
  snr_sum_db = pos 0;
  snr_count = 0;
  last_retx_total = retx_total;
  last_fail_total = fail_total;
}

-- `onCmdAck` on the entry.
unfoldable pub confirm : ℕ → Node → Node
confirm now n = if not n.has_pending then n else (record n {
  current_dbm = n.pending_dbm;
  has_pending = false;
  heard = true;
  last_heard_ms = now;
})

module _ (profile : NetworkProfile) where
  -- `Node{}`: the mode depends on the profile (`kDynamicTxPowerDefaultEnabled`).
  unfoldable pub fresh_node : Node
  fresh_node = record {
    in_use = false;
    node_id = 0;
    mode = if profile.id == 7 then dynamic else static;
    current_dbm = radio_tx_power_dbm;
    has_pending = false;
    pending_dbm = pos 0;
    pending_since_ms = 0;
    snr_sum_db = pos 0;
    snr_count = 0;
    have_link_stats = false;
    last_retx_total = 0;
    last_fail_total = 0;
    have_decided = false;
    last_decision_ms = 0;
    heard = false;
    last_heard_ms = 0;
    silence_probes = 0;
  }

  -- What `decide` returns, and the entry that it leaves.
  unfoldable pub decide : ℕ → ℕ → ℕ → Node → Decision × Node
  unfolding rule average_snr_db_x10 close_window
  decide retx_total fail_total now n =
      let decision = record no_decision { node_id = n.node_id } in
      if is_static_mode n.mode
      then (decision, n)
      else if n.has_pending
      then (decision, n)
      else if n.have_decided
          && ltb (sub_u32 now n.last_decision_ms) tx_power_min_decision_interval_ms
      then (decision, n)
      else if n.snr_count == 0
      then (decision, n)
      else let margin = int16 (average_snr_db_x10 n -ℤ profile.snr_demod_floor_db_x10) in
        (
          rule n.current_dbm margin (sub_u16 retx_total n.last_retx_total)
              (sub_u16 fail_total n.last_fail_total) (record decision { margin_db_x10 = margin }),
          close_window retx_total fail_total now n,
        )

  -- What `onAwaken` makes of the entry.
  unfoldable pub reborn : ℕ → Node → Node
  reborn now n = record fresh_node {
    in_use = true;
    node_id = n.node_id;
    heard = true;
    last_heard_ms = now;
  }

  -- The expiry of an unacked command in `update`.
  unfoldable pub expire : ℕ → Node → Node
  expire now n =
      if n.has_pending && leb profile.command_ack_timeout_ms (sub_u32 now n.pending_since_ms)
      then (record n { has_pending = false })
      else n

  -- One round of the loop of `update`, with the decision so far.
  unfoldable pub visit : ℕ → Decision → Node → Decision × Node
  unfolding expire
  visit now d n =
      if not n.in_use
      then (d, n)
      else let n' = expire now n in
        if not (is_none d.action)
        then (d, n')
        else if is_static_mode n'.mode || n'.has_pending || not n'.heard
        then (d, n')
        else if ltb (sub_u32 now n'.last_heard_ms) tx_power_silence_timeout_ms
        then (d, n')
        else if leb max_tx_power_silence_probes n'.silence_probes
        then (d, n')
        else if eqb_ℤ n'.current_dbm max_tx_power_dbm
        then (d, n')
        else (
          command silence_probe max_tx_power_dbm (record d { node_id = n'.node_id }),
          record n' { silence_probes = u8 (n'.silence_probes + 1) },
        )
