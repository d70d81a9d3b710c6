-- ===== src/TxPower/Decide.antt =====
-- The decision rule: when a power change is commanded and to what level.
use smart_fires_io_t.Base.{ℕ, ◌≤◌, ◌≡◌, ◌≢◌, ◌⊎◌, false, arith}
use smart_fires_io_t.Base.Int.{ℤ, pos, ◌-ℤ◌, ◌≤ℤ◌, ◌<ℤ◌, int16}
use smart_fires_io_t.Base.Word.{sub_u16, sub_u32}
use smart_fires_io_t.Config.Profile.{NetworkProfile}
use smart_fires_io_t.TxPower.Node.{
  Node, Decision, dynamic, no_action, set_power, no_reason, margin_low, headroom_step_down,
  no_decision, min_tx_power_dbm, max_tx_power_dbm, clamp_dbm, rule, decide, close_window,
  average_snr_db_x10,
}

-- A commanded level lies between 5 and 20 dBm and is not the level that the node has.
abbrev pub IsSafe : ℤ → Decision → Type 0
IsSafe current d =
    (min_tx_power_dbm ≤ℤ d.target_dbm)
    × (d.target_dbm ≤ℤ max_tx_power_dbm)
    × (d.target_dbm ≢ current)

clamp_bounds : (z : ℤ) → (min_tx_power_dbm ≤ℤ clamp_dbm z) × (clamp_dbm z ≤ℤ max_tx_power_dbm)
unfolding clamp_dbm
clamp_bounds z = ground arith

-- The three outcomes of the rule, for a decision that commands nothing yet. It commands 20 dBm since the
-- margin is below 10 dB and the node is not there; or one step down since the margin is above 13 dB
-- and nothing was retransmitted or failed in the interval; or it changes nothing, and then the node is
-- at 20 dBm or the margin is at least 10 dB. What is commanded is safe.
pub rule_outcome :
    (current margin : ℤ) (retx fail : ℕ) (d : Decision)
    → d.action ≡ no_action
    → let d' = rule current margin retx fail d in
      ((d'.action ≡ set_power)
        × (d'.reason ≡ margin_low)
        × (margin <ℤ pos 100)
        × (d'.target_dbm ≡ pos 20)
        × IsSafe current d')
      ⊎ ((d'.action ≡ set_power)
          × (d'.reason ≡ headroom_step_down)
          × (pos 130 <ℤ margin)
          × (retx ≡ 0)
          × (fail ≡ 0)
          × (d'.target_dbm ≡ clamp_dbm (current -ℤ pos 2))
          × IsSafe current d')
      ⊎ ((d' ≡ d) × ((current ≡ pos 20) ⊎ (pos 100 ≤ℤ margin)))
unfolding rule
rule_outcome current margin retx fail d none = ground (arith, clamp_bounds (current -ℤ pos 2))

-- A step down never leads back up, for decisions that have no reason yet: where the rule steps down at some margin, then at the level
-- commanded and with the 2 dB less of margin that the step costs it does not jump to 20 dBm.
pub no_oscillation :
    (current margin : ℤ) (retx fail retx' fail' : ℕ) (d d' : Decision)
    → d.reason ≡ no_reason
    → d'.reason ≡ no_reason
    → (rule current margin retx fail d).reason ≡ headroom_step_down
    → (rule (rule current margin retx fail d).target_dbm (margin -ℤ pos 20) retx' fail' d').reason
      ≢ margin_low
no_oscillation current margin retx fail retx' fail' d d' a b e = λ low.
    later_margin margin (above current margin retx fail d a e)
      (below _ (margin -ℤ pos 20) retx' fail' d' b low)
  where
    above :
        (c m : ℤ) (r f : ℕ) (x : Decision)
        → x.reason ≡ no_reason
        → (rule c m r f x).reason ≡ headroom_step_down
        → pos 130 <ℤ m
    above c m r f x p q = unfold rule in ground arith

    below :
        (c m : ℤ) (r f : ℕ) (x : Decision)
        → x.reason ≡ no_reason
        → (rule c m r f x).reason ≡ margin_low
        → m <ℤ pos 100
    below c m r f x p q = unfold rule in ground arith

    later_margin : (m : ℤ) → pos 130 <ℤ m → m -ℤ pos 20 <ℤ pos 100 → ⊥
    later_margin m p q = ground arith

rule-node_id :
    (current margin : ℤ) (retx fail : ℕ) (d : Decision)
    → (rule current margin retx fail d).node_id ≡ d.node_id
unfolding rule
rule-node_id current margin retx fail d = ground arith

module _ (profile : NetworkProfile) where
  -- What `decide` brings about on an entry: either nothing is commanded, and the entry is left as it was or
  -- its decision window is closed; or a change is commanded, the window is closed, and the node is one whose
  -- power the loop owns, with no command in flight, whose last decision, if any, is at least 60 s back,
  -- with a frame heard since, and the level is safe. The decision names the node of the entry.
  pub decide_sound :
      (retx fail now : ℕ) (n : Node)
      → let (d, n') = decide profile retx fail now n in
        (d.node_id ≡ n.node_id)
        × (((d.action ≡ no_action) × ((n' ≡ n) ⊎ (n' ≡ close_window retx fail now n)))
            ⊎ ((d.action ≡ set_power)
                × (n' ≡ close_window retx fail now n)
                × (n.mode ≡ dynamic)
                × (n.has_pending ≡ false)
                × ((n.have_decided ≡ false) ⊎ (60000 ≤ sub_u32 now n.last_decision_ms))
                × (n.snr_count ≢ 0)
                × IsSafe n.current_dbm d))
  unfolding decide
  decide_sound retx fail now n =
      let margin = int16 (average_snr_db_x10 n -ℤ profile.snr_demod_floor_db_x10) in
      ground (
        arith,
        rule_outcome n.current_dbm margin (sub_u16 retx n.last_retx_total)
            (sub_u16 fail n.last_fail_total)
            (record no_decision { node_id = n.node_id; margin_db_x10 = margin }),
        rule-node_id n.current_dbm margin (sub_u16 retx n.last_retx_total)
            (sub_u16 fail n.last_fail_total)
            (record no_decision { node_id = n.node_id; margin_db_x10 = margin }),
      )
