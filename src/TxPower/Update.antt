-- ===== src/TxPower/Update.antt =====
-- `update`: expiry of unacked commands and the probe of a silent node, over the whole table.
use smart_fires_io_t.Base.{
  ℕ, ◌≤◌, ◌<◌, ◌≡◌, ◌≢◌, ◌⊎◌, inl, inr, true, false, [], ◌∷◌, arith, refl, ap, ◌∙◌,
}
use smart_fires_io_t.Base.Int.{pos}
use smart_fires_io_t.Base.Word.{sub_u32}
use smart_fires_io_t.Config.Profile.{NetworkProfile}
use smart_fires_io_t.TxPower.Node.{
  Node, Decision, dynamic, no_action, set_power, silence_probe, no_decision, max_tx_power_dbm,
  visit,
}
use smart_fires_io_t.TxPower.Controller.{Table, update_from, update}

abbrev pub All : (Node → Type 0) → Table → Type 0
All P [] = Unit {0}
All P (n ∷ ns) = P n × All P ns

abbrev pub Some : (Node → Type 0) → Table → Type 0
Some P [] = ⊥
Some P (n ∷ ns) = P n ⊎ Some P ns

-- A node that may be probed at time `now`: dynamic, heard before, silent for at least five minutes,
-- probed fewer than three times since, and not at 20 dBm.
pub record MayProbe (now : ℕ) (d : Decision) (n : Node) : Type 0 where
  pub used : n.in_use ≡ true
  pub named : n.node_id ≡ d.node_id
  pub owned : n.mode ≡ dynamic
  pub met : n.heard ≡ true
  pub silent : 300000 ≤ sub_u32 now n.last_heard_ms
  pub budget : n.silence_probes < 3
  pub reduced : n.current_dbm ≢ pos 20

abbrev pub IsProbe : Decision → Type 0
IsProbe d = (d.reason ≡ silence_probe) × (d.target_dbm ≡ max_tx_power_dbm)

module _ (profile : NetworkProfile) where
  -- An entry that is free, or of a node with no command in flight, or with one that is younger than the ack timeout.
  abbrev pub InTime : ℕ → Node → Type 0
  InTime now n =
      (n.in_use ≡ false)
      ⊎ (n.has_pending ≡ false)
      ⊎ (sub_u32 now n.pending_since_ms < profile.command_ack_timeout_ms)

  visit-InTime : (now : ℕ) (d : Decision) (n : Node) → InTime now (visit profile now d n).1
  unfolding visit
  visit-InTime now d n = ground arith

  update_from-InTime :
      (now : ℕ) (d : Decision) (t : Table) → All (InTime now) (update_from profile now d t).1
  unfolding update_from
  update_from-InTime now d [] = tt
  update_from-InTime now d (n ∷ t) =
      (visit-InTime now d n, update_from-InTime now (visit profile now d n).0 t)

  -- After a tick no tracked node has a command in flight that is as old as the ack timeout, whether or
  -- not the tick probes a node.
  pub update_expires : (now : ℕ) (t : Table) → All (InTime now) (update profile now t).1
  unfolding update
  update_expires now t = update_from-InTime now no_decision t

  -- Once there is a decision it stays.
  visit_done :
      (now : ℕ) (d : Decision) (n : Node) → d.action ≡ set_power → (visit profile now d n).0 ≡ d
  unfolding visit
  visit_done now d n h = ground arith

  update_from_done :
      (now : ℕ) (d : Decision) (t : Table)
      → d.action ≡ set_power
      → (update_from profile now d t).0 ≡ d
  unfolding update_from
  update_from_done now d [] h = refl
  update_from_done now d (n ∷ t) h = rw (visit_done now d n h) (update_from_done now d t h)

  visit_sound :
      (now : ℕ) (d : Decision) (n : Node)
      → d.action ≡ no_action
      → let d' = (visit profile now d n).0 in
        ((d'.action ≡ set_power) × MayProbe now d' n × IsProbe d') ⊎ (d' ≡ d)
  unfolding visit
  visit_sound now d n h = ground arith

  update_from_sound :
      (now : ℕ) (d : Decision) (t : Table)
      → d.action ≡ no_action
      → let d' = (update_from profile now d t).0 in
        d'.action ≡ set_power → Some (MayProbe now d') t × IsProbe d'
  unfolding update_from
  update_from_sound now d [] h e = cc
  update_from_sound now d (n ∷ t) h e = elim (visit_sound now d n h) [
    | inl (act, may, probe) ↦
        rw (update_from_done now (visit profile now d n).0 t act) (inl may, probe)
    | inr same ↦
        let ih =
          update_from_sound now (visit profile now d n).0 t (ap (λ x. x.action) same ∙ h) e in
        (inr ih.0, ih.1)
  ]

  -- A tick commands a change only as a silence probe to 20 dBm of a tracked node that may be probed.
  pub update_sound :
      (now : ℕ) (t : Table)
      → let d = (update profile now t).0 in
        d.action ≡ set_power → Some (MayProbe now d) t × IsProbe d
  unfolding update
  update_sound now t h = update_from_sound now no_decision t refl h
