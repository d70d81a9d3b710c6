-- ===== src/TxPower/Step.antt =====
-- One call on the controller of TxPowerController.cpp, whichever it is, and what it does to the table.
use smart_fires_io_t.Base.{
  ℕ, suc, ◌≡◌, ◌≢◌, Bool, true, [], ◌∷◌, Option, none, some, length, Option-cases, inl, inr, arith,
  refl, ap, subst, ◌∙◌,
}
use smart_fires_io_t.Base.Int.{ℤ}
use smart_fires_io_t.Config.Profile.{NetworkProfile}
use smart_fires_io_t.TxPower.Node.{
  Node, Decision, no_decision, hear, note_status, confirm, decide, reborn, visit,
}
use smart_fires_io_t.TxPower.Controller.{
  Table, is_node, find, find_or_create, status_on, on_packet_received, on_status, on_cmd_ack,
  on_awaken, set_mode, update_from, update, on_command_sent, on_command_failed,
}
use smart_fires_io_t.TxPower.Table.{IsUnique, Keeps, find-is_node}
use smart_fires_io_t.TxPower.Upsert.{
  IsTable, Touches, Touches-refl, modify-Touches, upsert-Touches, written, written-Touches,
  find_or_create-Entry,
}

-- The calls of the class.
pub data Call : Type 0 where
  packet_received : ℕ → ℤ → ℕ → Call
  status : ℕ → ℕ → ℕ → ℤ → Bool → ℕ → Call
  cmd_ack : ℕ → ℕ → Call
  awaken : ℕ → ℕ → Call
  mode_set : ℕ → Bool → Call
  command_sent : ℕ → ℤ → ℕ → Call
  command_failed : ℕ → Call
  tick : ℕ → Call

-- The node that a call is about; `update` goes through all.
abbrev pub subject : Call → Option ℕ
subject (packet_received id snr_db now) = some id
subject (status id retx fail dbm pinned now) = some id
subject (cmd_ack id now) = some id
subject (awaken id now) = some id
subject (mode_set id pinned) = some id
subject (command_sent id target now) = some id
subject (command_failed id) = some id
subject (tick now) = none

module _ (profile : NetworkProfile) where
  unfoldable pub step : Call → Table → Decision × Table
  step (packet_received id snr_db now) t = (no_decision, on_packet_received profile id snr_db now t)
  step (status id retx fail dbm pinned now) t = on_status profile id retx fail dbm pinned now t
  step (cmd_ack id now) t = (no_decision, on_cmd_ack id now t)
  step (awaken id now) t = (no_decision, on_awaken profile id now t)
  step (mode_set id pinned) t = (no_decision, set_mode profile id pinned t)
  step (command_sent id target now) t = (no_decision, on_command_sent id target now t)
  step (command_failed id) t = (no_decision, on_command_failed id t)
  step (tick now) t = update profile now t

  pub decide_keeps :
      (id retx fail now : ℕ) (n : Node)
      → is_node id n ≡ true
      → is_node id (decide profile retx fail now n).1 ≡ true
  unfolding decide
  decide_keeps id retx fail now n h = ground arith

  pub note-Keeps :
      (id retx fail : ℕ) (dbm : ℤ) (pinned : Bool) → Keeps id (note_status retx fail dbm pinned)
  unfolding note_status
  note-Keeps id retx fail dbm pinned n h = ground arith

  status_on-Touches :
      (id retx fail : ℕ) (dbm : ℤ) (pinned : Bool) (now : ℕ) (t : Table)
      → Touches id t (status_on profile id retx fail dbm pinned now t).1
  unfolding status_on
  status_on-Touches id retx fail dbm pinned now t = elim (Option-cases (find id t)) [
    | inl absent ↦ rw (absent, status_on) (Touches-refl id t)
    | inr (n, present) ↦
        rw (present, status_on)
          (modify-Touches id
            (λ _. (decide profile retx fail now (note_status retx fail dbm pinned n)).1) t
            (λ _ _.
              decide_keeps id retx fail now (note_status retx fail dbm pinned n)
                (note-Keeps id retx fail dbm pinned n (find-is_node id t present))))
  ]

  on_status-Touches :
      (id retx fail : ℕ) (dbm : ℤ) (pinned : Bool) (now : ℕ) (t : Table)
      → Touches id t (on_status profile id retx fail dbm pinned now t).1
  on_status-Touches id retx fail dbm pinned now t =
      rw (on_status-written id retx fail dbm pinned now t) (
        written-Touches profile id (λ u. (status_on profile id retx fail dbm pinned now u).1) t
          (status_on-Touches id retx fail dbm pinned now) (find_or_create-Entry profile id t))
    where
      on_status-written :
          (i r f : ℕ) (p : ℤ) (b : Bool) (m : ℕ) (u : Table)
          → (on_status profile i r f p b m u).1
            ≡ written profile
                (λ w. (status_on profile i r f p b m w).1)
                u
                (find_or_create profile i u)
      on_status-written i r f p b m u = unfold on_status in ground arith

  -- What `update` leaves of an entry: its node and whether it is in use.
  visit_keeps :
      (now : ℕ) (d : Decision) (n : Node)
      → ((visit profile now d n).1.in_use ≡ n.in_use)
        × ((visit profile now d n).1.node_id ≡ n.node_id)
  unfolding visit
  visit_keeps now d n = ground arith

  find-update_none :
      (now j : ℕ) (d : Decision) (t : Table)
      → find j t ≡ none
      → find j (update_from profile now d t).1 ≡ none
  unfolding find update_from
  find-update_none now j d [] e = refl
  find-update_none now j d (n ∷ t) e =
      ground (arith, visit_keeps now d n, find-update_none now j (visit profile now d n).0 t)

  update_from-IsUnique :
      (now : ℕ) (d : Decision) (t : Table) → IsUnique t → IsUnique (update_from profile now d t).1
  unfolding update_from
  update_from-IsUnique now d [] u = tt
  update_from-IsUnique now d (n ∷ t) (apart, u) =
      let d' = (visit profile now d n).0 in
      (
        (λ busy. ground (arith, visit_keeps now d n, find-update_none now n.node_id d' t, apart)),
        update_from-IsUnique now d' t u,
      )

  length-update_from :
      (now : ℕ) (d : Decision) (t : Table) → length (update_from profile now d t).1 ≡ length t
  unfolding update_from
  length-update_from now d [] = refl
  length-update_from now d (n ∷ t) = ap suc (length-update_from now (visit profile now d n).0 t)

  -- Every call but the tick touches only the entry of its node.
  abbrev Framed : Option ℕ → Table → Table → Type 0
  Framed none t t' = Unit {0}
  Framed (some id) t t' = Touches id t t'

  step-Framed : (call : Call) (t : Table) → Framed (subject call) t (step call t).1
  unfolding step on_packet_received on_cmd_ack on_awaken set_mode on_command_sent on_command_failed
      hear confirm reborn
  step-Framed (packet_received id snr_db now) t =
      upsert-Touches profile id (hear snr_db now) t (λ n h. h)
  step-Framed (status id retx fail dbm pinned now) t =
      on_status-Touches id retx fail dbm pinned now t
  step-Framed (cmd_ack id now) t = modify-Touches id (confirm now) t (λ n h. ground arith)
  step-Framed (awaken id now) t =
      upsert-Touches profile id (reborn profile now) t (λ n h. ground arith)
  step-Framed (mode_set id pinned) t = upsert-Touches profile id _ t (λ n h. h)
  step-Framed (command_sent id target now) t = modify-Touches id _ t (λ n h. h)
  step-Framed (command_failed id) t = modify-Touches id _ t (λ n h. h)
  step-Framed (tick now) t = tt

  -- A call about one node leaves the entry of every other node as it was.
  pub step_frame :
      (call : Call) (id j : ℕ) (t : Table)
      → subject call ≡ some id
      → j ≢ id
      → find j (step call t).1 ≡ find j t
  step_frame call id j t h ne =
      let touched : Framed (some id) t (step call t).1 =
        subst (λ o. Framed o t (step call t).1) h (step-Framed call t) in
      touched.others j ne

  update-IsTable : (now : ℕ) (t : Table) → IsTable t → IsTable (update profile now t).1
  unfolding update
  update-IsTable now t v = record {
    size = length-update_from now no_decision t ∙ v.size;
    unique = update_from-IsUnique now no_decision t v.unique;
  }

  -- Every call keeps the table's size and keeps the node ids in use distinct.
  pub step-IsTable : (call : Call) (t : Table) → IsTable t → IsTable (step call t).1
  step-IsTable (packet_received id snr_db now) t v =
      (step-Framed (packet_received id snr_db now) t).keeps v
  step-IsTable (status id retx fail dbm pinned now) t v =
      (step-Framed (status id retx fail dbm pinned now) t).keeps v
  step-IsTable (cmd_ack id now) t v = (step-Framed (cmd_ack id now) t).keeps v
  step-IsTable (awaken id now) t v = (step-Framed (awaken id now) t).keeps v
  step-IsTable (mode_set id pinned) t v = (step-Framed (mode_set id pinned) t).keeps v
  step-IsTable (command_sent id target now) t v =
      (step-Framed (command_sent id target now) t).keeps v
  step-IsTable (command_failed id) t v = (step-Framed (command_failed id) t).keeps v
  step-IsTable (tick now) t v = unfold step in (update-IsTable now t v)
