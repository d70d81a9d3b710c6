-- ===== src/TxPower/Reports.antt =====
-- `onStatus` of TxPowerController.cpp: what a node's STATUS does to its entry, and what it leads to.
use smart_fires_io_t.Base.{
  ℕ, ◌≤◌, ◌≡◌, ◌≢◌, ◌⊎◌, inl, inr, Bool, true, false, Option, none, some, arith, refl, ◌∙◌, sym, ap,
  subst,
}
use smart_fires_io_t.Base.Int.{ℤ}
use smart_fires_io_t.Base.Word.{sub_u32}
use smart_fires_io_t.Config.Profile.{NetworkProfile}
use smart_fires_io_t.TxPower.Node.{
  Node, Decision, no_decision, no_action, set_power, dynamic, note_status, close_window, decide,
  fresh_node,
}
use smart_fires_io_t.TxPower.Controller.{
  Table, is_node, find, modify, find_or_create, status_on, on_status,
}
use smart_fires_io_t.TxPower.Table.{find-is_node, find-modify_self, created}
use smart_fires_io_t.TxPower.Upsert.{Entry, found, made, full, entry_of, find_or_create-Entry}
use smart_fires_io_t.TxPower.Decide.{IsSafe, decide_sound}
use smart_fires_io_t.TxPower.Step.{decide_keeps, note-Keeps}

module _ (profile : NetworkProfile) (id retx fail : ℕ) (dbm : ℤ) (pinned : Bool) (now : ℕ) where
  abbrev pub noted : Node → Node
  noted n = note_status retx fail dbm pinned n

  -- A power change, commanded on the entry `n` of the node.
  pub record IsCommand (t : Table) (d : Decision) (t' : Table) (n : Node) : Type 0 where
    pub commanded : d.action ≡ set_power
    pub for_node : d.node_id ≡ id
    pub not_pinned : pinned ≡ false
    pub safe : IsSafe dbm d
    pub known : find id t ≡ some n
    pub none_in_flight : n.has_pending ≡ false
    pub not_too_soon : (n.have_decided ≡ false) ⊎ (60000 ≤ sub_u32 now n.last_decision_ms)
    pub heard : n.snr_count ≢ 0
    pub closed : find id t' ≡ some (close_window retx fail now (noted n))

  -- Nothing is commanded: the table is full, or the report is in the entry, whose window may be closed.
  abbrev pub IsQuiet : Table → Decision → Table → Type 0
  IsQuiet t d t' =
      let n = noted (entry_of profile (find id t) (created profile id)) in
      (d.action ≡ no_action)
      × (((find_or_create profile id t ≡ none) × (t' ≡ t))
          ⊎ (find id t' ≡ some n)
          ⊎ (find id t' ≡ some (close_window retx fail now n)))

  abbrev Outcome : Table → Decision × Table → Type 0
  Outcome t (d, t') = IsQuiet t d t' ⊎ ((n : Node) × IsCommand t d t' n)

  -- The entry that the report is written to is the node's, or else a fresh one.
  abbrev IsEntry : Table → Node → Type 0
  IsEntry t n = (find id t ≡ some n) ⊎ ((find id t ≡ none) × (n ≡ created profile id))

  noted_fields :
      (n : Node)
      → ((noted n).current_dbm ≡ dbm)
        × ((noted n).node_id ≡ n.node_id)
        × ((noted n).has_pending ≡ n.has_pending)
        × ((noted n).have_decided ≡ n.have_decided)
        × ((noted n).last_decision_ms ≡ n.last_decision_ms)
        × ((noted n).snr_count ≡ n.snr_count)
  unfolding note_status
  noted_fields n = ground arith

  entry_is :
      (t : Table) (n : Node) → IsEntry t n → entry_of profile (find id t) (created profile id) ≡ n
  entry_is t n (inl present) = rw present refl
  entry_is t n (inr (absent, new)) = rw absent (sym new)

  fresh_unheard : (n : Node) → n ≡ created profile id → n.snr_count ≡ 0
  unfolding fresh_node
  fresh_unheard n e = ap (λ (m : Node). m.snr_count) e

  decision_outcome :
      (t t' : Table) (n : Node)
      → IsEntry t n
      → is_node id n ≡ true
      → find id t' ≡ some (decide profile retx fail now (noted n)).1
      → Outcome t ((decide profile retx fail now (noted n)).0, t')
  decision_outcome t t' n origin here written =
      let (named, outcome) = decide_sound profile retx fail now (noted n) in
      let (dbm_is, id_is, pending_is, decided_is, last_is, count_is) = noted_fields n in
      elim outcome [
        | inl (quiet, inl same) ↦
            inl (quiet, inr (inl (rw (entry_is t n origin) (written ∙ ap some same))))
        | inl (quiet, inr closed) ↦
            inl (quiet, inr (inr (rw (entry_is t n origin) (written ∙ ap some closed))))
        | inr (acts, closed, owned, free, spaced, counted, safe) ↦ elim origin [
          | inr (_, new) ↦ absurd (counted (count_is ∙ fresh_unheard n new))
          | inl known ↦ inr (
            n,
            record {
              commanded = acts;
              for_node = named ∙ id_is ∙ ground arith;
              not_pinned = unpinned owned;
              safe = subst (λ z. IsSafe z (decide profile retx fail now (noted n)).0) dbm_is safe;
              known = known;
              none_in_flight = sym pending_is ∙ free;
              not_too_soon = ground (arith, spaced, decided_is, last_is);
              heard = λ e. counted (count_is ∙ e);
              closed = written ∙ ap some closed;
            },
          )
        ]
      ]
    where
      unpinned : (noted n).mode ≡ dynamic → pinned ≡ false
      unpinned owned = unfold note_status in ground arith

  status_outcome :
      (t t0 : Table) (n : Node)
      → find id t ≡ some n
      → IsEntry t0 n
      → Outcome t0 (status_on profile id retx fail dbm pinned now t)
  unfolding status_on find_or_create find note_status close_window
  status_outcome t t0 n present origin =
      let here : is_node id n ≡ true = find-is_node id t present in
      let n' = (decide profile retx fail now (noted n)).1 in
      rw (present, status_on)
        (decision_outcome t0 (modify id (λ _. n') t) n origin here (
          find-modify_self id (λ _. n') t
            (λ _ _.
              decide_keeps profile id retx fail now (noted n)
                (note-Keeps profile id retx fail dbm pinned n here))
            present))

  abbrev answered : Table → Option Table → Decision × Table
  answered t none = (no_decision, t)
  answered t (some t') = status_on profile id retx fail dbm pinned now t'

  on_status-answered :
      (t : Table) (r : Option Table)
      → find_or_create profile id t ≡ r
      → on_status profile id retx fail dbm pinned now t ≡ answered t r
  unfolding on_status
  on_status-answered t none e = rw (e, on_status) refl
  on_status-answered t (some t') e = rw (e, on_status) refl

  answered_outcome :
      (t : Table) (r : Option Table)
      → find_or_create profile id t ≡ r
      → Entry profile id t r
      → Outcome t (answered t r)
  answered_outcome t r e (found n present) = status_outcome t t n present (inl present)
  answered_outcome t r e (made t' absent x) =
      status_outcome t' t (created profile id) x.added (inr (absent, refl))
  answered_outcome t r e (full absent) = inl (refl, inl (e, refl))

  -- What a STATUS leads to. Either no power change is commanded; then the table is as it was, since it is full
  -- and has no entry of the node, or the node's entry, made fresh if there was none, has taken the report in,
  -- and its decision window may be closed. Or a change is commanded, which names the node and a level
  -- between 5 and 20 dBm other than the reported one; then the report does not pin the node's power, the node
  -- had an entry with no command in flight, with a frame heard since its window began and with no decision
  -- in the last 60 s, and the entry has taken the report in and its window is closed.
  pub on_status_sound :
      (t : Table)
      → let (d, t') = on_status profile id retx fail dbm pinned now t in
        IsQuiet t d t' ⊎ ((n : Node) × IsCommand t d t' n)
  on_status_sound t =
      let r = find_or_create profile id t in
      subst (Outcome t) (sym (on_status-answered t r refl))
        (answered_outcome t r refl (find_or_create-Entry profile id t))
