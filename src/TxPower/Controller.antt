-- ===== src/TxPower/Controller.antt =====
-- TxPowerController (platformio/src/radio/TxPowerController.cpp): the table of nodes and the calls. A
-- call that may change `_nodes` returns the new table.
use mathlib.Core.Option
use smart_fires_io_t.Base.{
  ℕ, Bool, true, false, not, ◌&&◌, ◌==◌, if◌then◌else◌, List, [], ◌∷◌, Option, none, some, is_some,
  replicate,
}
use smart_fires_io_t.Base.Int.{ℤ}
use smart_fires_io_t.Config.Profile.{NetworkProfile}
use smart_fires_io_t.TxPower.Node.{
  Node, Decision, no_decision, dynamic, static, is_static_mode, radio_tx_power_dbm,
  max_tx_power_tracked_nodes, hear, note_status, confirm, fresh_node, decide, reborn, visit,
}

-- `_nodes`.
abbrev pub Table : Type 0
Table = List Node

abbrev pub is_node : ℕ → Node → Bool
is_node id n = n.in_use && n.node_id == id

unfoldable pub find : ℕ → Table → Option Node
find id [] = none
find id (n ∷ ns) = if is_node id n then some n else find id ns

-- Writing through the pointer that `find` returns: the first entry of the node changes.
unfoldable pub modify : ℕ → (Node → Node) → Table → Table
modify id f [] = []
modify id f (n ∷ ns) = if is_node id n then f n ∷ ns else n ∷ modify id f ns

unfoldable pub on_cmd_ack : ℕ → ℕ → Table → Table
on_cmd_ack id now t = modify id (confirm now) t

module _ (profile : NetworkProfile) where
  unfoldable pub new_table : Table
  new_table = replicate max_tx_power_tracked_nodes (fresh_node profile)

  -- The second loop of `findOrCreate`; `none` is a full table.
  unfoldable pub create : ℕ → Table → Option Table
  create id [] = none
  create id (n ∷ ns) =
      if not n.in_use
      then some ((record (fresh_node profile) { in_use = true; node_id = id }) ∷ ns)
      else Option.map (λ rest. n ∷ rest) (create id ns)

  -- The table in which the node has an entry, or `none` for a null pointer.
  unfoldable pub find_or_create : ℕ → Table → Option Table
  find_or_create id t = if is_some (find id t) then some t else create id t

  -- A call that writes through the pointer of `findOrCreate`, and returns early on null.
  unfoldable pub upsert : ℕ → (Node → Node) → Table → Table
  upsert id f t = elim (find_or_create id t) [ none ↦ t | some t' ↦ modify id f t' ]

  unfoldable pub on_packet_received : ℕ → ℤ → ℕ → Table → Table
  on_packet_received id snr_db now t = upsert id (hear snr_db now) t

  -- `onStatus` behind the null test, in the table that holds the node's entry.
  unfoldable pub status_on : ℕ → ℕ → ℕ → ℤ → Bool → ℕ → Table → Decision × Table
  status_on id retx_total fail_total tx_power_dbm pinned now t = elim (find id t) [
    | none ↦ (no_decision, t)
    | some n ↦
        let (d, n') =
          decide profile retx_total fail_total now
            (note_status retx_total fail_total tx_power_dbm pinned n) in
        (d, modify id (λ _. n') t)
  ]

  unfoldable pub on_status : ℕ → ℕ → ℕ → ℤ → Bool → ℕ → Table → Decision × Table
  on_status id retx_total fail_total tx_power_dbm pinned now t = elim (find_or_create id t) [
    | none ↦ (no_decision, t)
    | some t' ↦ status_on id retx_total fail_total tx_power_dbm pinned now t'
  ]

  unfoldable pub on_awaken : ℕ → ℕ → Table → Table
  on_awaken id now t = upsert id (reborn profile now) t

  unfoldable pub set_mode : ℕ → Bool → Table → Table
  set_mode id is_static t =
      upsert id (λ n. record n { mode = if is_static then static else dynamic }) t

  unfoldable pub update_from : ℕ → Decision → Table → Decision × Table
  update_from now d [] = (d, [])
  update_from now d (n ∷ ns) =
      let (d', n') = visit profile now d n in
      let (d'', ns') = update_from now d' ns in (d'', n' ∷ ns')

  unfoldable pub update : ℕ → Table → Decision × Table
  unfolding update_from
  update now t = update_from now no_decision t

unfoldable pub on_command_sent : ℕ → ℤ → ℕ → Table → Table
on_command_sent id target now t =
    modify id (λ n. record n { has_pending = true; pending_dbm = target; pending_since_ms = now }) t

unfoldable pub on_command_failed : ℕ → Table → Table
on_command_failed id t = modify id (λ n. record n { has_pending = false }) t

unfoldable pub known : ℕ → Table → Bool
known id t = is_some (find id t)

unfoldable pub current_dbm : ℕ → Table → ℤ
current_dbm id t = elim (find id t) [ none ↦ radio_tx_power_dbm | some n ↦ n.current_dbm ]

unfoldable pub is_static : ℕ → Table → Bool
is_static id t = elim (find id t) [ none ↦ false | some n ↦ is_static_mode n.mode ]
