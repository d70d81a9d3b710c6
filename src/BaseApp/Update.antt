-- ===== src/BaseApp/Update.antt =====
-- `update` of SmartFiresBaseApp.cpp keeps the power table and the assignments.
use smart_fires_io_t.Base.{ℕ, ◌+◌, Bool, false, not, ◌&&◌, if_both, List, [], ◌∷◌, ltb}
use smart_fires_io_t.Config.Profile.{NetworkProfile}
use smart_fires_io_t.Base.Word.{sub_u32}
use smart_fires_io_t.TxPower.Step.{step, step-IsTable, tick}
use smart_fires_io_t.BaseApp.Uart.{process_incoming_jetson_uart}
use smart_fires_io_t.BaseApp.State.{BaseApp, Effect, dynamic_tx_power_default_enabled}
use smart_fires_io_t.BaseApp.Jetson.{handle_jetson_command_payload}
use smart_fires_io_t.BaseApp.Incoming.{process_incoming_lora}
use smart_fires_io_t.BaseApp.Loop.{
  Pass, maybe_announce_network_profile, is_system_reset, handle_payloads, serve_jetson_uart,
  sync_clock, tick_tx_power, update_base, network_profile_announce_ms,
}
use smart_fires_io_t.BaseApp.Sound.{
  IsSound, with_table, send_tx_power_decision-IsSound, handle_jetson_command_payload-IsSound,
}
use smart_fires_io_t.BaseApp.Sound.Incoming.{process_incoming_lora-IsSound}
use smart_fires_io_t.BaseApp.Sound.Sends.{window-IsSound}

module _ (profile : NetworkProfile) where
  abbrev Forwarded : BaseApp × List Effect → Type 0
  Forwarded r = IsSound r.0

  handle_payloads-IsSound :
      (now_at : ℕ → ℕ) (n : ℕ) (payloads : List (List ℕ)) (b : BaseApp)
      → IsSound b
      → IsSound (handle_payloads profile now_at n payloads b).0
  unfolding handle_payloads
  handle_payloads-IsSound now_at n [] b h = h
  handle_payloads-IsSound now_at n (payload ∷ rest) b h =
      let r = handle_jetson_command_payload profile (now_at n) payload b in
      let handled : IsSound r.1 =
        handle_jetson_command_payload-IsSound profile (now_at n) payload b h in
      if_both Forwarded (is_system_reset r.2) handled
        (handle_payloads-IsSound now_at (n + 1) rest _ (if_both IsSound r.0 handled handled))

  serve_jetson_uart-IsSound :
      (now_at : ℕ → ℕ) (bytes : List ℕ) (b : BaseApp)
      → IsSound b
      → IsSound (serve_jetson_uart profile now_at bytes b).0
  unfolding serve_jetson_uart
  serve_jetson_uart-IsSound now_at bytes b h =
      handle_payloads-IsSound now_at 0 (process_incoming_jetson_uart bytes b.uart).0 _ h

  pub announce-IsSound :
      (force : Bool) (now : ℕ) (b : BaseApp)
      → IsSound b
      → IsSound (maybe_announce_network_profile profile force now b).0
  unfolding maybe_announce_network_profile
  announce-IsSound force now b h =
      if_both Forwarded
        (not force && ltb (sub_u32 now b.last_announce_ms) network_profile_announce_ms) h h

  tick_tx_power-IsSound :
      (now sent_at : ℕ) (b : BaseApp) → IsSound b → IsSound (tick_tx_power profile now sent_at b)
  unfolding tick_tx_power step
  tick_tx_power-IsSound now sent_at b h =
      if_both IsSound (dynamic_tx_power_default_enabled profile)
        (send_tx_power_decision-IsSound profile sent_at _ _
          (with_table profile b.tx_power _ (step-IsTable profile (tick now) b.tx_power h.table) h))
        h

  -- Every call of `update` keeps the table of the power controller and the assignments well formed.
  pub update_base-IsSound :
      (t : Pass) (b : BaseApp) → IsSound b → IsSound (update_base profile t b).0
  unfolding update_base sync_clock
  update_base-IsSound t b h =
      let synced = sync_clock t.payload_at t.sync_at b in
      let heard = process_incoming_lora profile t.incoming synced in
      let served = serve_jetson_uart profile t.serial_at t.serial heard.0 in
      let announced = maybe_announce_network_profile profile false t.announce_at served.0 in
      let kept =
        serve_jetson_uart-IsSound t.serial_at t.serial _
          (process_incoming_lora-IsSound profile t.incoming synced h) in
      if_both Forwarded (not b.initialized) h (
        if_both Forwarded (is_system_reset served.1) kept (
          window-IsSound profile t.window _ (
            tick_tx_power-IsSound t.power_at t.power_sent_at _
              (announce-IsSound false t.announce_at _ kept))))
