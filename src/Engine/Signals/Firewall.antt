-- ===== src/Engine/Signals/Firewall.antt =====
-- engine.rs: what the reachability check finds, returns, and sends to the registry.
use my_domain_core.Prelude.{
  Bool-cases, Option-cases, nat_eq, string_eq, ℕ, ◌+◌, String, ◌≡◌, refl, sym, subst, ◌⊎◌, inl, inr,
  ◌↔◌, Bool, true, false, not, ◌||◌, none, some, ◌∷◌, arith,
}
use my_domain_core.Prelude.Result.{ok, err, is_ok, Result-cases}
use my_domain_core.Model.{ProbeResult}
use my_domain_core.Host.{Host}
use my_domain_core.Ctx.{Ctx, record_effect, next_turn, state_sent}
use my_domain_core.Registry.{update_device_state, probe_inbound, health_ok}
use my_domain_core.Engine.Signals.{
  Checked, FirewallStatus, checks, probe_and_tell, firewall_check, run_firewall_report,
}

nor_lem : (a b : Bool) → (not (a || b) ≡ true) ↔ ((a ≡ false) × (b ≡ false))
nor_lem true b = (λ e. (cc, cc), λ e. cc)
nor_lem false true = (λ e. (cc, cc), λ e. cc)
nor_lem false false = (λ e. (refl, refl), λ e. refl)

module _ (h : Host) where
  -- The server did not answer.
  abbrev pub FoundNoServer : Ctx → Ctx → FirewallStatus → Type 0
  FoundNoServer s t st =
      (url : String) × (s.server_url ≡ some url)
      × (health_ok h s.turn url ≡ false)
      × (st.outbound_ok ≡ false)
      × (st.inbound_blocked ≡ true)
      × (t.trace ≡ s.trace)

  -- The server of the session has tried to reach the device.
  abbrev pub Probed : String → String → String → ℕ → Ctx → Ctx → FirewallStatus → Type 0
  Probed url token node_id turn s t st =
      (probe : ProbeResult) × (probe_inbound h turn url token node_id (checks h) ≡ ok probe)
      × (st.outbound_ok ≡ true)
      × ((st.inbound_blocked ≡ true)
          ↔ ((probe.tcp_reachable ≡ false) × (probe.ws_reachable ≡ false)))
      × (t.trace
          ≡ state_sent none (some st.inbound_blocked) (
              is_ok (
                update_device_state h (turn + 1) url token node_id none (some st.inbound_blocked)
                  none none))
            ∷ s.trace)

  abbrev pub Tells : Ctx → Checked → Type 0
  Tells s (t, err e) = t.trace ≡ s.trace
  Tells s (t, ok st) =
      FoundNoServer s t st
      ⊎ ((url : String) × (token : String) × (s.server_url ≡ some url)
          × (s.token ≡ some token)
          × (health_ok h s.turn url ≡ true)
          × Probed url token s.identity.node_id (s.turn + 1) s t st)

  abbrev TellsProbe : String → String → String → Ctx → Checked → Type 0
  TellsProbe url token node_id s (t, err e) = t.trace ≡ s.trace
  TellsProbe url token node_id s (t, ok st) = Probed url token node_id s.turn s t st

  probe_and_tell-TellsProbe :
      (url token node_id : String) (s : Ctx)
      → TellsProbe url token node_id s (probe_and_tell h url token node_id s)
  unfolding probe_and_tell record_effect next_turn
  probe_and_tell-TellsProbe url token node_id s =
      elim (Result-cases (probe_inbound h s.turn url token node_id (checks h))) [
        | inl (why, e) ↦ rw (e, probe_and_tell)
        | inr (probe, e) ↦
            rw (e, probe_and_tell)
              (probe, e, refl, nor_lem probe.tcp_reachable probe.ws_reachable, refl)
      ]

  told_of_probe :
      (url token : String) (s : Ctx) (x : Checked)
      → s.server_url ≡ some url
      → s.token ≡ some token
      → health_ok h s.turn url ≡ true
      → TellsProbe url token s.identity.node_id (next_turn s) x
      → Tells s x
  unfolding next_turn
  told_of_probe url token s (t, err why) e f up k = k
  told_of_probe url token s (t, ok st) e f up k = inr (url, token, e, f, up, k)

  probes :
      (url token : String) (s : Ctx)
      → s.server_url ≡ some url
      → s.token ≡ some token
      → health_ok h s.turn url ≡ true
      → firewall_check h s ≡ probe_and_tell h url token s.identity.node_id (next_turn s)
  unfolding firewall_check next_turn
  probes url token s e f up = ground (arith, e, f, up)

  -- `firewall_check` returns an error, and sends the registry nothing. Or the server of the session
  -- does not answer: it returns that outbound fails and inbound is blocked, and sends nothing. Or the
  -- server answers and has probed the device: it returns that outbound works, and that inbound is
  -- blocked exactly if neither TCP nor WebSocket was reachable; its only effect is one request that
  -- carries this inbound answer, and whether that request succeeds does not change what it returns.
  pub firewall_check_told : (s : Ctx) → Tells s (firewall_check h s)
  unfolding firewall_check next_turn
  firewall_check_told s = elim (Option-cases s.server_url) [
    | inl nowhere ↦ rw (nowhere, firewall_check)
    | inr (url, e) ↦ elim (Bool-cases (health_ok h s.turn url)) [
      | inr down ↦ rw (e, down, firewall_check) (inl (url, refl, down, refl, refl, refl))
      | inl up ↦ elim (Option-cases s.token) [
        | inl out ↦ rw (e, up, out, firewall_check)
        | inr (token, f) ↦ subst (Tells s) (sym (probes url token s e f up)) (
            told_of_probe url token s (probe_and_tell h url token s.identity.node_id (next_turn s))
              e f up (probe_and_tell-TellsProbe url token s.identity.node_id (next_turn s)))
      ]
    ]
  ]

  -- Of a device that is logged in, the thread of `report_firewall` leaves the state that
  -- `firewall_check` leaves.
  pub run_firewall_report_lem :
      (url token : String) (s : Ctx)
      → s.server_url ≡ some url
      → s.token ≡ some token
      → run_firewall_report h url token s.identity.node_id s ≡ (firewall_check h s).0
  unfolding firewall_check run_firewall_report next_turn
  run_firewall_report_lem url token s e f = ground (arith, e, f)
