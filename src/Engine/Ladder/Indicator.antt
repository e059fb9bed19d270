-- ===== src/Engine/Ladder/Indicator.antt =====
-- engine.rs: the ladder against the machine of the live registry.
use my_domain_core.Prelude.{nat_eq, string_eq, String, refl}
use my_domain_core.Prelude.Map.{insert}
use my_domain_core.Host.{Host}
use my_domain_core.Ctx.{Ctx}
use my_domain_core.Transport.Live.Evolves.{Evolves, IsDim, IsDim-Evolves}
use my_domain_core.Transport.Send.Quiet.{Quiet, Quiet-Evolves}
use my_domain_core.Engine.Ladder.{run_connect_ladder, withdraw_punch, withdraw_rtc}
use my_domain_core.Engine.Ladder.Keeps.{run_connect_ladder_keeps}
use my_domain_core.Engine.Ladder.Offers.{offer_punch-keeps, offer_rtc-keeps}

module _ (P : Ctx → Type 0) (extends : (s t : Ctx) → Evolves s t → P s → P t) where
  quiet : (s t : Ctx) → Quiet s t → P s → P t
  quiet s t q = extends s t (Quiet-Evolves q Evolves.starts)

  same : (s t : Ctx) → IsDim s t → P s → P t
  same s t q = extends s t (IsDim-Evolves q Evolves.starts)

  -- What the registry's machine keeps the ladder keeps, if the other threads do.
  pub run_connect_ladder-extends :
      (others : Ctx → Ctx) (h : Host) (node_id : String) (s : Ctx)
      → ((t : Ctx) → P t → P (others t))
      → P s
      → P (run_connect_ladder others h node_id s)
  unfolding withdraw_punch withdraw_rtc
  run_connect_ladder-extends others h node_id s run k =
      run_connect_ladder_keeps others h P quiet run node_id s
        (λ mine t p.
          offer_punch-keeps others h P P quiet run quiet run node_id mine t
            (same t (record t { punch_waiters = insert t.punch_waiters (h.uuid t.turn) t.turn })
              (record { live = refl; told = refl; session = refl }) p)
            (λ u q.
              same u (withdraw_punch (h.uuid t.turn) u)
                (record { live = refl; told = refl; session = refl }) q))
        (λ n sdp t p.
          offer_rtc-keeps others h P P quiet run quiet run node_id n sdp t
            (same t (record t { rtc_waiters = insert t.rtc_waiters (h.uuid t.turn) t.turn })
              (record { live = refl; told = refl; session = refl }) p)
            (λ u q.
              same u (withdraw_rtc (h.uuid t.turn) u)
                (record { live = refl; told = refl; session = refl }) q))
        k
