-- ===== src/Engine/Ladder/Offers.antt =====
-- engine.rs: the two rungs that wait for an answer, from the entry of the waiter to its withdrawal.
use my_domain_core.Prelude.{
  if◌then◌else◌, Bool-cases, Option-cases, nat_eq, string_eq, ℕ, String, inl, inr, Bool, true,
  false, List, arith,
}
use my_domain_core.Prelude.Result.{is_ok}
use my_domain_core.Prelude.Map.{insert}
use my_domain_core.Model.{Candidate, punch_offer, sdp_offer}
use my_domain_core.Host.{Host}
use my_domain_core.Ctx.{Ctx, record_effect, next_turn, punch_driver}
use my_domain_core.Transport.Live.Events.{link_events}
use my_domain_core.Transport.Send.Quiet.{Quiet, Quiet-trans, next_turn-Quiet}
use my_domain_core.Transport.Rtc.{apply_answer_and_run}
use my_domain_core.Engine.Signals.{send_signal_via}
use my_domain_core.Engine.Signals.Indicator.{send_signal_via-Quiet, spawned-Quiet}
use my_domain_core.Engine.Ladder.{
  punch_answer_of, rtc_answer_of, withdraw_punch, withdraw_rtc, wait_live, punch_to, offer_punch,
  drive_to, offer_rtc,
}
use my_domain_core.Engine.Ladder.Wait.{wait_live-keeps}

apply_answer_and_run-Quiet :
    (h : Host) (negotiation : ℕ) (sdp node_id : String) (s : Ctx)
    → Quiet s (apply_answer_and_run h negotiation sdp node_id s).0
unfolding apply_answer_and_run record_effect link_events
apply_answer_and_run-Quiet h negotiation sdp node_id s = ground arith

-- What holds before an offer (`P`), and while its waiter stands (`Q`).
module _ (others : Ctx → Ctx) (h : Host) (P Q : Ctx → Type 0)
    (quiet : (s t : Ctx) → Quiet s t → P s → P t) (run : (t : Ctx) → P t → P (others t))
    (quiet' : (s t : Ctx) → Quiet s t → Q s → Q t) (run' : (t : Ctx) → Q t → Q (others t))
    (node_id : String) where
  waited_if :
      (b : Bool) (ms : ℕ) (s : Ctx)
      → P s
      → P (if b then wait_live others node_id ms s else (s, false)).0
  waited_if true ms s p = wait_live-keeps others node_id P ms s run p
  waited_if false ms s p = p

  punch_to-keeps :
      (sid : String) (waiter : ℕ) (s : Ctx)
      → P (withdraw_punch sid s)
      → P (punch_to others h node_id sid waiter s).0
  unfolding punch_to
  punch_to-keeps sid waiter s p = elim (Option-cases (punch_answer_of waiter s.trace)) [
    | inl nothing ↦ rw (nothing, punch_to) p
    | inr (theirs, e) ↦
        rw (e, punch_to)
          (waited_if true 12000 _ (quiet _ _ (spawned-Quiet h (punch_driver theirs node_id) _) p))
  ]

  pub offer_punch-keeps :
      (mine : List Candidate) (s : Ctx)
      → Q (record s { punch_waiters = insert s.punch_waiters (h.uuid s.turn) s.turn })
      → ((t : Ctx) → Q t → P (withdraw_punch (h.uuid s.turn) t))
      → P (offer_punch others h node_id mine s).0
  unfolding offer_punch
  offer_punch-keeps mine s q withdrawn =
      let waiting = record s { punch_waiters = insert s.punch_waiters (h.uuid s.turn) s.turn } in
      let sig = punch_offer (h.uuid s.turn) mine 0 in
      let sent =
        quiet' _ _ (Quiet-trans (next_turn-Quiet waiting) (send_signal_via-Quiet h node_id sig _))
          q in
      elim (Bool-cases (is_ok (send_signal_via h node_id sig (next_turn waiting)).1)) [
        | inl relayed ↦ rw (relayed, offer_punch) (punch_to-keeps _ _ _ (withdrawn _ (run' _ sent)))
        | inr refused ↦ rw (refused, offer_punch) (withdrawn _ sent)
      ]

  drive_to-keeps :
      (negotiation : ℕ) (sid : String) (waiter : ℕ) (s : Ctx)
      → P (withdraw_rtc sid s)
      → P (drive_to others h node_id negotiation sid waiter s).0
  unfolding drive_to
  drive_to-keeps negotiation sid waiter s p = elim (Option-cases (rtc_answer_of waiter s.trace)) [
    | inl nothing ↦ rw (nothing, drive_to) p
    | inr (sdp, e) ↦
        rw (e, drive_to)
          (waited_if _ 12000 _
            (quiet _ _ (apply_answer_and_run-Quiet h negotiation sdp node_id _) p))
  ]

  pub offer_rtc-keeps :
      (negotiation : ℕ) (sdp : String) (s : Ctx)
      → Q (record s { rtc_waiters = insert s.rtc_waiters (h.uuid s.turn) s.turn })
      → ((t : Ctx) → Q t → P (withdraw_rtc (h.uuid s.turn) t))
      → P (offer_rtc others h node_id negotiation sdp s).0
  unfolding offer_rtc
  offer_rtc-keeps negotiation sdp s q withdrawn =
      let waiting = record s { rtc_waiters = insert s.rtc_waiters (h.uuid s.turn) s.turn } in
      let sig = sdp_offer (h.uuid s.turn) sdp in
      let sent =
        quiet' _ _ (Quiet-trans (next_turn-Quiet waiting) (send_signal_via-Quiet h node_id sig _))
          q in
      elim (Bool-cases (is_ok (send_signal_via h node_id sig (next_turn waiting)).1)) [
        | inl relayed ↦ rw (relayed, offer_rtc) (drive_to-keeps _ _ _ _ (withdrawn _ (run' _ sent)))
        | inr refused ↦ rw (refused, offer_rtc) (withdrawn _ sent)
      ]
