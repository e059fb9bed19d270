-- ===== src/Transport/Send/Quiet.antt =====
-- Sending changes no table, no waiter and no indicator: only the trace and the count of external calls.
use my_domain_core.Prelude.{nat_eq, string_eq, ℕ, String, ◌≡◌, refl, ◌∙◌, List, [], ◌∷◌, arith}
use my_domain_core.Prelude.Map.{keys}
use my_domain_core.Net.{SocketAddr}
use my_domain_core.Model.{Envelope}
use my_domain_core.Host.{Host}
use my_domain_core.Ctx.{Ctx, session_of, Effect, record_effect, next_turn}
use my_domain_core.Transport.Live.{is_live}
use my_domain_core.Transport.Live.Events.{link_events, IsShown}
use my_domain_core.Transport.Live.Evolves.{IsDim, Evolves, IsDim-Evolves, IsUnseen-IsShown}
use my_domain_core.Transport.Send.{
  send_frame, send_tcp, send_udp, send_direct, send_payload, send_control_to, send_to_each,
  broadcast_control, best_proto,
}

pub record Quiet (s t : Ctx) : Type 0 where
  pub live : t.p2p_conns ≡ s.p2p_conns
  pub links : t.ws_conns ≡ s.ws_conns
  pub gone : t.gone ≡ s.gone
  pub peers : t.peers ≡ s.peers
  pub key : t.key ≡ s.key
  pub session : session_of t ≡ session_of s
  pub identity : t.identity ≡ s.identity
  pub punches : t.punch_waiters ≡ s.punch_waiters
  pub rtcs : t.rtc_waiters ≡ s.rtc_waiters
  pub told : link_events t.trace ≡ link_events s.trace

pub Quiet-refl : (s : Ctx) → Quiet s s
Quiet-refl s = record {
  live = refl;
  links = refl;
  gone = refl;
  peers = refl;
  key = refl;
  session = refl;
  identity = refl;
  punches = refl;
  rtcs = refl;
  told = refl;
}

pub Quiet-trans : {s t u : Ctx} → Quiet s t → Quiet t u → Quiet s u
Quiet-trans a b = record {
  live = b.live ∙ a.live;
  links = b.links ∙ a.links;
  gone = b.gone ∙ a.gone;
  peers = b.peers ∙ a.peers;
  key = b.key ∙ a.key;
  session = b.session ∙ a.session;
  identity = b.identity ∙ a.identity;
  punches = b.punches ∙ a.punches;
  rtcs = b.rtcs ∙ a.rtcs;
  told = b.told ∙ a.told;
}

pub Quiet-IsShown : {s t : Ctx} → Quiet s t → IsShown s → IsShown t
unfolding is_live
Quiet-IsShown {s} {t} q h =
    IsUnseen-IsShown {s = s} {t = t} (record { live = q.live; told = q.told }) h

pub Quiet-IsDim : {s t : Ctx} → Quiet s t → IsDim s t
Quiet-IsDim q = record { live = q.live; told = q.told; session = q.session }

pub Quiet-Evolves : {s0 s t : Ctx} → Quiet s t → Evolves s0 s → Evolves s0 t
Quiet-Evolves q k = IsDim-Evolves (Quiet-IsDim q) k

-- An effect that is no event of the indicator.
abbrev pub IsDark : Effect → Type 0
IsDark e = (trace : List Effect) → link_events (e ∷ trace) ≡ link_events trace

pub record_effect-Quiet : (e : Effect) (s : Ctx) → IsDark e → Quiet s (record_effect e s)
unfolding record_effect
record_effect-Quiet e s h = record {
  live = refl;
  links = refl;
  gone = refl;
  peers = refl;
  key = refl;
  session = refl;
  identity = refl;
  punches = refl;
  rtcs = refl;
  told = h s.trace;
}

pub next_turn-Quiet : (s : Ctx) → Quiet s (next_turn s)
unfolding next_turn
next_turn-Quiet s = record {
  live = refl;
  links = refl;
  gone = refl;
  peers = refl;
  key = refl;
  session = refl;
  identity = refl;
  punches = refl;
  rtcs = refl;
  told = refl;
}

module _ (h : Host) where
  pub send_frame-Quiet :
      (node_id : String) (env : Envelope) (s : Ctx) → Quiet s (send_frame h node_id env s).0
  unfolding send_frame record_effect link_events
  send_frame-Quiet node_id env s = ground arith

  pub send_tcp-Quiet :
      (addr : SocketAddr) (body : List ℕ) (s : Ctx) → Quiet s (send_tcp h addr body s).0
  unfolding send_tcp record_effect link_events
  send_tcp-Quiet addr body s = ground arith

  pub send_udp-Quiet :
      (addr : SocketAddr) (body : List ℕ) (s : Ctx) → Quiet s (send_udp h addr body s).0
  unfolding send_udp record_effect link_events
  send_udp-Quiet addr body s = ground arith

  send_direct-Quiet :
      (node_id protocol : String) (body : List ℕ) (s : Ctx)
      → Quiet s (send_direct h node_id protocol body s).0
  unfolding send_direct
  send_direct-Quiet node_id protocol body s =
      grind (arith, send_udp-Quiet, send_tcp-Quiet, Quiet-refl)

  send_frame-next :
      (node_id : String) (env : Envelope) (s : Ctx)
      → Quiet s (send_frame h node_id env (next_turn s)).0
  send_frame-next node_id env s =
      Quiet-trans (next_turn-Quiet s) (send_frame-Quiet node_id env (next_turn s))

  send_direct-next :
      (node_id protocol : String) (body : List ℕ) (s : Ctx)
      → Quiet s (send_direct h node_id protocol body (next_turn s)).0
  send_direct-next node_id protocol body s =
      Quiet-trans (next_turn-Quiet s) (send_direct-Quiet node_id protocol body (next_turn s))

  pub send_payload-Quiet :
      (from node_id protocol text : String) (s : Ctx)
      → Quiet s (send_payload h from node_id protocol text s).0
  unfolding send_payload
  send_payload-Quiet from node_id protocol text s =
      grind (arith, send_frame-next, send_direct-next, Quiet-refl)

  pub send_control_to-Quiet :
      (node_id text : String) (s : Ctx) → Quiet s (send_control_to h node_id text s)
  unfolding send_control_to
  send_control_to-Quiet node_id text s =
      send_payload-Quiet s.identity.name node_id (best_proto s node_id) text s

  pub send_control_to-next :
      (node_id text : String) (s : Ctx) → Quiet s (send_control_to h node_id text (next_turn s))
  send_control_to-next node_id text s =
      Quiet-trans (next_turn-Quiet s) (send_control_to-Quiet node_id text (next_turn s))

  pub send_to_each-Quiet :
      (ids : List String) (text : String) (s : Ctx) → Quiet s (send_to_each h ids text s)
  unfolding send_to_each
  send_to_each-Quiet [] text s = Quiet-refl s
  send_to_each-Quiet (id ∷ ids) text s =
      Quiet-trans (send_control_to-Quiet id text s)
        (send_to_each-Quiet ids text (send_control_to h id text s))

  pub broadcast_control-Quiet : (text : String) (s : Ctx) → Quiet s (broadcast_control h text s)
  unfolding broadcast_control
  broadcast_control-Quiet text s = send_to_each-Quiet (keys s.peers) text s
