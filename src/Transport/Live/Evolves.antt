-- ===== src/Transport/Live/Evolves.antt =====
-- transport/mod.rs: the live-link registry as an abstract machine. It marks, touches and drops nodes,
-- and rests while the program does something that neither the registry nor an indicator shows.
use my_domain_core.Prelude.{nat_eq, string_eq, String, ◌≡◌, refl, ◌∙◌, Option, arith}
use my_domain_core.Net.{SocketAddr}
use my_domain_core.Model.{TransportKind}
use my_domain_core.Ctx.{Ctx, session_of}
use my_domain_core.Transport.Live.{mark_live, touch_live, drop_live, is_live}
use my_domain_core.Transport.Live.Events.{
  link_events, dot-eq, IsShown, mark_live-IsShown, touch_live-IsShown, drop_live-IsShown,
}

-- A change that no link and no indicator shows.
pub record IsUnseen (s t : Ctx) : Type 0 where
  pub live : t.p2p_conns ≡ s.p2p_conns
  pub told : link_events t.trace ≡ link_events s.trace

-- Such a change which leaves the session alone, too; the peers and the waiters may be others.
pub record IsDim (s t : Ctx) : Type 0 where
  pub live : t.p2p_conns ≡ s.p2p_conns
  pub told : link_events t.trace ≡ link_events s.trace
  pub session : session_of t ≡ session_of s

pub IsDim-refl : (s : Ctx) → IsDim s s
IsDim-refl s = record { live = refl; told = refl; session = refl }

pub IsDim-trans : {s t u : Ctx} → IsDim s t → IsDim t u → IsDim s u
IsDim-trans a b = record {
  live = b.live ∙ a.live;
  told = b.told ∙ a.told;
  session = b.session ∙ a.session;
}

pub IsUnseen-IsShown : {s t : Ctx} → IsUnseen s t → IsShown s → IsShown t
unfolding is_live
IsUnseen-IsShown {s} {t} q h node = dot-eq t.trace s.trace node q.told ∙ h node ∙ rw q.live

-- The states of the machine from `s0` on.
pub data Evolves (s0 : Ctx) : Ctx → Type 0 where
  starts : Evolves s0 s0
  rests : (s t : Ctx) → IsDim s t → Evolves s0 s → Evolves s0 t
  marks :
      (node_id : String) (kind : TransportKind) (addr : Option SocketAddr) (s : Ctx)
      → Evolves s0 s
      → Evolves s0 (mark_live node_id kind addr s)
  touches : (node_id : String) (s : Ctx) → Evolves s0 s → Evolves s0 (touch_live node_id s)
  drops : (node_id : String) (s : Ctx) → Evolves s0 s → Evolves s0 (drop_live node_id s)

pub IsDim-Evolves : {s0 s t : Ctx} → IsDim s t → Evolves s0 s → Evolves s0 t
IsDim-Evolves {s0} {s} {t} q k = Evolves.rests s t q k

pub mark_live-Evolves :
    {s0 : Ctx} (node_id : String) (kind : TransportKind) (addr : Option SocketAddr) (s : Ctx)
    → Evolves s0 s
    → Evolves s0 (mark_live node_id kind addr s)
mark_live-Evolves node_id kind addr s k = Evolves.marks node_id kind addr s k

pub touch_live-Evolves :
    {s0 : Ctx} (node_id : String) (s : Ctx) → Evolves s0 s → Evolves s0 (touch_live node_id s)
touch_live-Evolves node_id s k = Evolves.touches node_id s k

pub drop_live-Evolves :
    {s0 : Ctx} (node_id : String) (s : Ctx) → Evolves s0 s → Evolves s0 (drop_live node_id s)
drop_live-Evolves node_id s k = Evolves.drops node_id s k

-- Two changes of the state that the machine does not see at all.
pub same-Evolves :
    {s0 : Ctx} (s t : Ctx)
    → t.p2p_conns ≡ s.p2p_conns
    → t.trace ≡ s.trace
    → session_of t ≡ session_of s
    → Evolves s0 s
    → Evolves s0 t
same-Evolves s t live trace session k =
    Evolves.rests s t (record { live = live; told = rw trace; session = session }) k

-- What the machine keeps.
pub Evolves-IsShown : {s0 : Ctx} (s : Ctx) → Evolves s0 s → IsShown s0 → IsShown s
Evolves-IsShown s (Evolves.starts) k = k
Evolves-IsShown s (Evolves.rests t _ q run) k =
    IsUnseen-IsShown (record { live = q.live; told = q.told }) (Evolves-IsShown t run k)
Evolves-IsShown s (Evolves.marks node_id kind addr t run) k =
    mark_live-IsShown node_id kind addr t (Evolves-IsShown t run k)
Evolves-IsShown s (Evolves.touches node_id t run) k =
    touch_live-IsShown node_id t (Evolves-IsShown t run k)
Evolves-IsShown s (Evolves.drops node_id t run) k =
    drop_live-IsShown node_id t (Evolves-IsShown t run k)

session-mark_live :
    (node_id : String) (kind : TransportKind) (addr : Option SocketAddr) (s : Ctx)
    → session_of (mark_live node_id kind addr s) ≡ session_of s
unfolding mark_live
session-mark_live node_id kind addr s = ground arith

session-touch_live : (node_id : String) (s : Ctx) → session_of (touch_live node_id s) ≡ session_of s
unfolding touch_live
session-touch_live node_id s = ground arith

session-drop_live : (node_id : String) (s : Ctx) → session_of (drop_live node_id s) ≡ session_of s
unfolding drop_live
session-drop_live node_id s = ground arith

-- The machine leaves the session alone.
pub Evolves-session : {s0 : Ctx} (s : Ctx) → Evolves s0 s → session_of s ≡ session_of s0
Evolves-session s (Evolves.starts) = refl
Evolves-session s (Evolves.rests t _ q run) = q.session ∙ Evolves-session t run
Evolves-session s (Evolves.marks node_id kind addr t run) =
    session-mark_live node_id kind addr t ∙ Evolves-session t run
Evolves-session s (Evolves.touches node_id t run) =
    session-touch_live node_id t ∙ Evolves-session t run
Evolves-session s (Evolves.drops node_id t run) =
    session-drop_live node_id t ∙ Evolves-session t run
