-- ===== src/Engine/Peers/Table.antt =====
-- engine.rs: what a fetch from the registry makes of the table of peers.
use my_domain_core.Prelude.{
  if◌then◌else◌, nat_eq, string_eq, ◌==◌, String, ◌≡◌, refl, Bool, not, Option, none, some, List,
  [], ◌∷◌, arith,
}
use my_domain_core.Prelude.Map.{Map, get, insert, retain, get-insert, IsUnique}
use text.Mathlib.TextEquality.{eq_iff}
use my_domain_core.Model.{Peer, RegistryDevice}
use my_domain_core.Ctx.{Ctx, emit, record_effect}
use my_domain_core.Engine.Peers.{
  is_registry, peer_of, insert_devices, apply_registry_peers, emit_peers,
}

-- The last device of the list with that id.
abbrev pub listed : List RegistryDevice → String → Option RegistryDevice
listed [] node = none
listed (d ∷ ds) node = elim (listed ds node) [
  | some later ↦ some later
  | none ↦ if d.node_id == node then some d else none
]

-- A peer that the registry did not list.
abbrev pub own_peer : Option Peer → Option Peer
own_peer none = none
own_peer (some p) = if is_registry p.source then none else some p

-- The registry's word on a node, else what was known of it otherwise.
abbrev pub merged : Option RegistryDevice → Option Peer → Option Peer
merged (some d) known = some (peer_of d)
merged none known = own_peer known

abbrev listed_or : Option RegistryDevice → Option Peer → Option Peer
listed_or (some d) known = some (peer_of d)
listed_or none known = known

get-insert_devices :
    (ds : List RegistryDevice) (m : Map String Peer) (node : String)
    → get (insert_devices ds m) node ≡ listed_or (listed ds node) (get m node)
unfolding insert_devices
get-insert_devices [] m node = refl
get-insert_devices (d ∷ ds) m node = ground (
  arith,
  get-insert_devices ds (insert m d.node_id (peer_of d)) node,
  get-insert m d.node_id node (peer_of d),
)

abbrev keeps : String → Peer → Bool
keeps id p = not (is_registry p.source)

get-retain_absent :
    (m : Map String Peer) (node : String) → get m node ≡ none → get (retain keeps m) node ≡ none
unfolding retain get
get-retain_absent [] node e = refl
get-retain_absent ((j, p) ∷ m) node e = ground (arith, get-retain_absent m node, e)

get-retain :
    (m : Map String Peer) (node : String)
    → IsUnique m
    → get (retain keeps m) node ≡ own_peer (get m node)
unfolding retain get
get-retain [] node u = refl
get-retain ((j, p) ∷ m) node u =
    ground (arith, get-retain m node u.1, get-retain_absent m node, u.0, eq_iff j node)

-- After a fetch the table has, for every node, the last device that the registry lists under its id;
-- and for a node that it does not list, the peer of before if it was found on the LAN or added by
-- hand, and none if it came from the registry. The keys of the table before are distinct.
pub get-apply_registry_peers :
    (devices : List RegistryDevice) (s : Ctx) (node : String)
    → IsUnique s.peers
    → get (apply_registry_peers devices s).peers node
      ≡ merged (listed devices node) (get s.peers node)
unfolding apply_registry_peers emit_peers emit record_effect
get-apply_registry_peers devices s node u =
    ground
      (arith, get-insert_devices devices (retain keeps s.peers) node, get-retain s.peers node u)
