-- ===== src/Discovery/Bind/Joins.antt =====
-- discovery.rs, `bind_multicast`: what a failing join does.
use my_domain_core.Prelude.{
  nat_eq, string_eq, ℕ, String, ◌≡◌, refl, ap, ◌∙◌, Bool, true, false, none, some, List, [], ◌∷◌,
}
use my_domain_core.Prelude.Result.{Result, ok, err, ◌>>=◌}
use my_domain_core.Net.{Ipv4Addr}
use my_domain_core.Model.{IfaceMode, all, single}
use my_domain_core.Host.{
  Host, SocketCall, new_socket, reuse_address, reuse_port, bind_port, join_group, multicast_if,
  multicast_loop, try_clone, bind_any,
}
use my_domain_core.Discovery.{mcast_group, discovery_port}
use my_domain_core.Discovery.Bind.{require, join_groups, bind_multicast}

abbrev pub is_join : SocketCall → Bool
is_join (join_group group iface) = true
is_join (bind_port port) = false
is_join (multicast_if iface) = false
is_join new_socket = false
is_join reuse_address = false
is_join reuse_port = false
is_join multicast_loop = false
is_join try_clone = false
is_join bind_any = false

-- The calls before the joins.
abbrev pub opened : List SocketCall
opened = bind_port discovery_port ∷ reuse_port ∷ reuse_address ∷ new_socket ∷ []

module _ (h : Host) (turn : ℕ) where
  required {ℓ} :
      {A : Type ℓ} (c : SocketCall) (done : List SocketCall)
      (rest : List SocketCall → Result String A)
      → h.socket_call turn done c ≡ none
      → (require h turn c done >>= rest) ≡ rest (c ∷ done)
  required c done rest works =
      ap (λ x. elim x [ none ↦ ok (c ∷ done) | some e ↦ err e ] >>= rest) works

  last :
      (c : SocketCall) (done : List SocketCall)
      → h.socket_call turn done c ≡ none
      → require h turn c done ≡ ok (c ∷ done)
  last c done works = ap (λ x. elim x [ none ↦ ok (c ∷ done) | some e ↦ err e ]) works

  refused {ℓ} :
      {A : Type ℓ} (c : SocketCall) (done : List SocketCall)
      (rest : List SocketCall → Result String A) (e : String)
      → h.socket_call turn done c ≡ some e
      → (require h turn c done >>= rest) ≡ err e
  refused c done rest e fails =
      ap (λ x. elim x [ none ↦ ok (c ∷ done) | some e ↦ err e ] >>= rest) fails

  -- The calls before the joins succeed.
  opens :
      (mode : IfaceMode)
      → ((done : List SocketCall) (c : SocketCall)
          → is_join c ≡ false
          → h.socket_call turn done c ≡ none)
      → bind_multicast h turn mode
        ≡ (join_groups h turn mode opened >>= (λ joined. require h turn multicast_loop joined))
  unfolding bind_multicast
  opens mode works =
      required new_socket [] _ (works _ _ refl)
      ∙ required reuse_address _ _ (works _ _ refl)
      ∙ required reuse_port _ _ (works _ _ refl)
      ∙ required (bind_port discovery_port) _ _ (works _ _ refl)

  -- If every call but the joins succeeds, `bind_multicast` over all interfaces succeeds, whichever joins
  -- fail; over a single interface a failing join is its error.
  pub bind_multicast_joins :
      (addrs : List Ipv4Addr) (iface : Ipv4Addr) (e : String)
      → ((done : List SocketCall) (c : SocketCall)
          → is_join c ≡ false
          → h.socket_call turn done c ≡ none)
      → h.socket_call turn opened (join_group mcast_group iface) ≡ some e
      → ((done : List SocketCall) × (bind_multicast h turn (all addrs) ≡ ok done))
        × (bind_multicast h turn (single iface) ≡ err e)
  unfolding join_groups
  bind_multicast_joins addrs iface e works fails = (
    (_, opens (all addrs) works ∙ last multicast_loop _ (works _ multicast_loop refl)),
    opens (single iface) works
        ∙ ap (λ m. m >>= (λ joined. require h turn multicast_loop joined))
            (refused (join_group mcast_group iface) opened _ e fails),
  )
