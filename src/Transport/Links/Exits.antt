-- ===== src/Transport/Links/Exits.antt =====
-- transport/punch.rs and transport/rtc.rs: what the end of one driver does to another's link.
use my_domain_core.Prelude.{
  if◌then◌else◌, nat_eq, string_eq, ℕ, String, ◌≡◌, ◌≢◌, true, false, none, some, arith,
}
use my_domain_core.Prelude.Map.{get, insert, contains_key, get-insert_self}
use my_domain_core.Model.{web_rtc}
use my_domain_core.Ctx.{Ctx}
use my_domain_core.Transport.Live.{drop_live, is_live}
use my_domain_core.Transport.Live.Links.{
  ws_conns-mark_live, is_live-mark_live, ws_conns-drop_live, is_live-drop_live,
}
use my_domain_core.Transport.Links.{owns, remove_link, hang_up, link_stays, link_exit, rtc_register}

pub owns_self :
    (node_id : String) (conn_id : ℕ) (s : Ctx)
    → get s.ws_conns node_id ≡ some conn_id
    → owns s node_id conn_id ≡ true
unfolding owns
owns_self node_id conn_id s e = rw (e, owns) (ground arith)

link_stays_live :
    (node_id : String) (conn_id : ℕ) (s : Ctx)
    → owns s node_id conn_id ≡ true
    → contains_key s.p2p_conns node_id ≡ true
    → link_stays node_id conn_id s ≡ true
unfolding link_stays
link_stays_live node_id conn_id s e f = rw (e, f)

pub owns-newer :
    (node_id : String) (older newer : ℕ) (s : Ctx)
    → get s.ws_conns node_id ≡ some newer
    → newer ≢ older
    → owns s node_id older ≡ false
unfolding owns
owns-newer node_id older newer s e ne = rw (e, owns) (ground (arith, ne))

link_exit_other :
    (node_id : String) (conn_id : ℕ) (s : Ctx)
    → owns s node_id conn_id ≡ false
    → link_exit node_id conn_id s ≡ hang_up conn_id (drop_live node_id s)
unfolding link_exit
link_exit_other node_id conn_id s e = rw e

link_stays_dark :
    (node_id : String) (conn_id : ℕ) (s : Ctx)
    → is_live s node_id ≡ false
    → link_stays node_id conn_id s ≡ false
unfolding link_stays is_live
link_stays_dark node_id conn_id s e = ground (arith, e)

is_live-link_exit :
    (node_id : String) (conn_id : ℕ) (s : Ctx)
    → is_live (link_exit node_id conn_id s) node_id ≡ false
unfolding link_exit hang_up is_live
is_live-link_exit node_id conn_id s =
    is_live-drop_live node_id (if owns s node_id conn_id then remove_link node_id s else s)

-- The exit of an older driver leaves a newer link's entry in `ws_conns`, but takes the node out of
-- the live registry; so the newer link's own test fails as well.
pub link_exit_newer :
    (node_id : String) (older newer : ℕ) (s : Ctx)
    → get s.ws_conns node_id ≡ some newer
    → newer ≢ older
    → (get (link_exit node_id older s).ws_conns node_id ≡ some newer)
      × (is_live (link_exit node_id older s) node_id ≡ false)
      × (link_stays node_id newer (link_exit node_id older s) ≡ false)
unfolding hang_up
link_exit_newer node_id older newer s e ne =
    let dark : is_live (link_exit node_id older s) node_id ≡ false =
      is_live-link_exit node_id older s in
    (
      rw
          (
            link_exit_other node_id older s (owns-newer node_id older newer s e ne),
            ws_conns-drop_live node_id s,
          )
          e,
      dark,
      link_stays_dark node_id newer (link_exit node_id older s) dark,
    )

ws_conns-rtc_register :
    (node_id : String) (conn_id : ℕ) (s : Ctx)
    → get (rtc_register node_id conn_id s).ws_conns node_id ≡ some conn_id
unfolding rtc_register
ws_conns-rtc_register node_id conn_id s =
    rw ws_conns-mark_live (get-insert_self s.ws_conns node_id conn_id)

link_stays-rtc_register :
    (node_id : String) (conn_id : ℕ) (s : Ctx)
    → link_stays node_id conn_id (rtc_register node_id conn_id s) ≡ true
unfolding rtc_register
link_stays-rtc_register node_id conn_id s =
    link_stays_live node_id conn_id (rtc_register node_id conn_id s)
      (owns_self node_id conn_id (rtc_register node_id conn_id s)
        (ws_conns-rtc_register node_id conn_id s))
      (is_live-mark_live node_id (record s { ws_conns = insert s.ws_conns node_id conn_id }) web_rtc
        none)

-- A WebRTC channel that opens while a punched link is up takes over the node's entry. The punched
-- driver then stops, as it should; and its exit stops the new link too, and darkens the node.
pub rtc_takeover_lost :
    (node_id : String) (punch_id rtc_id : ℕ) (s : Ctx)
    → rtc_id ≢ punch_id
    → (link_stays node_id rtc_id (rtc_register node_id rtc_id s) ≡ true)
      × (link_stays node_id punch_id (rtc_register node_id rtc_id s) ≡ false)
      × (link_stays node_id rtc_id (link_exit node_id punch_id (rtc_register node_id rtc_id s))
          ≡ false)
      × (is_live (link_exit node_id punch_id (rtc_register node_id rtc_id s)) node_id ≡ false)
unfolding link_stays
rtc_takeover_lost node_id punch_id rtc_id s ne =
    let taken : get (rtc_register node_id rtc_id s).ws_conns node_id ≡ some rtc_id =
      ws_conns-rtc_register node_id rtc_id s in
    let (kept, dark, stops) =
      link_exit_newer node_id punch_id rtc_id (rtc_register node_id rtc_id s) taken ne in
    (
      link_stays-rtc_register node_id rtc_id s,
      rw (owns-newer node_id punch_id rtc_id (rtc_register node_id rtc_id s) taken ne),
      stops,
      dark,
    )
