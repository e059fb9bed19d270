-- ===== src/Engine/Watch.antt =====
-- engine.rs: one round of each of the engine's own threads: the heartbeat, the clipboard watcher and
-- the network watcher. The first sleeps 5 seconds between rounds, the second one, the third 5.
pub mod Heartbeat
use my_domain_core.Prelude.{
  ltb, if◌then◌else◌, nat_eq, string_eq, ◌==◌, ◌/=◌, ℕ, ◌-◌, String, Bool, true, false, ◌&&◌, ◌||◌,
  none, some, List, [], ◌∷◌,
}
use my_domain_core.Text.{is_empty}
use my_domain_core.Model.{TransportKind, ws}
use my_domain_core.Model.Json.{object, field, end, string}
use my_domain_core.Host.{Host}
use my_domain_core.Ctx.{Ctx, now_secs, next_turn}
use my_domain_core.Transport.Live.{drop_live, live_snapshot}
use my_domain_core.Transport.Send.{send_control_to, broadcast_control}
use my_domain_core.Features.{read_clipboard}

-- `TIMEOUT`, in seconds.
abbrev pub timeout : ℕ
timeout = 15

abbrev pub is_ws : TransportKind → Bool
is_ws ws = true
is_ws _ = false

-- No sign of life for longer than the timeout.
unfoldable pub is_stale : ℕ → ℕ → Bool
is_stale now last_seen = ltb timeout (now - last_seen)

module _ (h : Host) where
  unfoldable pub beat : ℕ → String → String → TransportKind → ℕ → Ctx → Ctx
  beat now ping node_id kind last_seen s =
      if is_ws kind
      then s
      else if is_stale now last_seen
      then drop_live node_id s
      else send_control_to h node_id ping s

  -- The round over the snapshot that it took at its start.
  unfoldable pub beats : ℕ → String → List (String × TransportKind × ℕ) → Ctx → Ctx
  beats now ping [] s = s
  beats now ping ((node_id, kind, last_seen) ∷ links) s =
      beats now ping links (beat now ping node_id kind last_seen s)

  unfoldable pub heartbeat : Ctx → Ctx
  heartbeat s =
      let ping = h.json_to_string (
        object (field "type" (string "p2p_ping") (field "from" (string s.identity.node_id) end))) in
      beats (now_secs s) ping (live_snapshot s) s

  -- A clipboard text that is new is sent to every peer.
  unfoldable pub share_clip : String → Ctx → Ctx
  share_clip cur s =
      let news = h.json_to_string (
        object (
          field "type" (string "clipboard")
            (field "content" (string cur) (field "from" (string s.identity.node_id) end)))) in
      if is_empty cur || s.clip_last == cur
      then s
      else broadcast_control h news (record s { clip_last = cur })

  unfoldable pub watch_clipboard : Ctx → Ctx
  watch_clipboard s =
      let read : Ctx = elim (read_clipboard h s) [
        | none ↦ next_turn s
        | some cur ↦ share_clip cur (next_turn s)
      ] in
      if s.clip_active then read else s

  unfoldable pub watch_network : Ctx → Ctx
  watch_network s =
      let current = h.local_ip s.turn in
      if s.identity.ip /= current && current /= "0.0.0.0"
      then next_turn (record s { identity = record s.identity { ip = current } })
      else next_turn s
