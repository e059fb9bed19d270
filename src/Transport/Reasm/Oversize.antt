-- ===== src/Transport/Reasm/Oversize.antt =====
-- transport/punch.rs: what `chunks.len() as u16` does to a message of 65536 chunks or a multiple.
use my_domain_core.Prelude.{
  nat_eq, string_eq, length, ℕ, suc, ◌%◌, ◌≡◌, refl, true, none, some, List, [], ◌∷◌,
}
use my_domain_core.Transport.Chunk.{chunks, packet, packets, packets_from, send_all, send_chunked}
use my_domain_core.Transport.Reasm.{Pending, parse_chunk, feed_chunk, reasm_feed}
use my_domain_core.Transport.Reasm.Delivery.{deliver}

-- A datagram whose header counts no chunk is dropped.
reasm_feed_zero :
    (pending : Pending) (id total i : ℕ) (c : List ℕ)
    → total % 65536 ≡ 0
    → reasm_feed pending (packet id total i c) ≡ some (pending, none)
unfolding reasm_feed parse_chunk packet feed_chunk
reasm_feed_zero pending id total i c h = rw h

deliver_zero :
    (pending : Pending) (id total i : ℕ) (cs : List (List ℕ))
    → total % 65536 ≡ 0
    → deliver pending (packets_from id total i cs) ≡ some (pending, [])
unfolding deliver packets_from
deliver_zero pending id total i [] h = refl
deliver_zero pending id total i (c ∷ cs) h =
    rw (reasm_feed_zero pending id total i c h, deliver_zero pending id total (suc i) cs h)

send_all-true : (ps : List (List ℕ)) → send_all (λ _. true) ps ≡ (ps, true)
unfolding send_all
send_all-true [] = refl
send_all-true (p ∷ ps) = rw (send_all-true ps)

-- A message whose chunks number a multiple of 65536 is lost without an error: `send_chunked` sends
-- every datagram and succeeds, and the receiver drops each of them.
pub send_chunked_oversize :
    (pending : Pending) (id : ℕ) (message : List ℕ)
    → length (chunks message) % 65536 ≡ 0
    → (send_chunked (λ _. true) id message ≡ (packets id message, true))
      × (deliver pending (packets id message) ≡ some (pending, []))
unfolding send_chunked packets
send_chunked_oversize pending id message h = (
  send_all-true (packets id message),
  deliver_zero pending id (length (chunks message)) 0 (chunks message) h,
)
