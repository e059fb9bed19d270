-- ===== src/Transport/Chunk.antt =====
-- transport/punch.rs: splitting a message into chunk datagrams (`send_chunked`).
pub mod Split
use my_domain_core.Prelude.{
  ℕ, zero, suc, ◌%◌, List, [], ◌∷◌, ◌++◌, Bool, true, false, length, take, drop, be16, be32,
  if◌then◌else◌,
}

-- b"mdck"
abbrev pub chunk_magic : List ℕ
chunk_magic = 0x6d ∷ 0x64 ∷ 0x63 ∷ 0x6b ∷ []

abbrev pub chunk_hdr : ℕ
chunk_hdr = 12

abbrev pub chunk_payload : ℕ
chunk_payload = 1024

-- `data.chunks(CHUNK_PAYLOAD)`; each round takes a byte at least, so the length is enough fuel.
unfoldable pub chunks_loop : ℕ → List ℕ → List (List ℕ)
chunks_loop fuel [] = []
chunks_loop zero (b ∷ bs) = []
chunks_loop (suc fuel) (b ∷ bs) =
    take chunk_payload (b ∷ bs) ∷ chunks_loop fuel (drop chunk_payload (b ∷ bs))

-- An empty message still has one, empty, chunk.
unfoldable pub chunks : List ℕ → List (List ℕ)
unfolding chunks_loop
chunks [] = [] ∷ []
chunks (b ∷ bs) = chunks_loop (length (b ∷ bs)) (b ∷ bs)

-- The datagram of chunk `i`; `as u16` keeps the low 16 bits of the count and of the index.
unfoldable pub packet : ℕ → ℕ → ℕ → List ℕ → List ℕ
packet msg_id total i chunk =
    chunk_magic ++ (be32 msg_id ++ (be16 (total % 65536) ++ (be16 (i % 65536) ++ chunk)))

unfoldable pub packets_from : ℕ → ℕ → ℕ → List (List ℕ) → List (List ℕ)
packets_from msg_id total i [] = []
packets_from msg_id total i (c ∷ cs) =
    packet msg_id total i c ∷ packets_from msg_id total (suc i) cs

unfoldable pub packets : ℕ → List ℕ → List (List ℕ)
unfolding packets_from chunks
packets msg_id data' = packets_from msg_id (length (chunks data')) 0 (chunks data')

-- `socket.send_to(&pkt, peer)?` for each packet: what was sent, and whether all of it was.
unfoldable pub send_all : (List ℕ → Bool) → List (List ℕ) → List (List ℕ) × Bool
send_all send_ok [] = ([], true)
send_all send_ok (p ∷ ps) =
    let (sent, done) = send_all send_ok ps in if send_ok p then (p ∷ sent, done) else ([], false)

-- `send_ok` says which datagrams the socket accepts.
unfoldable pub send_chunked : (List ℕ → Bool) → ℕ → List ℕ → List (List ℕ) × Bool
unfolding send_all packets
send_chunked send_ok msg_id data' = send_all send_ok (packets msg_id data')
