-- ===== src/Tests/Chunks.antt =====
-- The tests of the chunking of transport/punch.rs.
use my_domain_core.Prelude.{
  nat_eq, string_eq, length, replicate, length-replicate, ℕ, ◌%◌, ◌≡◌, refl, sym, ◌∙◌, true, Option,
  none, some, List, [], ◌∷◌, arith,
}
use my_domain_core.Prelude.Map.{get}
use my_domain_core.Transport.Chunk.{chunks, chunks_loop, packets, send_chunked}
use my_domain_core.Transport.Chunk.Split.{length-chunks}
use my_domain_core.Transport.Reasm.{Pending, reasm_feed, Reasm}
use my_domain_core.Transport.Reasm.Valid.{IsPending}
use my_domain_core.Transport.Reasm.Invariant.{reasm_feed-IsPending}
use my_domain_core.Transport.Reasm.Delivery.{deliver, select, deliver-packets}
use my_domain_core.Transport.Reasm.Oversize.{send_chunked_oversize}

pub empty-IsPending : IsPending []
unfolding get
empty-IsPending = record { entries = λ id r e. cc; bounded = omega arith }

-- The second of two chunks of message 7.
abbrev second : List ℕ
second = 0x6d ∷ 0x64 ∷ 0x63 ∷ 0x6b ∷ 0 ∷ 0 ∷ 0 ∷ 7 ∷ 0 ∷ 2 ∷ 0 ∷ 1 ∷ 99 ∷ []

reasm_feed-IsPending_example :
    (pending : Pending) × (out : Option (List ℕ)) × (reasm_feed [] second ≡ some (pending, out))
    × IsPending pending
reasm_feed-IsPending_example = reasm_feed-IsPending [] second empty-IsPending (omega arith)

-- 1500 bytes: two chunks, which arrive in the other order.
abbrev message : List ℕ
message = replicate 1500 5

two_chunks : length (chunks message) ≡ 2
unfolding chunks chunks_loop
two_chunks = refl

absent : get {K = ℕ} {V = Reasm} [] 7 ≡ none
unfolding get
absent = refl

deliver-packets_example :
    (last : Pending) × (deliver [] (select (1 ∷ 0 ∷ []) (packets 7 message))
      ≡ some (last, message ∷ []))
    × (get last 7 ≡ none)
deliver-packets_example =
    deliver-packets [] 7 message (1 ∷ 0 ∷ []) (omega arith) (omega (arith, two_chunks)) absent
      (sym two_chunks) (omega arith) (omega (arith, two_chunks))

-- 64 MiB: 65536 chunks.
mebibytes_64 : ℕ
mebibytes_64 = 67108864

huge : List ℕ
huge = replicate mebibytes_64 0

length-huge : length huge ≡ 67108864
unfolding huge
length-huge = length-replicate mebibytes_64 0 ∙ size
  where
    size : mebibytes_64 ≡ 67108864
    size = unfold mebibytes_64 in refl

chunks-huge : length (chunks huge) % 65536 ≡ 0
chunks-huge = omega (arith, length-huge, length-chunks huge (omega (arith, length-huge)))

send_chunked_oversize_example :
    (send_chunked (λ _. true) 7 huge ≡ (packets 7 huge, true))
    × (deliver [] (packets 7 huge) ≡ some ([], []))
send_chunked_oversize_example = send_chunked_oversize [] 7 huge chunks-huge
