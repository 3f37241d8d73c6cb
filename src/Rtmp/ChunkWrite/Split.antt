-- ===== src/Rtmp/ChunkWrite/Split.antt =====
-- The chunks that `rtmp_chunk_write` (3rd/librtmp/source/rtmp-chunk-write.c) sends.
use seastar_live.Prelude.{
  ℕ, zero, suc, ◌≤◌, ◌<◌, ◌≡◌, ◌≢◌, refl, ap, ◌∙◌, List, [], ◌∷◌, ◌++◌, append-nil, append_assoc,
  none, some, Bool-cases, Option-cases, inl, inr, arith, take, drop, length, length-take,
  length-drop, take-append-drop,
}
use seastar_live.Prelude.Int.{ℤ, pos, eqb_ℤ}
use seastar_live.Rtmp.ChunkHeader.{ChunkHeader}
use seastar_live.Rtmp.ChunkWrite.{
  header_zip, send_chunks, chunk_write, first_chunk_header, next_chunk_header,
}
use seastar_live.Rtmp.Packet.{Packet}

-- A chunk as `send` gets it: its header bytes and its part of the payload.
abbrev pub Chunk : Type 0
Chunk = List ℕ × List ℕ

abbrev pub bodies : List Chunk → List ℕ
bodies [] = []
bodies ((p, b) ∷ cs) = b ++ bodies cs

-- Every chunk carries 1 to `size` bytes of the payload.
abbrev pub IsFitting : ℕ → List Chunk → Type 0
IsFitting size [] = Unit
IsFitting size ((p, b) ∷ cs) = (0 < length b) × (length b ≤ size) × IsFitting size cs

-- The first header is `p`, and all others are `q`.
abbrev pub HeadedBy : List ℕ → List ℕ → List Chunk → Type 0
HeadedBy p q [] = Unit
HeadedBy p q ((r, b) ∷ cs) = (r ≡ p) × HeadedBy q q cs

-- A `send` that always succeeds and keeps what it is given.
abbrev pub keep_chunk : List ℕ → List ℕ → List Chunk → ℤ × List Chunk
keep_chunk p b sent = (pos 0, sent ++ ((p, b) ∷ []))

pub record Sends (size : ℕ) (p q payload : List ℕ) (cs : List Chunk) : Type 0 where
  pub whole : bodies cs ≡ payload
  pub fitting : IsFitting size cs
  pub headed : HeadedBy p q cs

send_chunks-keep :
    (fuel size : ℕ) (h : ChunkHeader) (p payload : List ℕ) (sent : List Chunk)
    → 0 < size
    → length payload ≤ fuel
    → (cs : List Chunk) × (send_chunks keep_chunk fuel size h p payload sent
        ≡ some (pos 0, sent ++ cs))
      × Sends size p (next_chunk_header h) payload cs
unfolding send_chunks
send_chunks-keep fuel size h p [] sent n f =
    ([], rw append-nil, record { whole = refl; fitting = tt; headed = tt })
send_chunks-keep zero size h p (b ∷ bs) sent n f = absurd (omega arith)
send_chunks-keep (suc fuel) size h p (b ∷ bs) sent n f =
    let body = take size (b ∷ bs) in
    let (cs, e, s) =
      send_chunks-keep fuel size h (next_chunk_header h) (drop size (b ∷ bs))
        (sent ++ ((p, body) ∷ [])) n (omega (arith, length-drop size (b ∷ bs))) in
    (
      (p, body) ∷ cs,
      e ∙ ap (λ l. some (pos 0, l)) (append_assoc sent ((p, body) ∷ []) cs),
      record {
        whole = ap (λ l. body ++ l) s.whole ∙ take-append-drop size (b ∷ bs);
        fitting = (
          omega (arith, length-take size (b ∷ bs)),
          omega (arith, length-take size (b ∷ bs)),
          s.fitting,
        );
        headed = (refl, s.headed);
      },
    )

-- Over a connection that takes everything, a message whose chunk stream is known, of a length
-- that 24 bits hold (and is not the largest), goes out whole: the payload parts of the chunks, put
-- together, are its first `length` bytes; each has 1 to `size` bytes; the first has the full header and all others
-- the short one. A fuel of the payload's length is enough, for any chunk size but 0.
pub chunk_write-Sends :
    (fuel size : ℕ) (pkts pkts' : List Packet) (h z : ChunkHeader) (payload : List ℕ)
    → 0 < size
    → length payload ≤ fuel
    → header_zip pkts h ≡ some (z, pkts')
    → z.length < 0xffffff
    → (cs : List Chunk) × (chunk_write keep_chunk fuel size pkts h payload []
        ≡ some (pos 0, pkts', cs))
      × Sends size (first_chunk_header z) (next_chunk_header z) (take z.length payload) cs
unfolding chunk_write
chunk_write-Sends fuel size pkts pkts' h z payload n f e k =
    let (cs, r, s) =
      send_chunks-keep fuel size z (first_chunk_header z) (take z.length payload) [] n
        (omega (arith, length-take z.length payload)) in
    (cs, written cs r, s)
  where
    written :
        (cs : List Chunk)
        → send_chunks keep_chunk fuel size z (first_chunk_header z) (take z.length payload) []
          ≡ some (pos 0, cs)
        → chunk_write keep_chunk fuel size pkts h payload [] ≡ some (pos 0, pkts', cs)
    written cs r = ground arith

send_chunks_total :
    {S : Type 0} (send : List ℕ → List ℕ → S → ℤ × S) (fuel size : ℕ) (h : ChunkHeader)
    (p payload : List ℕ) (s : S)
    → 0 < size
    → length payload ≤ fuel
    → send_chunks send fuel size h p payload s ≢ none
unfolding send_chunks
send_chunks_total send fuel size h p [] s n f = λ e. cc
send_chunks_total send zero size h p (b ∷ bs) s n f = absurd (omega arith)
send_chunks_total send (suc fuel) size h p (b ∷ bs) s n f =
    let (r, s') = send p (take size (b ∷ bs)) s in
    elim (Bool-cases (eqb_ℤ r (pos 0))) [
      | inl e ↦ rw e (
          send_chunks_total send fuel size h (next_chunk_header h) (drop size (b ∷ bs)) s' n
            (omega (arith, length-drop size (b ∷ bs))))
      | inr e ↦ rw e (λ q. cc)
    ]

-- Whatever `send` does, a fuel of the payload's length lets `rtmp_chunk_write` return, for any chunk
-- size but 0.
pub chunk_write_total :
    {S : Type 0} (send : List ℕ → List ℕ → S → ℤ × S) (fuel size : ℕ) (pkts : List Packet)
    (h : ChunkHeader) (payload : List ℕ) (s : S)
    → 0 < size
    → length payload ≤ fuel
    → chunk_write send fuel size pkts h payload s ≢ none
unfolding chunk_write
chunk_write_total send fuel size pkts h payload s n f = elim (Option-cases (header_zip pkts h)) [
  | inl e ↦ ground arith
  | inr ((z, pkts'), e) ↦ ground (
    arith,
    send_chunks_total send fuel size z (first_chunk_header z) (take z.length payload) s n
        (omega (arith, length-take z.length payload)),
  )
]
