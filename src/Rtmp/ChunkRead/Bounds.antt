-- ===== src/Rtmp/ChunkRead/Bounds.antt =====
-- What the chunk reader (3rd/librtmp/source/rtmp-chunk-read.c) writes stays within the parser's
-- buffer of MAX_CHUNK_HEADER bytes and within the payload buffers.
pub mod Turns
pub mod Loop
use seastar_live.Prelude.{
  ℕ, zero, suc, ◌+◌, ◌-◌, ◌≤◌, ◌≡◌, refl, List, [], ◌∷◌, ◌++◌, Option, none, some, Bool, true,
  false, arith, min, ◌%◌, length, length-append, length-take, take, drop, get_or, set, ◌&&◌, ◌||◌,
  not, Bool-cases, Option-cases, inl, inr, if◌then◌else◌, leb, ltb, ◌==◌,
}
use seastar_live.Prelude.Int.{ℤ, pos, eqb_ℤ}
use seastar_live.Prelude.Bytes.{◌>>=◌}
use seastar_live.Rtmp.ChunkHeader.{ChunkHeader, basic_header_read, message_header_read, header_size}
use seastar_live.Rtmp.Packet.{Packet, zero_packet, packet_find, packet_create}
use seastar_live.Rtmp.Control.{Rtmp}
use seastar_live.Rtmp.ChunkRead.{
  resume, after_turn, ParserState, turn_in, start_at, allocated, Reader, Turn, parse_init,
  parse_basic_header, parse_message_header, parse_extended_timestamp, parse_payload, stop, go,
  rewind, fill, packet_parse, parse_into, parse_found, packet_alloc, turn, turn_init,
  turn_basic_header, turn_message_header, start_payload, started, handled_turn, extended_at,
  payload_at, with_parser, with_packet, with_state, turn_extended_timestamp, finish_payload,
  turn_payload, chunk_read, timed, fmt_of,
}

-- What is written of a packet's payload lies in its buffer.
unfoldable pub Within : Packet → Type 0
Within p = p.bytes ≤ p.capacity

unfoldable pub AllWithin : List Packet → Type 0
AllWithin [] = Unit
AllWithin (p ∷ ps) = Within p × AllWithin ps

pub record IsReader (c : Reader) : Type 0 where
  pub buffer_ok : length c.parser.buffer ≤ 18
  pub basic_ok : c.parser.basic_bytes ≤ 3
  pub packets_ok : AllWithin c.in_packets

pub get_or-Within : (ps : List Packet) (i : ℕ) → AllWithin ps → Within (get_or ps i zero_packet)
unfolding AllWithin Within
get_or-Within [] i v = omega arith
get_or-Within (p ∷ ps) zero (v, vs) = v
get_or-Within (p ∷ ps) (suc i) (v, vs) = get_or-Within ps i vs

pub set-AllWithin :
    (ps : List Packet) (i : ℕ) (p : Packet) → AllWithin ps → Within p → AllWithin (set ps i p)
unfolding AllWithin
set-AllWithin [] i p v w = v
set-AllWithin (q ∷ ps) zero p (v, vs) w = (w, vs)
set-AllWithin (q ∷ ps) (suc i) p (v, vs) w = (v, set-AllWithin ps i p vs w)

pub IsTurn : {S : Type 0} → Turn S → Type 0
IsTurn (stop r c s) = IsReader c
IsTurn (go c s rest) = IsReader c
IsTurn (rewind e c s rest) = IsReader c

pub fill-bound :
    (size n : ℕ) (buffer data' : List ℕ)
    → size ≤ n
    → length buffer ≤ n
    → length (fill size buffer data').0 ≤ n
fill-bound size n buffer data' h b = omega (
  arith,
  length-append buffer (take (size - length buffer) data'),
  length-take (size - length buffer) data',
)

pub header_size-bound : (fmt : ℕ) → header_size fmt ≤ 11
unfolding header_size
header_size-bound fmt = ground arith

-- A condition on what an option holds.
pub IsSome {ℓ κ} : {A : Type ℓ} → (A → Type κ) → Option A → Type κ
IsSome P none = Unit
IsSome P (some a) = P a

pub IsSome-some {ℓ κ} :
    {A : Type ℓ} (P : A → Type κ) (x : Option A) (a : A) → x ≡ some a → IsSome P x → P a
unfolding IsSome
IsSome-some P x a e h = rw e at h

pub IsSome-map {ℓ κ μ} :
    {A : Type ℓ} {B : Type κ} (P : B → Type μ) (x : Option A) (f : A → B)
    → ((a : A) → P (f a))
    → IsSome P (x >>= λ a. some (f a))
unfolding IsSome
IsSome-map P none f h = tt
IsSome-map P (some a) f h = h a

pub Parsed : Option ℕ × List Packet → Type 0
Parsed (i, ps) = AllWithin ps

pub parse_into-Parsed :
    (ps : List Packet) (k cid fmt : ℕ) (rest : List ℕ)
    → AllWithin ps
    → IsSome Parsed (parse_into ps k cid fmt rest)
unfolding parse_into Within IsSome Parsed
parse_into-Parsed ps k cid fmt rest v =
    let pkt = get_or ps k zero_packet in
    elim (Option-cases (message_header_read rest (record pkt.header { cid = cid; fmt = fmt }))) [
      | inl p ↦ rw p tt
      | inr (a, p) ↦ rw p (set-AllWithin ps k _ v (get_or-Within ps k v))
    ]

pub parse_found-Parsed :
    (ps : List Packet) (found created : Option ℕ) (cid fmt : ℕ) (rest : List ℕ)
    → AllWithin ps
    → IsSome Parsed (parse_found ps found created cid fmt rest)
unfolding parse_found Parsed IsSome
parse_found-Parsed ps (some i) created cid fmt rest v = parse_into-Parsed ps i cid fmt rest v
parse_found-Parsed ps none (some i) cid fmt rest v =
    elim (Bool-cases (not (fmt == 0) && not (fmt == 1))) [
      | inl b ↦ rw b v
      | inr b ↦ rw b (parse_into-Parsed ps i cid fmt rest v)
    ]
parse_found-Parsed ps none none cid fmt rest v = v

pub packet_parse-Parsed :
    (ps : List Packet) (buffer : List ℕ) → AllWithin ps → IsSome Parsed (packet_parse ps buffer)
unfolding packet_parse IsSome
packet_parse-Parsed ps buffer v = elim (Option-cases (basic_header_read buffer)) [
  | inl p ↦ rw p tt
  | inr ((n, fmt, cid), p) ↦ rw p (parse_found-Parsed ps _ _ cid fmt (drop n buffer) v)
]

pub IsDone : {S : Type 0} → ℤ × Reader × S → Type 0
IsDone (r, c, s) = IsReader c

-- A share of the rest of the message fits in the buffer that the checks have passed.
pub payload-bound :
    (pkt : Packet) (size n : ℕ)
    → (not pkt.has_payload
        || (ltb pkt.capacity pkt.bytes
            || (ltb pkt.header.length pkt.bytes || ltb pkt.capacity pkt.header.length)))
      ≡ false
    → n ≤ pkt.header.length - pkt.bytes
    → pkt.bytes + n ≤ pkt.capacity
payload-bound pkt size n b h = ground arith
