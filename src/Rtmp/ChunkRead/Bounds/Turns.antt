-- ===== src/Rtmp/ChunkRead/Bounds/Turns.antt =====
-- The bounds of the reader's buffers over one round of the loop of `rtmp_chunk_read`
-- (3rd/librtmp/source/rtmp-chunk-read.c).
use seastar_live.Prelude.{
  ℕ, ◌+◌, ◌-◌, ◌≤◌, List, ◌∷◌, Option, none, some, Bool, arith, min, ◌%◌, length, length-take, take,
  drop, get_or, ◌&&◌, ◌||◌, not, Bool-cases, Option-cases, inl, inr, if◌then◌else◌, leb, ltb, ◌==◌,
}
use seastar_live.Prelude.Int.{ℤ, pos, eqb_ℤ}
use seastar_live.Rtmp.ChunkHeader.{ChunkHeader, header_size}
use seastar_live.Rtmp.Packet.{Packet, zero_packet}
use seastar_live.Rtmp.Control.{Rtmp}
use seastar_live.Rtmp.ChunkRead.{
  ParserState, turn_in, start_at, allocated, Reader, parse_init, parse_basic_header,
  parse_message_header, parse_extended_timestamp, parse_payload, fill, packet_parse, packet_alloc,
  turn_init, turn_basic_header, turn_message_header, start_payload, started, handled_turn,
  extended_at, payload_at, with_parser, with_packet, with_state, turn_extended_timestamp,
  finish_payload, turn_payload, timed, fmt_of,
}
use seastar_live.Rtmp.ChunkRead.Bounds.{
  Within, IsReader, IsTurn, IsSome, IsSome-some, IsSome-map, Parsed, get_or-Within, set-AllWithin,
  fill-bound, header_size-bound, packet_parse-Parsed, payload-bound,
}

module _ {S : Type 0} (alloc_ok : ℕ → Bool)
    (handler : Rtmp → ChunkHeader → List ℕ → S → Option (ℤ × Rtmp × S)) where
  turn_init-IsTurn :
      (c : Reader) (s : S) (b : ℕ) (input : List ℕ)
      → IsReader c
      → IsTurn (turn_init alloc_ok handler c s b input)
  unfolding turn_init IsTurn
  turn_init-IsTurn c s b input v = record {
    buffer_ok = omega arith;
    basic_ok = ground arith;
    packets_ok = v.packets_ok;
  }

  turn_basic_header-IsTurn :
      (c : Reader) (s : S) (input : List ℕ)
      → IsReader c
      → IsTurn (turn_basic_header alloc_ok handler c s input)
  unfolding turn_basic_header IsTurn
  turn_basic_header-IsTurn c s input v =
      elim (Bool-cases (ltb c.parser.basic_bytes (length c.parser.buffer))) [
        | inl b ↦ rw b v
        | inr b ↦
            let k = v.basic_ok in
            rw b (record {
              buffer_ok =
                  fill-bound c.parser.basic_bytes 18 c.parser.buffer input (omega arith)
                    v.buffer_ok;
              basic_ok = v.basic_ok;
              packets_ok = v.packets_ok;
            })
      ]

  turn_message_header-IsTurn :
      (c : Reader) (s : S) (input : List ℕ)
      → IsReader c
      → IsSome IsTurn (turn_message_header alloc_ok handler c s input)
  unfolding turn_message_header IsTurn IsSome Parsed
  turn_message_header-IsTurn c s input v =
      let size = header_size (fmt_of c.parser.buffer) + c.parser.basic_bytes in
      let buffer = (fill size c.parser.buffer input).0 in
      let k = v.basic_ok in
      let l =
        fill-bound size 18 c.parser.buffer input
          (omega (arith, header_size-bound (fmt_of c.parser.buffer))) v.buffer_ok in
      elim (Bool-cases (ltb size (length c.parser.buffer))) [
        | inl b ↦ rw b v
        | inr b ↦ rw b (elim (Bool-cases (leb size (length buffer))) [
          | inr d ↦ rw d (record { buffer_ok = l; basic_ok = k; packets_ok = v.packets_ok })
          | inl d ↦ rw d (elim (Option-cases (packet_parse c.in_packets buffer)) [
            | inl p ↦ rw p tt
            | inr ((i, pkts), p) ↦
                let w =
                  IsSome-some Parsed _ (i, pkts) p
                    (packet_parse-Parsed c.in_packets buffer v.packets_ok) in
                rw p (record { buffer_ok = l; basic_ok = k; packets_ok = w })
          ])
        ])
      ]

  packet_alloc-Within : (pkt : Packet) → Within pkt → IsSome Within (packet_alloc alloc_ok pkt)
  unfolding packet_alloc IsSome Within
  packet_alloc-Within pkt v = ground arith

  reader-IsReader :
      (c : Reader) (buffer : List ℕ) (i : ℕ) (p : Packet) (state : ParserState)
      → IsReader c
      → length buffer ≤ 18
      → Within p
      → IsReader (with_packet (with_parser c buffer state) i p)
  reader-IsReader c buffer i p state v l w = record {
    buffer_ok = l;
    basic_ok = v.basic_ok;
    packets_ok = set-AllWithin c.in_packets i p v.packets_ok w;
  }

  started-IsTurn :
      (c : Reader) (s : S) (i t : ℕ) (buffer rest : List ℕ) (p : Packet)
      → IsReader c
      → length buffer ≤ 18
      → Within p
      → IsTurn (started alloc_ok handler c s i t buffer rest p)
  unfolding started IsTurn
  started-IsTurn c s i t buffer rest p v l w =
      let ok = reader-IsReader c buffer i p parse_payload v l w in
      let pkt = get_or c.in_packets i zero_packet in
      elim (Bool-cases
        (pkt.header.timestamp == 0xffffff && (pkt.header.fmt == 3 && not (t == pkt.delta)))) [
          | inl b ↦ rw b ok
          | inr b ↦ rw b ok
        ]

  allocated-IsTurn :
      (c : Reader) (s : S) (i t : ℕ) (buffer rest : List ℕ) (o : Option Packet)
      → IsReader c
      → length buffer ≤ 18
      → IsSome Within o
      → IsTurn (allocated alloc_ok handler c s i t buffer rest o)
  unfolding allocated IsTurn IsSome Within
  allocated-IsTurn c s i t buffer rest none v l w =
      reader-IsReader c buffer i _ parse_extended_timestamp v l
        (get_or-Within c.in_packets i v.packets_ok)
  allocated-IsTurn c s i t buffer rest (some p) v l w = started-IsTurn c s i t buffer rest p v l w

  start_at-IsTurn :
      (c : Reader) (s : S) (i t : ℕ) (buffer rest : List ℕ)
      → IsReader c
      → length buffer ≤ 18
      → IsTurn (start_at alloc_ok handler c s i t buffer rest)
  unfolding start_at IsTurn Within
  start_at-IsTurn c s i t buffer rest v l =
      let w = get_or-Within c.in_packets i v.packets_ok in
      let pkt = get_or c.in_packets i zero_packet in
      elim (Bool-cases (pkt.bytes == 0)) [
        | inl b ↦
            rw b (allocated-IsTurn c s i t buffer rest _ v l (packet_alloc-Within (timed pkt t) w))
        | inr b ↦ rw b (started-IsTurn c s i t buffer rest pkt v l w)
      ]

  start_payload-IsTurn :
      (c : Reader) (s : S) (i : ℕ) (buffer rest : List ℕ)
      → IsReader c
      → length buffer ≤ 18
      → IsSome IsTurn (start_payload alloc_ok handler c s i buffer rest)
  unfolding start_payload IsTurn IsSome Within
  start_payload-IsTurn c s i buffer rest v l =
      IsSome-map IsTurn _ _ (λ t. start_at-IsTurn c s i t buffer rest v l)

  extended_at-IsTurn :
      (c : Reader) (s : S) (i : ℕ) (input : List ℕ)
      → IsReader c
      → IsSome IsTurn (extended_at alloc_ok handler c s i input)
  unfolding extended_at IsTurn IsSome
  extended_at-IsTurn c s i input v =
      let pkt = get_or c.in_packets i zero_packet in
      let extra : ℕ = if pkt.header.timestamp == 0xffffff then 4 else 0 in
      let size = header_size pkt.header.fmt + c.parser.basic_bytes + extra in
      let k = v.basic_ok in
      let x : extra ≤ 4 = ground arith in
      let l =
        fill-bound size 18 c.parser.buffer input (omega (arith, header_size-bound pkt.header.fmt))
          v.buffer_ok in
      elim (Bool-cases (ltb 0xffffff pkt.header.timestamp || ltb size (length c.parser.buffer))) [
        | inl b ↦ rw b v
        | inr b ↦ rw b (elim (Bool-cases (leb size (length (fill size c.parser.buffer input).0))) [
          | inl d ↦ rw d (start_payload-IsTurn c s i _ _ v l)
          | inr d ↦ rw d (record { buffer_ok = l; basic_ok = k; packets_ok = v.packets_ok })
        ])
      ]

  turn_extended_timestamp-IsTurn :
      (pkt : Option ℕ) (c : Reader) (s : S) (input : List ℕ)
      → IsReader c
      → IsSome IsTurn (turn_extended_timestamp alloc_ok handler pkt c s input)
  unfolding turn_extended_timestamp IsTurn IsSome
  turn_extended_timestamp-IsTurn none c s input v = v
  turn_extended_timestamp-IsTurn (some i) c s input v = extended_at-IsTurn c s i input v

  handled_turn-IsTurn :
      (c : Reader) (r : ℤ) (s : S) (rest : List ℕ)
      → IsReader c
      → IsTurn (handled_turn alloc_ok handler c r s rest)
  unfolding handled_turn IsTurn
  handled_turn-IsTurn c r s rest v = elim (Bool-cases (eqb_ℤ r (pos 0))) [
    | inl b ↦ rw b v
    | inr b ↦ rw b v
  ]

  finish_payload-IsTurn :
      (c : Reader) (s : S) (i : ℕ) (pkt : Packet) (rest : List ℕ)
      → IsReader c
      → Within pkt
      → IsSome IsTurn (finish_payload alloc_ok handler c s i pkt rest)
  unfolding finish_payload IsTurn IsSome Within
  finish_payload-IsTurn c s i pkt rest v w =
      let whole = reader-IsReader c c.parser.buffer i pkt c.parser.state v v.buffer_ok w in
      let next = reader-IsReader c c.parser.buffer i pkt parse_init v v.buffer_ok w in
      let empty = record pkt { bytes = 0 } in
      let done = reader-IsReader c c.parser.buffer i empty parse_init v v.buffer_ok (omega arith) in
      elim (Bool-cases (leb pkt.header.length pkt.bytes)) [
        | inr b ↦ rw b (elim (Bool-cases (pkt.bytes % c.rtmp.in_chunk_size == 0)) [
          | inl d ↦ rw d next
          | inr d ↦
              rw d
                (elim (Bool-cases (length rest == 0)) [ inl e ↦ rw e whole | inr e ↦ rw e whole ])
        ])
        | inl b ↦ rw b (elim (Bool-cases (not (pkt.bytes == pkt.header.length))) [
          | inl d ↦ rw d whole
          | inr d ↦ rw d (
              IsSome-map IsTurn
                (handler c.rtmp (record pkt.header { timestamp = pkt.clock }) pkt.payload s) _
                (λ (r, rtmp, s').
                  handled_turn-IsTurn
                    (record (with_state (with_packet c i empty) parse_init) { rtmp = rtmp }) r s'
                    rest
                    (record {
                      buffer_ok = done.buffer_ok;
                      basic_ok = done.basic_ok;
                      packets_ok = done.packets_ok;
                    })))
        ])
      ]

  payload_at-IsTurn :
      (c : Reader) (s : S) (i : ℕ) (input : List ℕ)
      → IsReader c
      → IsSome IsTurn (payload_at alloc_ok handler c s i input)
  unfolding payload_at IsTurn IsSome Within
  payload_at-IsTurn c s i input v =
      let pkt = get_or c.in_packets i zero_packet in
      let n = c.rtmp.in_chunk_size in
      let size = min (n - pkt.bytes % n) (pkt.header.length - pkt.bytes) in
      let bad =
        not pkt.has_payload
        || (ltb pkt.capacity pkt.bytes
            || (ltb pkt.header.length pkt.bytes || ltb pkt.capacity pkt.header.length)) in
      elim (Bool-cases bad) [
        | inl b ↦ rw b v
        | inr b ↦ rw b (elim (Bool-cases (n == 0)) [
          | inl d ↦ rw d tt
          | inr d ↦
              let w : pkt.bytes + length (take size input) ≤ pkt.capacity =
                payload-bound pkt size (length (take size input)) b
                  (omega (arith, length-take size input)) in
              rw d (finish_payload-IsTurn c s i _ (drop size input) v w)
        ])
      ]

  turn_payload-IsTurn :
      (pkt : Option ℕ) (c : Reader) (s : S) (input : List ℕ)
      → IsReader c
      → IsSome IsTurn (turn_payload alloc_ok handler pkt c s input)
  unfolding turn_payload IsTurn IsSome
  turn_payload-IsTurn none c s input v = v
  turn_payload-IsTurn (some i) c s input v = payload_at-IsTurn c s i input v

  pub turn_in-IsTurn :
      (state : ParserState) (c : Reader) (s : S) (b : ℕ) (input : List ℕ)
      → IsReader c
      → IsSome IsTurn (turn_in alloc_ok handler state c s b input)
  unfolding turn_in IsSome
  turn_in-IsTurn parse_init c s b input v = turn_init-IsTurn c s b input v
  turn_in-IsTurn parse_basic_header c s b input v = turn_basic_header-IsTurn c s (b ∷ input) v
  turn_in-IsTurn parse_message_header c s b input v = turn_message_header-IsTurn c s (b ∷ input) v
  turn_in-IsTurn parse_extended_timestamp c s b input v =
      turn_extended_timestamp-IsTurn c.parser.pkt c s (b ∷ input) v
  turn_in-IsTurn parse_payload c s b input v = turn_payload-IsTurn c.parser.pkt c s (b ∷ input) v
