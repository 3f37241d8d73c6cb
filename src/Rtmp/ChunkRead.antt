-- ===== src/Rtmp/ChunkRead.antt =====
-- 3rd/librtmp/source/rtmp-chunk-read.c: the state machine that puts messages together from chunks. A
-- turn is one round of the `while` loop; `input` is what is left of the input. `none` is a read
-- outside the parser's buffer, or a chunk size of 0 that is divided by. `assert` is empty, as in a
-- release build. `alloc_ok` is whether `realloc` gives that many bytes.
pub mod Bounds
use seastar_live.Prelude.{
  ℕ, zero, suc, ◌+◌, ◌-◌, ◌*◌, ◌/◌, ◌%◌, ◌^◌, List, [], ◌∷◌, ◌++◌, Option, none, some, Bool, true,
  false, ltb, leb, ◌==◌, ◌||◌, ◌&&◌, not, if◌then◌else◌, take, drop, min, length, get_or, set,
}
use seastar_live.Prelude.Int.{ℤ, pos, negsuc, eqb_ℤ}
use seastar_live.Prelude.Bytes.{◌>>=◌, be_read_uint32}
use seastar_live.Rtmp.ChunkHeader.{ChunkHeader, basic_header_read, message_header_read, header_size}
use seastar_live.Rtmp.Packet.{Packet, zero_packet, packet_find, packet_create}
use seastar_live.Rtmp.Control.{Rtmp}

-- `enum rtmp_parser_state_t`
pub data ParserState : Type 0 where
  parse_init : ParserState
  parse_basic_header : ParserState
  parse_message_header : ParserState
  parse_extended_timestamp : ParserState
  parse_payload : ParserState

-- `buffer` is the buffer's first `bytes` bytes, and `pkt` the index in `in_packets`.
pub record Parser : Type 0 where
  pub buffer : List ℕ
  pub basic_bytes : ℕ
  pub state : ParserState
  pub pkt : Option ℕ

-- The part of `struct rtmp_t` that the reader works on.
pub record Reader : Type 0 where
  pub rtmp : Rtmp
  pub in_packets : List Packet
  pub parser : Parser

-- What a round ends with: a return, the next round, or a call of `rtmp_chunk_read` for four bytes
-- that were taken for an extended timestamp, and then the next round.
pub data Turn (S : Type 0) : Type 0 where
  stop : ℤ → Reader → S → Turn S
  go : Reader → S → List ℕ → Turn S
  rewind : List ℕ → Reader → S → List ℕ → Turn S

-- -ENOMEM
abbrev pub enomem : ℤ
enomem = negsuc 11

abbrev pub fmt_of : List ℕ → ℕ
fmt_of buffer = get_or buffer 0 0 / 2 ^ 6

-- The inner `while` loops: the buffer filled up to `size` bytes, and the rest of the input.
abbrev pub fill : ℕ → List ℕ → List ℕ → List ℕ × List ℕ
fill size buffer input = let n = size - length buffer in (buffer ++ take n input, drop n input)

-- The end of `rtmp_packet_parse`: the header of the packet `i` read over its last one.
unfoldable pub parse_into : List Packet → ℕ → ℕ → ℕ → List ℕ → Option (Option ℕ × List Packet)
parse_into pkts i cid fmt rest =
    let pkt = get_or pkts i zero_packet in
    message_header_read rest (record pkt.header { cid = cid; fmt = fmt }) >>= λ (_, _, h).
    some (some i, set pkts i (record pkt { header = h }))

-- `rtmp_packet_parse` with the results of the two lookups, of which it makes the second only if the
-- first finds nothing.
unfoldable pub parse_found :
    List Packet → Option ℕ → Option ℕ → ℕ → ℕ → List ℕ → Option (Option ℕ × List Packet)
unfolding parse_into
parse_found pkts (some i) created cid fmt rest = parse_into pkts i cid fmt rest
parse_found pkts none (some i) cid fmt rest =
    if not (fmt == 0) && not (fmt == 1) then some (none, pkts) else parse_into pkts i cid fmt rest
parse_found pkts none none cid fmt rest = some (none, pkts)

-- `rtmp_packet_parse`: the packet's index, and the packets.
unfoldable pub packet_parse : List Packet → List ℕ → Option (Option ℕ × List Packet)
unfolding parse_found
packet_parse pkts buffer = basic_header_read buffer >>= λ (n, fmt, cid).
    parse_found pkts (packet_find pkts cid) (packet_create pkts cid) cid fmt (drop n buffer)

-- `rtmp_packet_alloc`
unfoldable pub packet_alloc : (ℕ → Bool) → Packet → Option Packet
packet_alloc alloc_ok pkt =
    if pkt.capacity == 0 || ltb pkt.capacity pkt.header.length
    then (if alloc_ok (pkt.header.length + 1024)
        then some (record pkt { has_payload = true; capacity = pkt.header.length + 1024 })
        else none)
    else some pkt

abbrev pub with_parser : Reader → List ℕ → ParserState → Reader
with_parser c buffer state = record c {
  parser = record c.parser { buffer = buffer; state = state };
}

abbrev pub with_packet : Reader → ℕ → Packet → Reader
with_packet c i pkt = record c { in_packets = set c.in_packets i pkt }

abbrev pub with_state : Reader → ParserState → Reader
with_state c state = record c { parser = record c.parser { state = state } }

-- The part of the fourth state that the first chunk of a message runs.
abbrev pub timed : Packet → ℕ → Packet
timed pkt t = record pkt {
  delta = t;
  clock = if pkt.header.fmt == 0 then t else (pkt.clock + t) % 2 ^ 32;
}

module _ {S : Type 0} (alloc_ok : ℕ → Bool)
    (handler : Rtmp → ChunkHeader → List ℕ → S → Option (ℤ × Rtmp × S)) where
  -- RTMP_PARSE_INIT
  unfoldable pub turn_init : Reader → S → ℕ → List ℕ → Turn S
  turn_init c s b input =
      go
        (record c {
          parser = record {
            buffer = b ∷ [];
            basic_bytes = if b % 64 == 0 then 2 else if b % 64 == 1 then 3 else 1;
            state = parse_basic_header;
            pkt = none;
          };
        })
        s input

  -- RTMP_PARSE_BASIC_HEADER
  unfoldable pub turn_basic_header : Reader → S → List ℕ → Turn S
  turn_basic_header c s input =
      let size = c.parser.basic_bytes in
      if ltb size (length c.parser.buffer)
      then stop (negsuc 0) c s
      else (let (buffer, rest) = fill size c.parser.buffer input in
          go
            (with_parser c buffer
              (if leb size (length buffer) then parse_message_header else parse_basic_header))
            s rest)

  -- RTMP_PARSE_MESSAGE_HEADER
  unfoldable pub turn_message_header : Reader → S → List ℕ → Option (Turn S)
  unfolding header_size packet_parse
  turn_message_header c s input =
      let size = header_size (fmt_of c.parser.buffer) + c.parser.basic_bytes in
      if ltb size (length c.parser.buffer)
      then some (stop (negsuc 0) c s)
      else (let (buffer, rest) = fill size c.parser.buffer input in
          if leb size (length buffer)
          then (packet_parse c.in_packets buffer >>= λ (i, pkts). some (
              go
                (record c {
                  in_packets = pkts;
                  parser = record c.parser {
                    buffer = buffer;
                    state = parse_extended_timestamp;
                    pkt = i;
                  };
                })
                s rest))
          else some (go (with_parser c buffer parse_message_header) s rest))

  -- The end of RTMP_PARSE_EXTENDED_TIMESTAMP with all its bytes there: `t` is the timestamp, `p` the
  -- packet afterwards.
  unfoldable pub started : Reader → S → ℕ → ℕ → List ℕ → List ℕ → Packet → Turn S
  unfolding header_size
  started c s i t buffer rest p =
      let pkt = get_or c.in_packets i zero_packet in
      let c' = with_packet (with_parser c buffer parse_payload) i p in
      if pkt.header.timestamp == 0xffffff && (pkt.header.fmt == 3 && not (t == pkt.delta))
      then rewind (take 4 (drop (header_size (fmt_of buffer) + c.parser.basic_bytes) buffer)) c' s
          rest
      else go c' s rest

  -- A packet whose first chunk this is has been given its times and, if there is, a buffer.
  unfoldable pub allocated : Reader → S → ℕ → ℕ → List ℕ → List ℕ → Option Packet → Turn S
  unfolding started
  allocated c s i t buffer rest none =
      let pkt = get_or c.in_packets i zero_packet in
      stop enomem (with_packet (with_parser c buffer parse_extended_timestamp) i (timed pkt t)) s
  allocated c s i t buffer rest (some p) = started c s i t buffer rest p

  unfoldable pub start_at : Reader → S → ℕ → ℕ → List ℕ → List ℕ → Turn S
  unfolding started allocated packet_alloc
  start_at c s i t buffer rest =
      let pkt = get_or c.in_packets i zero_packet in
      if pkt.bytes == 0
      then allocated c s i t buffer rest (packet_alloc alloc_ok (timed pkt t))
      else started c s i t buffer rest pkt

  unfoldable pub start_payload : Reader → S → ℕ → List ℕ → List ℕ → Option (Turn S)
  unfolding header_size start_at
  start_payload c s i buffer rest =
      let pkt = get_or c.in_packets i zero_packet in
      (if pkt.header.timestamp == 0xffffff
        then be_read_uint32 (drop (header_size (fmt_of buffer) + c.parser.basic_bytes) buffer)
        else some pkt.header.timestamp)
      >>= λ t. some (start_at c s i t buffer rest)

  unfoldable pub extended_at : Reader → S → ℕ → List ℕ → Option (Turn S)
  unfolding header_size start_payload
  extended_at c s i input =
      let pkt = get_or c.in_packets i zero_packet in
      let size =
        header_size pkt.header.fmt
        + c.parser.basic_bytes
        + (if pkt.header.timestamp == 0xffffff then 4 else 0) in
      if ltb 0xffffff pkt.header.timestamp || ltb size (length c.parser.buffer)
      then some (stop (negsuc 0) c s)
      else (let (buffer, rest) = fill size c.parser.buffer input in
          if leb size (length buffer)
          then start_payload c s i buffer rest
          else some (go (with_parser c buffer parse_extended_timestamp) s rest))

  -- RTMP_PARSE_EXTENDED_TIMESTAMP
  unfoldable pub turn_extended_timestamp : Option ℕ → Reader → S → List ℕ → Option (Turn S)
  unfolding extended_at
  turn_extended_timestamp none c s input = some (stop enomem c s)
  turn_extended_timestamp (some i) c s input = extended_at c s i input

  -- `if(0 != r) return r;` behind `rtmp_handler`.
  unfoldable pub handled_turn : Reader → ℤ → S → List ℕ → Turn S
  handled_turn c r s rest = if eqb_ℤ r (pos 0) then go c s rest else stop r c s

  -- The end of RTMP_PARSE_PAYLOAD, when the packet has got its share of the input.
  unfoldable pub finish_payload : Reader → S → ℕ → Packet → List ℕ → Option (Turn S)
  unfolding handled_turn
  finish_payload c s i pkt rest =
      if leb pkt.header.length pkt.bytes
      then (if not (pkt.bytes == pkt.header.length)
          then some (stop (negsuc 0) (with_packet c i pkt) s)
          else (let c' = with_state (with_packet c i (record pkt { bytes = 0 })) parse_init in
              handler c.rtmp (record pkt.header { timestamp = pkt.clock }) pkt.payload s
              >>= λ (r, rtmp, s'). some (handled_turn (record c' { rtmp = rtmp }) r s' rest)))
      else if pkt.bytes % c.rtmp.in_chunk_size == 0
      then some (go (with_state (with_packet c i pkt) parse_init) s rest)
      else if length rest == 0
      then some (go (with_packet c i pkt) s rest)
      else some (stop (negsuc 0) (with_packet c i pkt) s)

  unfoldable pub payload_at : Reader → S → ℕ → List ℕ → Option (Turn S)
  unfolding finish_payload
  payload_at c s i input =
      let pkt = get_or c.in_packets i zero_packet in
      if not pkt.has_payload
        || (ltb pkt.capacity pkt.bytes
            || (ltb pkt.header.length pkt.bytes || ltb pkt.capacity pkt.header.length))
      then some (stop enomem c s)
      else if c.rtmp.in_chunk_size == 0
      then none
      else (let size =
            min (c.rtmp.in_chunk_size - pkt.bytes % c.rtmp.in_chunk_size)
              (pkt.header.length - pkt.bytes) in
          let part = take size input in
          finish_payload c s i
            (record pkt {
              payload = take pkt.bytes pkt.payload ++ part;
              bytes = pkt.bytes + length part;
            })
            (drop size input))

  -- RTMP_PARSE_PAYLOAD
  unfoldable pub turn_payload : Option ℕ → Reader → S → List ℕ → Option (Turn S)
  unfolding payload_at
  turn_payload none c s input = some (stop enomem c s)
  turn_payload (some i) c s input = payload_at c s i input

  -- `switch (parser->state)`
  unfoldable pub turn_in : ParserState → Reader → S → ℕ → List ℕ → Option (Turn S)
  unfolding turn_init turn_basic_header turn_message_header turn_extended_timestamp turn_payload
  turn_in parse_init c s b input = some (turn_init c s b input)
  turn_in parse_basic_header c s b input = some (turn_basic_header c s (b ∷ input))
  turn_in parse_message_header c s b input = turn_message_header c s (b ∷ input)
  turn_in parse_extended_timestamp c s b input =
      turn_extended_timestamp c.parser.pkt c s (b ∷ input)
  turn_in parse_payload c s b input = turn_payload c.parser.pkt c s (b ∷ input)

  abbrev pub turn : Reader → S → ℕ → List ℕ → Option (Turn S)
  turn c s b input = turn_in c.parser.state c s b input

  -- What follows the call for four bytes: `again` is the loop from the next round on.
  unfoldable pub resume :
      (Reader → S → List ℕ → Option (ℤ × Reader × S))
      → List ℕ
      → Option (ℤ × Reader × S)
      → Option (ℤ × Reader × S)
  resume again rest none = none
  resume again rest (some (r, c, s)) = if eqb_ℤ r (pos 0) then again c s rest else some (r, c, s)

  unfoldable pub after_turn :
      (Reader → S → List ℕ → Option (ℤ × Reader × S)) → Option (Turn S) → Option (ℤ × Reader × S)
  unfolding resume
  after_turn again none = none
  after_turn again (some (stop r c s)) = some (r, c, s)
  after_turn again (some (go c s rest)) = again c s rest
  after_turn again (some (rewind extension c s rest)) = resume again rest (again c s extension)

  -- `rtmp_chunk_read`, in at most `fuel` rounds.
  unfoldable pub chunk_read : ℕ → Reader → S → List ℕ → Option (ℤ × Reader × S)
  unfolding after_turn
  chunk_read fuel c s [] = some (pos 0, c, s)
  chunk_read zero c s (b ∷ input) = none
  chunk_read (suc fuel) c s (b ∷ input) =
      after_turn (λ c' s' rest. chunk_read fuel c' s' rest) (turn c s b input)
