-- ===== src/Rtmp/Tests.antt =====
-- The RTMP layer of 3rd/librtmp at concrete packets, headers and messages.
use seastar_live.Prelude.{
  ℕ, ◌≡◌, ◌≢◌, ◌+◌, refl, List, [], ◌∷◌, ◌++◌, Option, none, some, Bool, true, arith, take,
  replicate,
}
use seastar_live.Prelude.Int.{ℤ, pos, negsuc}
use seastar_live.Prelude.Bytes.{
  ◌>>=◌, be_read_uint24, be_read_uint32, le_read_uint32, be_write_uint24, le_write_uint32,
}
use seastar_live.Rtmp.ChunkHeader.{
  ChunkHeader, basic_header_read, basic_header_write, message_header_read, message_header_write,
  header_size, read_timestamp, read_length_type, read_stream_id,
}
use seastar_live.Rtmp.Packet.{Packet, zero_packet, probe, packet_find, packet_create}
use seastar_live.Rtmp.ChunkWrite.{
  zip_against, header_zip, first_chunk_header, next_chunk_header, chunk_write,
}
use seastar_live.Rtmp.ChunkWrite.Compress.{Restores, zip_against-Restores}
use seastar_live.Rtmp.ChunkWrite.Split.{
  Chunk, Sends, keep_chunk, chunk_write-Sends, chunk_write_total,
}
use seastar_live.Rtmp.ChunkRead.{
  Reader, parse_init, chunk_read, turn_in, turn_init, turn_basic_header, turn_message_header,
  extended_at, turn_extended_timestamp, start_payload, start_at, allocated, started, payload_at,
  turn_payload, finish_payload, handled_turn, packet_parse, parse_found, parse_into, packet_alloc,
  after_turn, resume,
}
use seastar_live.Rtmp.Control.{Rtmp, handled, control_handler}
use seastar_live.Rtmp.Control.RoundTrip.{
  bandwidth_of, write_message, IsMessage, obeyed, call_of, headers, control_handler-write_message,
}
use seastar_live.Rtmp.Control.Invariant.{IsChunkSize}
use seastar_live.Rtmp.Handler.{Callbacks, aggregate}
use seastar_live.Rtmp.Handler.Aggregate.{Sub, all_bytes, AllSubs, deliver, aggregate-deliver}

abbrev header : ChunkHeader
header = record { fmt = 1; cid = 4; timestamp = 1040; length = 5; type = 8; stream_id = 1 }

abbrev fresh : ChunkHeader
fresh = record { fmt = 0; cid = 4; timestamp = 1000; length = 5; type = 8; stream_id = 1 }

-- A chunk stream whose last message had the header `fresh`.
abbrev last_packet : Packet
last_packet = record zero_packet { header = fresh; clock = 1000 }

abbrev packets : List Packet
packets = zero_packet ∷ zero_packet ∷ zero_packet ∷ last_packet ∷ replicate 4 zero_packet

zip_against-Restores_example : Restores header (zip_against header last_packet) last_packet
zip_against-Restores_example = zip_against-Restores header last_packet

-- The message's header goes out in the format 2, with the delta alone.
zip_against_test : zip_against header last_packet ≡ record header { fmt = 2; timestamp = 40 }
unfolding zip_against
zip_against_test = refl

abbrev zipped : ChunkHeader
zipped = record header { fmt = 2; timestamp = 40 }

abbrev zipped_packets : List Packet
zipped_packets =
    zero_packet
    ∷ zero_packet
    ∷ zero_packet
    ∷ record last_packet { header = zipped; clock = 1040 }
    ∷ replicate 4 zero_packet

abbrev five : List ℕ
five = 1 ∷ 2 ∷ 3 ∷ 4 ∷ 5 ∷ []

chunk_write-Sends_example :
    (cs : List Chunk) × (chunk_write keep_chunk 5 2 packets header five []
      ≡ some (pos 0, zipped_packets, cs))
    × Sends 2 (first_chunk_header zipped) (next_chunk_header zipped) (take 5 five) cs
unfolding header_zip packet_find probe zip_against
chunk_write-Sends_example =
    chunk_write-Sends 5 2 packets zipped_packets header zipped five (omega arith) (omega arith) refl
      (omega arith)

-- A connection that fails at once.
abbrev broken : List ℕ → List ℕ → ℕ → ℤ × ℕ
broken p b calls = (negsuc 0, calls + 1)

chunk_write_total_example : chunk_write broken 5 2 packets header five 0 ≢ none
chunk_write_total_example =
    chunk_write_total broken 5 2 packets header five 0 (omega arith) (omega arith)

abbrev connection : Rtmp
connection = record {
  in_chunk_size = 128;
  sequence_number = 0;
  window_size = 0;
  peer_bandwidth = 0;
  buffer_length_ms = 0;
  limit_type = 0;
}

bandwidth_ok : IsMessage (bandwidth_of 2500000 2)
unfolding IsMessage
bandwidth_ok = (omega arith, omega arith)

control_handler-write_message_example :
    let (bytes, count) = write_message (bandwidth_of 2500000 2) 64 in
    (count ≡ 17)
    × ((headers zipped bytes >>= λ (h, payload). control_handler connection h payload)
        ≡ some (
            handled 5
              (obeyed (bandwidth_of 2500000 2) connection)
              (call_of (bandwidth_of 2500000 2))))
control_handler-write_message_example =
    control_handler-write_message (bandwidth_of 2500000 2) 64 zipped connection bandwidth_ok
      (omega arith)

abbrev size_header : ChunkHeader
size_header = record { fmt = 0; cid = 2; timestamp = 0; length = 4; type = 1; stream_id = 0 }

connection_ok : IsChunkSize 128
unfolding IsChunkSize
connection_ok = (omega arith, omega arith)

-- Callbacks that keep the times at which they are called.
abbrev at : List ℕ → ℕ → List ℕ → ℤ × List ℕ
at body time times = (pos 0, times ++ (time ∷ []))

abbrev callbacks : Callbacks (List ℕ)
callbacks = record {
  onaudio = at;
  onvideo = at;
  onscript = at;
  invoke_handler = λ c h payload s. (pos 0, s);
  on_call = λ call s. s;
}

abbrev sound : Sub
sound = record { type = 8; time = 500; body = 7 ∷ 8 ∷ []; back = 0 ∷ 0 ∷ 0 ∷ 13 ∷ [] }

abbrev sight : Sub
sight = record { type = 9; time = 520; body = 9 ∷ []; back = 0 ∷ 0 ∷ 0 ∷ 12 ∷ [] }

sounds-AllSubs : AllSubs (sound ∷ sight ∷ [])
unfolding AllSubs
sounds-AllSubs = (
  record { time_ok = omega arith; some_body = omega arith; body_ok = omega arith; back_ok = refl },
  (
    record {
      time_ok = omega arith;
      some_body = omega arith;
      body_ok = omega arith;
      back_ok = refl;
    },
    tt,
  ),
)

abbrev aggregate_header : ChunkHeader
aggregate_header = record {
  fmt = 0;
  cid = 4;
  timestamp = 9000;
  length = 33;
  type = 22;
  stream_id = 1;
}

aggregate-deliver_example :
    aggregate callbacks aggregate_header (all_bytes (sound ∷ sight ∷ [])) []
    ≡ some (deliver callbacks 9000 500 (sound ∷ sight ∷ []) [])
unfolding be_write_uint24
aggregate-deliver_example =
    aggregate-deliver callbacks aggregate_header sound (sight ∷ []) [] sounds-AllSubs (omega arith)
      refl

-- A handler that keeps the payloads that it gets.
abbrev keep_payload :
    Rtmp → ChunkHeader → List ℕ → List (List ℕ) → Option (ℤ × Rtmp × List (List ℕ))
keep_payload c h payload got = some (pos 0, c, got ++ (take h.length payload ∷ []))

abbrev has_memory : ℕ → Bool
has_memory n = true

-- A connection that has just been opened.
abbrev idle : Reader
idle = record {
  rtmp = connection;
  in_packets = replicate 8 zero_packet;
  parser = record { buffer = []; basic_bytes = 0; state = parse_init; pkt = none };
}

abbrev reader_of : Option (ℤ × Reader × List (List ℕ)) → Reader
reader_of none = idle
reader_of (some (r, c, s)) = c

abbrev received : Option (ℤ × Reader × List (List ℕ)) → List (List ℕ)
received none = []
received (some (r, c, s)) = s

-- What the writer sends of a message, in one chunk.
abbrev sent : List ℕ
unfolding basic_header_write message_header_write be_write_uint24 le_write_uint32 header_size
sent = (basic_header_write 0 4).0 ++ ((message_header_write fresh).0 ++ five)

abbrev reading : Option (ℤ × Reader × List (List ℕ))
reading = chunk_read has_memory keep_payload 5 idle [] sent

-- The reader hands over the payload that the writer sent.
chunk_read_test : received reading ≡ five ∷ []
unfolding chunk_read after_turn resume turn_in turn_init turn_basic_header turn_message_header
    extended_at turn_extended_timestamp start_payload start_at allocated started payload_at
    turn_payload finish_payload handled_turn packet_parse parse_found parse_into packet_alloc
    packet_find packet_create probe basic_header_read message_header_read read_timestamp
    read_length_type read_stream_id header_size be_read_uint24 be_read_uint32 le_read_uint32 sent
    basic_header_write message_header_write be_write_uint24 le_write_uint32
chunk_read_test = refl
