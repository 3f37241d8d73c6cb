-- ===== src/Rtmp/Control/RoundTrip.antt =====
-- What a peer makes of the control messages and events that rtmp-control-message.c and rtmp-event.c
-- write: the chunk header readers, then the handlers.
use seastar_live.Prelude.{ℕ, ◌+◌, ◌≤◌, ◌<◌, ◌≡◌, List, Option, some, arith, drop}
use seastar_live.Prelude.Bytes.{
  ◌>>=◌, IsU32, be_read_uint16, be_read_uint24, be_read_uint32, le_read_uint32, be_write_uint16,
  be_write_uint32,
}
use seastar_live.Rtmp.ChunkHeader.{
  ChunkHeader, basic_header_read, message_header_read, read_timestamp, read_length_type,
  read_stream_id,
}
use seastar_live.Rtmp.Control.{
  Rtmp, Call, no_call, onabort, oneof, onping, onbandwidth, Handled, handled, control_handler,
  event_handler, set_chunk_size, abort_message, acknowledgement, window_acknowledgement_size,
  set_peer_bandwidth, protocol_control_message_header, user_control_message_header, read_chunk_size,
  read_number, read_set_peer_bandwidth, event_message, stream_begin, stream_eof, stream_dry,
  stream_is_record, ping, pong, set_buffer_length,
}

-- A control message with its fields.
pub data Message : Type 0 where
  chunk_size_of : ℕ → Message
  abort_of : ℕ → Message
  acknowledgement_of : ℕ → Message
  window_of : ℕ → Message
  bandwidth_of : ℕ → ℕ → Message

abbrev pub write_message : Message → ℕ → List ℕ × ℕ
write_message (chunk_size_of n) size = set_chunk_size size n
write_message (abort_of n) size = abort_message size n
write_message (acknowledgement_of n) size = acknowledgement size n
write_message (window_of n) size = window_acknowledgement_size size n
write_message (bandwidth_of n l) size = set_peer_bandwidth size n l

-- The values that the handler accepts.
unfoldable pub IsMessage : Message → Type 0
IsMessage (chunk_size_of n) = (64 ≤ n) × (n ≤ 8388608)
IsMessage (abort_of n) = IsU32 n
IsMessage (acknowledgement_of n) = IsU32 n
IsMessage (window_of n) = IsU32 n
IsMessage (bandwidth_of n l) = IsU32 n × (l < 256)

-- What the message asks of the peer.
abbrev pub obeyed : Message → Rtmp → Rtmp
obeyed (chunk_size_of n) s = record s { in_chunk_size = n }
obeyed (abort_of n) s = s
obeyed (acknowledgement_of n) s = record s { sequence_number = n }
obeyed (window_of n) s = record s { window_size = n }
obeyed (bandwidth_of n l) s = record s { peer_bandwidth = n; limit_type = l }

abbrev pub call_of : Message → Call
call_of (abort_of n) = onabort n
call_of (bandwidth_of n l) = onbandwidth
call_of _ = no_call

abbrev pub size_of : Message → ℕ
size_of (bandwidth_of n l) = 5
size_of _ = 4

-- The two chunk headers in front of a payload, read by the peer, whose chunk stream had the header
-- `old` before.
abbrev pub headers : ChunkHeader → List ℕ → Option (ChunkHeader × List ℕ)
headers old bytes = basic_header_read bytes >>= λ (n, fmt, cid).
    message_header_read (drop n bytes) (record old { fmt = fmt; cid = cid }) >>= λ (_, rest, h).
    some (h, rest)

-- With room for 17 bytes a control message with values that the protocol allows is written on chunk
-- stream 2, and a peer that reads the chunk's headers and handles the payload succeeds, changes the
-- fields that the message names and no other, and makes the call that belongs to it.
pub control_handler-write_message :
    (m : Message) (size : ℕ) (old : ChunkHeader) (s : Rtmp)
    → IsMessage m
    → 17 ≤ size
    → let (bytes, count) = write_message m size in
      (count ≡ 12 + size_of m)
      × ((headers old bytes >>= λ (h, payload). control_handler s h payload)
          ≡ some (handled (size_of m) (obeyed m s) (call_of m)))
unfolding set_chunk_size abort_message acknowledgement window_acknowledgement_size
    set_peer_bandwidth protocol_control_message_header be_write_uint32 basic_header_read
    message_header_read read_timestamp read_length_type read_stream_id be_read_uint24 be_read_uint32
    le_read_uint32 control_handler read_chunk_size read_number read_set_peer_bandwidth IsMessage
control_handler-write_message (chunk_size_of n) size old s v r = (ground arith, ground arith)
control_handler-write_message (abort_of n) size old s v r = (ground arith, ground arith)
control_handler-write_message (acknowledgement_of n) size old s v r = (ground arith, ground arith)
control_handler-write_message (window_of n) size old s v r = (ground arith, ground arith)
control_handler-write_message (bandwidth_of n l) size old s v r = (ground arith, ground arith)

-- An event with its fields.
pub data Event : Type 0 where
  begin_of : ℕ → Event
  eof_of : ℕ → Event
  dry_of : ℕ → Event
  record_of : ℕ → Event
  ping_of : ℕ → Event
  pong_of : ℕ → Event
  buffer_of : ℕ → ℕ → Event

abbrev pub write_event : Event → ℕ → List ℕ × ℕ
write_event (begin_of n) bytes = stream_begin bytes n
write_event (eof_of n) bytes = stream_eof bytes n
write_event (dry_of n) bytes = stream_dry bytes n
write_event (record_of n) bytes = stream_is_record bytes n
write_event (ping_of n) bytes = ping bytes n
write_event (pong_of n) bytes = pong bytes n
write_event (buffer_of n ms) bytes = set_buffer_length bytes n ms

abbrev pub stream_of : Event → ℕ
stream_of (begin_of n) = n
stream_of (eof_of n) = n
stream_of (dry_of n) = n
stream_of (record_of n) = n
stream_of (ping_of n) = n
stream_of (pong_of n) = n
stream_of (buffer_of n ms) = n

-- What the peer's handler does of the event.
abbrev pub happened : Event → Rtmp → Handled
happened (eof_of n) s = handled 6 s (oneof n)
happened (ping_of n) s = handled 6 s (onping n)
happened (buffer_of n ms) s = handled 10 (record s { buffer_length_ms = ms }) no_call
happened _ s = handled 6 s no_call

abbrev pub ms_of : Event → ℕ
ms_of (buffer_of n ms) = ms
ms_of _ = 0

-- With room for 22 bytes an event with 32-bit fields is written as 12 bytes and its payload, and a peer
-- that reads the headers and handles the payload consumes all of it, reports the end of a stream or
-- a ping with the number that was written, and stores the buffer length.
pub event_handler-write_event :
    (e : Event) (bytes : ℕ) (old : ChunkHeader) (s : Rtmp)
    → IsU32 (stream_of e)
    → IsU32 (ms_of e)
    → 22 ≤ bytes
    → let (written, count) = write_event e bytes in
      (count ≡ 12 + (happened e s).result)
      × ((headers old written >>= λ (h, payload). event_handler s h payload) ≡ some (happened e s))
unfolding stream_begin stream_eof stream_dry stream_is_record ping pong set_buffer_length
    event_message user_control_message_header be_write_uint16 be_write_uint32 basic_header_read
    message_header_read read_timestamp read_length_type read_stream_id be_read_uint16 be_read_uint24
    be_read_uint32 le_read_uint32 event_handler
event_handler-write_event (begin_of n) bytes old s v w r = (ground arith, ground arith)
event_handler-write_event (eof_of n) bytes old s v w r = (ground arith, ground arith)
event_handler-write_event (dry_of n) bytes old s v w r = (ground arith, ground arith)
event_handler-write_event (record_of n) bytes old s v w r = (ground arith, ground arith)
event_handler-write_event (ping_of n) bytes old s v w r = (ground arith, ground arith)
event_handler-write_event (pong_of n) bytes old s v w r = (ground arith, ground arith)
event_handler-write_event (buffer_of n ms) bytes old s v w r = (ground arith, ground arith)
