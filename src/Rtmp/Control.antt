-- ===== src/Rtmp/Control.antt =====
-- 3rd/librtmp/source: rtmp-control-message.c, rtmp-event.c and rtmp-control-handler.c. A writer gives
-- the bytes from `out` on and the count that it returns. A handler gives what it returns, the fields
-- of `struct rtmp_t` afterwards, and the callback that it calls, which is called if it is set; `none`
-- is a read behind the payload's end. `assert` is empty, as in a release build.
pub mod Invariant
pub mod RoundTrip
use seastar_live.Prelude.{
  ℕ, ◌+◌, ◌/◌, ◌%◌, ◌^◌, List, [], ◌∷◌, ◌++◌, Option, none, some, ltb, ◌==◌, ◌||◌, if◌then◌else◌,
  drop, get_elem?,
}
use seastar_live.Prelude.Bytes.{
  ◌>>=◌, be_read_uint16, be_read_uint32, be_write_uint16, be_write_uint32,
}
use seastar_live.Rtmp.ChunkHeader.{ChunkHeader}

-- The members of `enum RTMPMessageTypeId` that control a connection.
abbrev pub type_set_chunk_size : ℕ
type_set_chunk_size = 1

abbrev pub type_abort : ℕ
type_abort = 2

abbrev pub type_acknowledgement : ℕ
type_acknowledgement = 3

abbrev pub type_event : ℕ
type_event = 4

abbrev pub type_window_acknowledgement_size : ℕ
type_window_acknowledgement_size = 5

abbrev pub type_set_peer_bandwidth : ℕ
type_set_peer_bandwidth = 6

-- The events of rtmp-event.h that are written or handled.
abbrev pub event_stream_begin : ℕ
event_stream_begin = 0

abbrev pub event_stream_eof : ℕ
event_stream_eof = 1

abbrev pub event_stream_dry : ℕ
event_stream_dry = 2

abbrev pub event_set_buffer_length : ℕ
event_set_buffer_length = 3

abbrev pub event_stream_is_record : ℕ
event_stream_is_record = 4

abbrev pub event_ping : ℕ
event_ping = 6

abbrev pub event_pong : ℕ
event_pong = 7

unfoldable pub protocol_control_message_header : ℕ → ℕ → List ℕ
protocol_control_message_header id payload =
    2
    ∷ 0
    ∷ 0
    ∷ 0
    ∷ (payload / 2 ^ 16 % 256)
    ∷ (payload / 2 ^ 8 % 256)
    ∷ (payload % 256)
    ∷ id
    ∷ 0
    ∷ 0
    ∷ 0
    ∷ 0
    ∷ []

unfoldable pub set_chunk_size : ℕ → ℕ → List ℕ × ℕ
unfolding protocol_control_message_header be_write_uint32
set_chunk_size size chunk_size = if ltb size 16 then ([], 0) else (
  protocol_control_message_header type_set_chunk_size 4 ++ be_write_uint32 (chunk_size % 2 ^ 31),
  16,
)

unfoldable pub abort_message : ℕ → ℕ → List ℕ × ℕ
unfolding protocol_control_message_header be_write_uint32
abort_message size chunk_stream_id =
    if ltb size 16
    then ([], 0)
    else (protocol_control_message_header type_abort 4 ++ be_write_uint32 chunk_stream_id, 16)

unfoldable pub acknowledgement : ℕ → ℕ → List ℕ × ℕ
unfolding protocol_control_message_header be_write_uint32
acknowledgement size sequence_number = if ltb size 16 then ([], 0) else (
  protocol_control_message_header type_acknowledgement 4 ++ be_write_uint32 sequence_number,
  16,
)

unfoldable pub window_acknowledgement_size : ℕ → ℕ → List ℕ × ℕ
unfolding protocol_control_message_header be_write_uint32
window_acknowledgement_size size window_size = if ltb size 16 then ([], 0) else (
  protocol_control_message_header type_window_acknowledgement_size 4 ++ be_write_uint32 window_size,
  16,
)

unfoldable pub set_peer_bandwidth : ℕ → ℕ → ℕ → List ℕ × ℕ
unfolding protocol_control_message_header be_write_uint32
set_peer_bandwidth size window_size limit_type = if ltb size 17 then ([], 0) else (
  protocol_control_message_header type_set_peer_bandwidth 5
      ++ (be_write_uint32 window_size ++ (limit_type ∷ [])),
  17,
)

unfoldable pub user_control_message_header : ℕ → List ℕ
user_control_message_header payload =
    2
    ∷ 0
    ∷ 0
    ∷ 0
    ∷ (payload / 2 ^ 16 % 256)
    ∷ (payload / 2 ^ 8 % 256)
    ∷ (payload % 256)
    ∷ type_event
    ∷ 0
    ∷ 0
    ∷ 0
    ∷ 0
    ∷ []

-- The body that six of the seven event writers share.
unfoldable pub event_message : ℕ → ℕ → ℕ → List ℕ × ℕ
unfolding user_control_message_header be_write_uint16 be_write_uint32
event_message event bytes value =
    if ltb bytes 18
    then ([], 0)
    else (user_control_message_header 6 ++ (be_write_uint16 event ++ be_write_uint32 value), 18)

unfoldable pub stream_begin : ℕ → ℕ → List ℕ × ℕ
unfolding event_message
stream_begin bytes stream_id = event_message event_stream_begin bytes stream_id

unfoldable pub stream_eof : ℕ → ℕ → List ℕ × ℕ
unfolding event_message
stream_eof bytes stream_id = event_message event_stream_eof bytes stream_id

unfoldable pub stream_dry : ℕ → ℕ → List ℕ × ℕ
unfolding event_message
stream_dry bytes stream_id = event_message event_stream_dry bytes stream_id

unfoldable pub stream_is_record : ℕ → ℕ → List ℕ × ℕ
unfolding event_message
stream_is_record bytes stream_id = event_message event_stream_is_record bytes stream_id

unfoldable pub ping : ℕ → ℕ → List ℕ × ℕ
unfolding event_message
ping bytes timestamp = event_message event_ping bytes timestamp

unfoldable pub pong : ℕ → ℕ → List ℕ × ℕ
unfolding event_message
pong bytes timestamp = event_message event_pong bytes timestamp

unfoldable pub set_buffer_length : ℕ → ℕ → ℕ → List ℕ × ℕ
unfolding user_control_message_header be_write_uint16 be_write_uint32
set_buffer_length bytes stream_id ms = if ltb bytes 22 then ([], 0) else (
  user_control_message_header 10
      ++ (be_write_uint16 event_set_buffer_length
          ++ (be_write_uint32 stream_id ++ be_write_uint32 ms)),
  22,
)

-- The fields of `struct rtmp_t` that control messages and events set.
pub record Rtmp : Type 0 where
  pub in_chunk_size : ℕ
  pub sequence_number : ℕ
  pub window_size : ℕ
  pub peer_bandwidth : ℕ
  pub buffer_length_ms : ℕ
  pub limit_type : ℕ

pub data Call : Type 0 where
  no_call : Call
  onabort : ℕ → Call
  oneof : ℕ → Call
  onping : ℕ → Call
  onbandwidth : Call

pub record Handled : Type 0 where
  pub result : ℕ
  pub rtmp : Rtmp
  pub call : Call

-- The readers give what they return and the number that they store, if they store one.
unfoldable pub read_chunk_size : List ℕ → ℕ → ℕ → Option (ℕ × ℕ)
read_chunk_size out size old =
    if ltb size 4
    then some (0, old)
    else (be_read_uint32 out >>= λ n. some ((if ltb n 64 || ltb 8388608 n then 0 else 4), n))

-- The body that the readers of an abort message, an acknowledgement and a window share.
unfoldable pub read_number : List ℕ → ℕ → ℕ → Option (ℕ × ℕ)
read_number out size old =
    if ltb size 4 then some (0, old) else (be_read_uint32 out >>= λ n. some (4, n))

unfoldable pub read_set_peer_bandwidth : List ℕ → ℕ → ℕ → ℕ → Option (ℕ × ℕ × ℕ)
read_set_peer_bandwidth out size old limit =
    if ltb size 5
    then some (0, old, limit)
    else (be_read_uint32 out >>= λ n. get_elem? out 4 >>= λ l. some (5, n, l))

abbrev pub handled : ℕ → Rtmp → Call → Handled
handled r s c = record { result = r; rtmp = s; call = c }

unfoldable pub control_handler : Rtmp → ChunkHeader → List ℕ → Option Handled
unfolding read_chunk_size read_number read_set_peer_bandwidth
control_handler s h payload =
    if h.type == type_set_chunk_size
    then (read_chunk_size payload h.length s.in_chunk_size >>= λ (r, n).
        some (handled r (record s { in_chunk_size = n }) no_call))
    else if h.type == type_abort
    then (read_number payload h.length 0 >>= λ (r, n).
        some (handled r s (if r == 4 then onabort n else no_call)))
    else if h.type == type_acknowledgement
    then (read_number payload h.length s.sequence_number >>= λ (r, n).
        some (handled r (record s { sequence_number = n }) no_call))
    else if h.type == type_window_acknowledgement_size
    then (read_number payload h.length s.window_size >>= λ (r, n).
        some (handled r (record s { window_size = n }) no_call))
    else if h.type == type_set_peer_bandwidth
    then (read_set_peer_bandwidth payload h.length s.peer_bandwidth s.limit_type >>= λ (r, n, l).
        some (
          handled r (record s { peer_bandwidth = n; limit_type = l })
            (if r == 5 then onbandwidth else no_call)))
    else some (handled 0 s no_call)

unfoldable pub event_handler : Rtmp → ChunkHeader → List ℕ → Option Handled
event_handler s h payload =
    if ltb h.length 6
    then some (handled 0 s no_call)
    else (be_read_uint16 payload >>= λ event. be_read_uint32 (drop 2 payload) >>= λ stream_id.
        if event == event_stream_begin
          || event == event_stream_dry
          || event == event_stream_is_record
        then some (handled 6 s no_call)
        else if event == event_stream_eof
        then some (handled 6 s (oneof stream_id))
        else if event == event_set_buffer_length
        then (if ltb h.length 10
            then some (handled 0 s no_call)
            else (be_read_uint32 (drop 6 payload) >>= λ ms.
                some (handled 10 (record s { buffer_length_ms = ms }) no_call)))
        else if event == event_ping
        then some (handled 6 s (onping stream_id))
        else if event == event_pong
        then some (handled 6 s no_call)
        else some (handled h.length s no_call))
