-- ===== src/Rtmp/ChunkHeader/RoundTrip.antt =====
-- What the readers of 3rd/librtmp/source/rtmp-chunk-header.c make of what its writers wrote.
use seastar_live.Prelude.{
  ℕ, ◌≤◌, ◌<◌, ◌≡◌, List, ◌++◌, some, arith, length, leb, ◌==◌, if◌then◌else◌,
}
use seastar_live.Prelude.Bytes.{
  IsU24, IsU32, be_write_uint24, be_read_uint24, be_write_uint32, be_read_uint32, le_write_uint32,
  le_read_uint32,
}
use seastar_live.Rtmp.ChunkHeader.{
  ChunkHeader, basic_header_read, basic_header_write, message_header_read, message_header_write,
  read_timestamp, read_length_type, read_stream_id, capped, extended_timestamp_read,
  extended_timestamp_write,
}

-- The reader of the basic header gives back the format and the chunk stream id that were written,
-- for every id that the protocol allows, and takes as many bytes as the writer says that it wrote.
pub basic_header_read-basic_header_write :
    (fmt id : ℕ) (rest : List ℕ)
    → fmt < 4
    → 2 ≤ id
    → id < 65600
    → let (bytes, n) = basic_header_write fmt id in
      (basic_header_read (bytes ++ rest) ≡ some (n, fmt, id)) × (length bytes ≡ n)
unfolding basic_header_read basic_header_write
basic_header_read-basic_header_write fmt id rest a b c = ground arith

-- The fields that a chunk of the format of `h` carries, over a previous header.
abbrev pub carried : ChunkHeader → ChunkHeader → ChunkHeader
carried h prev = record prev {
  timestamp = if leb h.fmt 2 then capped h.timestamp else prev.timestamp;
  length = if leb h.fmt 1 then h.length else prev.length;
  type = if leb h.fmt 1 then h.type else prev.type;
  stream_id = if h.fmt == 0 then h.stream_id else prev.stream_id;
}

-- Reading over `prev` what was written from `h`, in the same format, gives the fields that the
-- format carries their value from `h` (the timestamp capped) and leaves the others as they were; all
-- bytes written are read, and their number is the one that the writer returns.
pub message_header_read-message_header_write :
    (h prev : ChunkHeader) (rest : List ℕ)
    → h.fmt < 4
    → prev.fmt ≡ h.fmt
    → IsU24 h.length
    → IsU32 h.stream_id
    → let (bytes, n) = message_header_write h in
      (message_header_read (bytes ++ rest) prev ≡ some (n, rest, carried h prev))
      × (length bytes ≡ n)
unfolding message_header_read message_header_write read_timestamp read_length_type read_stream_id
    be_write_uint24 be_read_uint24 le_write_uint32 le_read_uint32
message_header_read-message_header_write h prev rest f p l s = ground arith

-- The extended timestamp round-trips over 32 bits.
pub extended_timestamp_read-extended_timestamp_write :
    (t : ℕ) (rest : List ℕ)
    → IsU32 t
    → extended_timestamp_read ((extended_timestamp_write t).0 ++ rest) ≡ some (4, t)
unfolding extended_timestamp_read extended_timestamp_write be_write_uint32 be_read_uint32
extended_timestamp_read-extended_timestamp_write t rest h = ground arith
