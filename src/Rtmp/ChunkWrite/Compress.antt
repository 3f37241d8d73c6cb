-- ===== src/Rtmp/ChunkWrite/Compress.antt =====
-- The compressed header of 3rd/librtmp/source/rtmp-chunk-write.c against what a reader makes of it.
use seastar_live.Prelude.{ℕ, ◌+◌, ◌<◌, ◌≡◌, ◌≢◌, ◌==◌, if◌then◌else◌, arith}
use seastar_live.Rtmp.ChunkHeader.{ChunkHeader}
use seastar_live.Rtmp.ChunkHeader.RoundTrip.{carried}
use seastar_live.Rtmp.ChunkWrite.{zip_against}
use seastar_live.Rtmp.Packet.{Packet}

-- What a reader that knows the packet `pkt` of the chunk stream gets from the header `z`: the fields
-- that `z` carries, and the clock, which a delta advances.
abbrev pub restored_clock : ChunkHeader → Packet → ℕ
restored_clock z pkt = if z.fmt == 0 then z.timestamp else pkt.clock + z.timestamp

pub record Restores (h z : ChunkHeader) (pkt : Packet) : Type 0 where
  pub fmt_ok : z.fmt < 4
  pub cid_is : z.cid ≡ h.cid
  pub length_is : (carried z pkt.header).length ≡ h.length
  pub type_is : (carried z pkt.header).type ≡ h.type
  pub stream_id_is : (carried z pkt.header).stream_id ≡ h.stream_id
  pub clock_is : restored_clock z pkt ≡ h.timestamp
  pub delta_known : z.fmt ≡ 3 → z.timestamp ≡ pkt.header.timestamp
  pub delta_small : z.fmt ≢ 0 → z.timestamp < 0xffffff

-- Whatever format the compression chooses, a reader that knows the last packet of the chunk stream
-- restores the message's length, type, stream and timestamp; a format 3 header, which carries no
-- delta, is chosen only if the last timestamp field is the delta; a delta needs no extension.
pub zip_against-Restores : (h : ChunkHeader) (pkt : Packet) → Restores h (zip_against h pkt) pkt
unfolding zip_against
zip_against-Restores h pkt = ground arith
