-- ===== src/Rtmp/ChunkWrite.antt =====
-- 3rd/librtmp/source/rtmp-chunk-write.c: header compression against the last header of the chunk
-- stream, and the split of a message into chunks. `send` is the callback of `struct rtmp_t`: a
-- function of a state `S` that stands for whatever it writes to.
pub mod Compress
pub mod Split
use seastar_live.Prelude.{
  ℕ, zero, suc, ◌+◌, ◌-◌, ◌%◌, ◌^◌, ◌<◌, ◌≤◌, List, [], ◌∷◌, ◌++◌, Option, none, some, Bool, true,
  false, ◌&&◌, ◌||◌, not, ltb, leb, ◌==◌, if◌then◌else◌, get_or, set, take, drop, min,
}
use seastar_live.Prelude.Int.{ℤ, pos, negsuc, eqb_ℤ}
use seastar_live.Rtmp.ChunkHeader.{
  ChunkHeader, basic_header_write, message_header_write, extended_timestamp_write,
}
use seastar_live.Rtmp.Packet.{Packet, zero_packet, packet_find}

-- The header of `rtmp_chunk_header_zip` against the packet of its chunk stream.
unfoldable pub zip_against : ChunkHeader → Packet → ChunkHeader
zip_against h pkt =
    if not (h.fmt == 0)
      && (h.cid == pkt.header.cid
          && (leb pkt.clock h.timestamp
              && (ltb (h.timestamp - pkt.clock) 0xffffff && h.stream_id == pkt.header.stream_id)))
    then (let delta = h.timestamp - pkt.clock in
        if h.type == pkt.header.type && h.length == pkt.header.length
        then (if delta == pkt.header.timestamp
            then record h { fmt = 3; timestamp = delta }
            else record h { fmt = 2; timestamp = delta })
        else record h { fmt = 1; timestamp = delta })
    else record h { fmt = 0 }

-- `rtmp_chunk_header_zip`: the compressed header, and the packets with it saved.
unfoldable pub header_zip : List Packet → ChunkHeader → Option (ChunkHeader × List Packet)
header_zip pkts h = elim (packet_find pkts h.cid) [
  | none ↦ none
  | some i ↦
      let pkt = get_or pkts i zero_packet in
      let z = zip_against h pkt in
      some (z, set pkts i (record pkt { header = z; clock = h.timestamp }))
]

-- The extended timestamp, if the header's timestamp needs it.
abbrev pub extension : ChunkHeader → List ℕ
extension h = if leb 0xffffff h.timestamp then (extended_timestamp_write h.timestamp).0 else []

-- The header of the first chunk, and of those that follow.
unfoldable pub first_chunk_header : ChunkHeader → List ℕ
unfolding extended_timestamp_write
first_chunk_header h =
    (basic_header_write h.fmt h.cid).0 ++ ((message_header_write h).0 ++ extension h)

unfoldable pub next_chunk_header : ChunkHeader → List ℕ
unfolding extended_timestamp_write
next_chunk_header h = (basic_header_write 3 h.cid).0 ++ extension h

-- -EINVAL
abbrev pub einval : ℤ
einval = negsuc 21

module _ {S : Type 0} (send : List ℕ → List ℕ → S → ℤ × S) where
  -- The `while` loop: `p` is the header of the next chunk. `none` is the loop still running when
  -- the fuel is used up; each round sends a byte at least unless the chunk size is 0.
  unfoldable pub send_chunks : ℕ → ℕ → ChunkHeader → List ℕ → List ℕ → S → Option (ℤ × S)
  send_chunks fuel chunk_size h p [] s = some (pos 0, s)
  send_chunks zero chunk_size h p (b ∷ bs) s = none
  send_chunks (suc fuel) chunk_size h p (b ∷ bs) s =
      let (r, s') = send p (take chunk_size (b ∷ bs)) s in
      let rest =
        send_chunks fuel chunk_size h (next_chunk_header h) (drop chunk_size (b ∷ bs)) s' in
      if eqb_ℤ r (pos 0) then rest else some (r, s')

  -- `rtmp_chunk_write`: what it returns, the packets and the state of `send`. Of
  -- `payload` it reads `length` bytes.
  unfoldable pub chunk_write :
      ℕ → ℕ → List Packet → ChunkHeader → List ℕ → S → Option (ℤ × List Packet × S)
  chunk_write fuel chunk_size pkts h payload s = elim (header_zip pkts h) [
    | none ↦ some (einval, pkts, s)
    | some (z, pkts') ↦
        if leb 0xffffff z.length
        then some (einval, pkts', s)
        else elim (send_chunks fuel chunk_size z (first_chunk_header z) (take z.length payload) s) [
          | none ↦ none
          | some (r, s') ↦ some (r, pkts', s')
        ]
  ]
