-- ===== src/Session/Rtmp/Publish/Receive.antt =====
-- src/session/rtmp/publish_session.cc: what the publisher of an RTMP connection does with the packets it reads.
use seastar_live.Prelude.{
  ℕ, Bool, true, false, not, Option, none, some, List, [], ◌∷◌, leb, ◌==◌, if◌then◌else◌, length,
  drop,
}
use seastar_live.Prelude.Int.{ℤ}
use seastar_live.Frame.{Media, Metadata, media, blank}
use seastar_live.Frame.Gop.{GopQueue}
use seastar_live.Session.Impl.{is_complete}
use seastar_live.Session.Rtmp.Publish.{
  RtmpPublisher, PipeState, Packet, PacketType, video, audio, script, unknown_type, AmfCommand,
  meta_data, rtmp_sample_access, other, TagHeader, Codec, remaining, copied, receive_frame,
  receive_meta,
}

module _ {F : Type 0} (is_positive : F → Bool) (reaches : ℤ → F → Bool) (accepts : ℕ → Bool)
    (max_bytes : ℕ) (too_long : GopQueue F → Bool) where
  -- From the command and the bytes it used on; a frame of a script has neither flag.
  unfoldable pub receive_command :
      Codec
      → PipeState
      → RtmpPublisher F
      → Packet
      → Option (AmfCommand × ℕ)
      → Option (Bool × PipeState × RtmpPublisher F)
  unfolding receive_frame receive_meta
  receive_command c st p pkt none = some (false, st, p)
  receive_command c st p pkt (some (meta_data, n)) =
      if remaining pkt.bytes n == 0
      then some (true, st, p)
      else receive_meta is_positive reaches accepts max_bytes too_long c st p
          (c.load (copied c st) (drop n pkt.bytes))
  receive_command c st p pkt (some (rtmp_sample_access, n)) =
      if remaining pkt.bytes n == 0
      then some (true, st, p)
      else some (c.decode_sample_access (drop n pkt.bytes), st, p)
  receive_command c st p pkt (some (other, n)) =
      if remaining pkt.bytes n == 0
      then some (true, st, p)
      else receive_frame is_positive reaches accepts max_bytes too_long c st p blank

  unfoldable pub on_recv_script :
      Codec → PipeState → RtmpPublisher F → Packet → Option (Bool × PipeState × RtmpPublisher F)
  unfolding receive_command
  on_recv_script c st p pkt = receive_command c st p pkt (c.parse_amf_command pkt.bytes)

  -- `if (!st.metadata) return ...`, then the frame.
  unfoldable pub with_metadata :
      Codec
      → PipeState
      → RtmpPublisher F
      → Media
      → Option Metadata
      → Option (Bool × PipeState × RtmpPublisher F)
  unfolding receive_frame
  with_metadata c st p m none = some (true, st, p)
  with_metadata c st p m (some _) =
      receive_frame is_positive reaches accepts max_bytes too_long c st p (media m)

  unfoldable pub receive_video :
      Codec
      → PipeState
      → RtmpPublisher F
      → Packet
      → Option (TagHeader × ℕ)
      → Option (Bool × PipeState × RtmpPublisher F)
  unfolding receive_meta receive_frame
  receive_video c st p pkt none = some (false, st, p)
  receive_video c st p pkt (some (h, n)) =
      if remaining pkt.bytes n == 0
      then some (true, st, p)
      else if h.sequence_header
      then receive_meta is_positive reaches accepts max_bytes too_long c st p
          (c.load_video (copied c st) h.codecid (drop n pkt.bytes))
      else with_metadata c st p
          (record {
            is_video = true;
            is_keyframe = h.keyframe;
            dts = pkt.dts;
            payload = drop n pkt.bytes;
          })
          st.meta

  unfoldable pub on_recv_video :
      Codec → PipeState → RtmpPublisher F → Packet → Option (Bool × PipeState × RtmpPublisher F)
  unfolding receive_video
  on_recv_video c st p pkt = receive_video c st p pkt (c.video_header pkt.bytes)

  unfoldable pub receive_audio :
      Codec
      → PipeState
      → RtmpPublisher F
      → Packet
      → Option (TagHeader × ℕ)
      → Option (Bool × PipeState × RtmpPublisher F)
  unfolding receive_meta receive_frame
  receive_audio c st p pkt none = some (false, st, p)
  receive_audio c st p pkt (some (h, n)) =
      if remaining pkt.bytes n == 0
      then some (true, st, p)
      else if h.sequence_header
      then receive_meta is_positive reaches accepts max_bytes too_long c st p
          (c.load_audio (copied c st) h.codecid (drop n pkt.bytes))
      else with_metadata c st p
          (record {
            is_video = false;
            is_keyframe = false;
            dts = pkt.dts;
            payload = drop n pkt.bytes;
          })
          st.meta

  unfoldable pub on_recv_audio :
      Codec → PipeState → RtmpPublisher F → Packet → Option (Bool × PipeState × RtmpPublisher F)
  unfolding receive_audio
  on_recv_audio c st p pkt = receive_audio c st p pkt (c.audio_header pkt.bytes)

  -- `max_box` is the setting max_bytes_per_box.
  module _ (max_box : ℕ) where
    unfoldable pub validate_packet : Packet → Bool
    validate_packet pkt = leb (length pkt.bytes) max_box

    unfoldable pub by_type :
        Codec
        → PipeState
        → RtmpPublisher F
        → Packet
        → PacketType
        → Option (Bool × PipeState × RtmpPublisher F)
    unfolding on_recv_script on_recv_video on_recv_audio
    by_type c st p pkt script = on_recv_script c st p pkt
    by_type c st p pkt video = on_recv_video c st p pkt
    by_type c st p pkt audio = on_recv_audio c st p pkt
    by_type c st p pkt unknown_type = some (false, st, p)

    unfoldable pub on_recv_packet :
        Codec → PipeState → RtmpPublisher F → Packet → Option (Bool × PipeState × RtmpPublisher F)
    unfolding is_complete validate_packet on_recv_script on_recv_video on_recv_audio
    on_recv_packet c st p pkt =
        if is_complete p.base.impl
        then some (true, st, p)
        else if not (validate_packet pkt)
        then some (false, st, p)
        else by_type c st p pkt pkt.type

    -- `read_once` in the loop of `start_with`, over the packets of the stream: it ends at the first
    -- that fails. An empty packet is skipped.
    abbrev pub then_receive :
        (PipeState → RtmpPublisher F → Option (Bool × PipeState × RtmpPublisher F))
        → Option (Bool × PipeState × RtmpPublisher F)
        → Option (Bool × PipeState × RtmpPublisher F)
    then_receive k none = none
    then_receive k (some (false, st, p)) = some (false, st, p)
    then_receive k (some (true, st, p)) = k st p

    unfoldable pub read_once :
        Codec → PipeState → RtmpPublisher F → Packet → Option (Bool × PipeState × RtmpPublisher F)
    unfolding on_recv_packet
    read_once c st p pkt =
        if length pkt.bytes == 0 then some (true, st, p) else on_recv_packet c st p pkt

    unfoldable pub read_packets :
        Codec
        → PipeState
        → RtmpPublisher F
        → List Packet
        → Option (Bool × PipeState × RtmpPublisher F)
    unfolding read_once is_complete
    read_packets c st p [] = some (true, st, p)
    read_packets c st p (pkt ∷ pkts) =
        let rest = then_receive (λ st' q. read_packets c st' q pkts) (read_once c st p pkt) in
        if is_complete p.base.impl then some (true, st, p) else rest
