-- ===== src/Session/Rtmp/Publish/Times.antt =====
-- The packets of an RTMP connection (src/session/rtmp/publish_session.cc) leave the times of its frames in order.
use seastar_live.Prelude.{
  ℕ, ◌≤◌, ◌<◌, ◌≡◌, refl, Bool, true, false, ◌&&◌, not, Option, none, some, List, [], ◌∷◌, arith,
  leb, ◌==◌, length,
}
use seastar_live.Prelude.Int.{ℤ, pos, ltb_ℤ}
use seastar_live.Frame.Gop.{GopQueue, add_frame, validate_frame}
use seastar_live.Session.Impl.{is_complete}
use seastar_live.Session.Rtmp.Publish.{
  RtmpPublisher, PipeState, Packet, PacketType, video, audio, script, unknown_type, AmfCommand,
  meta_data, rtmp_sample_access, other, Codec, remaining, add_received, add_rectified, rectify_dts,
  added, then_publish, receive_frame,
}
use seastar_live.Session.Rtmp.Publish.Receive.{
  receive_command, on_recv_script, validate_packet, by_type, on_recv_packet, read_once,
}

-- A script packet with a command that makes a frame of it.
unfoldable pub makes_script : List ℕ → Option (AmfCommand × ℕ) → Bool
makes_script bytes none = false
makes_script bytes (some (meta_data, n)) = false
makes_script bytes (some (rtmp_sample_access, n)) = false
makes_script bytes (some (other, n)) = not (remaining bytes n == 0)

unfoldable pub is_harmless : Codec → Packet → PacketType → Bool
unfolding makes_script
is_harmless c pkt script = not (makes_script pkt.bytes (c.parse_amf_command pkt.bytes))
is_harmless c pkt video = true
is_harmless c pkt audio = true
is_harmless c pkt unknown_type = true

-- No packet has a negative time or makes a script frame.
unfoldable pub all_harmless : Codec → List Packet → Bool
unfolding is_harmless
all_harmless c [] = true
all_harmless c (pkt ∷ pkts) =
    not (ltb_ℤ pkt.dts (pos 0)) && is_harmless c pkt pkt.type && all_harmless c pkts

module _ {F : Type 0} (is_positive : F → Bool) (reaches : ℤ → F → Bool) (accepts : ℕ → Bool)
    (max_bytes : ℕ) (too_long : GopQueue F → Bool) where
  module _ (max_box : ℕ) where
    script_none :
        (c : Codec) (st : PipeState) (p : RtmpPublisher F) (pkt : Packet)
        (o : Option (AmfCommand × ℕ))
        → makes_script pkt.bytes o ≡ true
        → receive_command is_positive reaches accepts max_bytes too_long c st p pkt o ≡ none
    unfolding makes_script receive_command receive_frame add_received add_rectified rectify_dts
        added then_publish add_frame validate_frame
    script_none c st p pkt none m = absurd (ground arith)
    script_none c st p pkt (some (meta_data, n)) m = absurd (ground arith)
    script_none c st p pkt (some (rtmp_sample_access, n)) m = absurd (ground arith)
    script_none c st p pkt (some (other, n)) m =
        let e : (remaining pkt.bytes n == 0) ≡ false = ground arith in rw e refl

    -- A script packet of a valid size with a command other than `onMetaData` and `|RtmpSampleAccess` and
    -- with something behind it makes a publisher that is not complete read through a null pointer.
    pub read_once-script :
        (c : Codec) (st : PipeState) (p : RtmpPublisher F) (pkt : Packet)
        → pkt.type ≡ script
        → makes_script pkt.bytes (c.parse_amf_command pkt.bytes) ≡ true
        → 0 < length pkt.bytes
        → length pkt.bytes ≤ max_box
        → is_complete p.base.impl ≡ false
        → read_once is_positive reaches accepts max_bytes too_long max_box c st p pkt ≡ none
    unfolding read_once on_recv_packet validate_packet by_type on_recv_script
    read_once-script c st p pkt t m l h n =
        let empty : (length pkt.bytes == 0) ≡ false = ground arith in
        let valid : not (leb (length pkt.bytes) max_box) ≡ false = ground arith in
        rw (empty, n, valid, t) (script_none c st p pkt (c.parse_amf_command pkt.bytes) m)
