-- ===== src/Session/Rtmp/Play.antt =====
-- src/session/rtmp/play_session.cc: the player of an RTMP connection, which queues the frames that its publisher
-- passes on and writes them as packets. The queue is that of Session/Play. The bytes of tags, and metadata
-- cut down to a media type, are made elsewhere: a `Tags`. `too_long` is the comparison of the queue's
-- float `duration()` with the setting. A frame with neither flag is a script or an unknown frame; no
-- script gets through a publisher's cache. The hook `on_codec`, the subscription and the queue of the class that it
-- extends, which an RTMP player does not fill, are left out.
pub mod Allowed
pub mod Written
mod Tests
use seastar_live.Prelude.{
  ℕ, zero, suc, ◌+◌, ◌-◌, ◌*◌, ◌/◌, ◌%◌, ◌^◌, ◌≤◌, ◌<◌, min, ◌≡◌, refl, sym, ap, ap₂, ◌∙◌, ◌≢◌, ◌↔◌,
  ◌⊎◌, inl, inr, Bool, true, false, ◌&&◌, ◌||◌, not, Option, none, some, List, [], ◌∷◌, ◌++◌, map,
  append-nil, append_assoc, arith, ltb, leb, ◌==◌, if◌then◌else◌, if_keeps, if_then, if_else,
  ltb→lt, lt→ltb, leb→le, ==_iff, tests, Bool-cases, Option-cases, length, get_elem?, set,
  length-append, get_or, take, drop, replicate, take-append-drop,
}
use seastar_live.Prelude.Int.{ℤ, pos}
use Prim.Native.Nat.{bit_and}
use seastar_live.Frame.{
  Frame, Media, Metadata, media, metadata, blank, media_type, media_none, media_audio, media_video,
  is_enabled, media_options,
}
use seastar_live.Frame.Queue.{FrameQueue, empty_queue}
use seastar_live.Session.Impl.{
  SessionImpl, Status, is_complete, _end, _cancel, _fail, on_timeout, on_begin, on_media,
}
use seastar_live.Session.Play.{
  AsyncQueue, push, notify_not_empty, close, not_empty, clear_queue, validate_queue, on_impl_frame,
}
use seastar_live.Session.Rtmp.Publish.{Packet, PacketType, video, audio, script}

pub record Tags : Type 0 where
  pub script_data : Metadata → List ℕ
  pub audio_data : Metadata → List ℕ
  pub video_data : Metadata → List ℕ
  pub media_data : Metadata → Media → List ℕ
  pub restricted : Metadata → ℕ → Metadata

pub record RtmpPlayer : Type 0 where
  pub impl : SessionImpl
  pub media_types : ℕ
  pub rtmp_queue : AsyncQueue

unfoldable pub allow_rtmp_type : RtmpPlayer → ℕ → Bool
allow_rtmp_type p type = not (bit_and p.media_types type == media_none)

-- `_end`, `_cancel` and `_fail` with the hooks of this class.
unfoldable pub end_rtmp_play : RtmpPlayer → RtmpPlayer
unfolding is_complete _end close
end_rtmp_play p =
    if is_complete p.impl
    then p
    else record p { impl = _end p.impl; rtmp_queue = close p.rtmp_queue }

unfoldable pub cancel_rtmp_play : RtmpPlayer → RtmpPlayer
unfolding is_complete _cancel close
cancel_rtmp_play p =
    if is_complete p.impl
    then p
    else record p { impl = _cancel p.impl; rtmp_queue = close p.rtmp_queue }

unfoldable pub fail_rtmp_play : RtmpPlayer → Status → RtmpPlayer
unfolding is_complete _fail close
fail_rtmp_play p st =
    if is_complete p.impl
    then p
    else record p { impl = _fail p.impl st; rtmp_queue = close p.rtmp_queue }

unfoldable pub timeout_rtmp_play : RtmpPlayer → RtmpPlayer
unfolding on_timeout close
timeout_rtmp_play p = record p { impl = on_timeout p.impl; rtmp_queue = close p.rtmp_queue }

unfoldable pub begin_rtmp_play : RtmpPlayer → RtmpPlayer
unfolding on_begin clear_queue
begin_rtmp_play p = record p { impl = on_begin p.impl; rtmp_queue = clear_queue p.rtmp_queue }

unfoldable pub refused_rtmp : RtmpPlayer → Frame → Bool
unfolding allow_rtmp_type
refused_rtmp p (media m) = not (allow_rtmp_type p (media_type m))
refused_rtmp p (metadata m) = false
refused_rtmp p blank = false

module _ (max_bytes : ℕ) (too_long : FrameQueue → Bool) where
  unfoldable pub on_play_frame : RtmpPlayer → Frame → RtmpPlayer
  unfolding is_complete refused_rtmp push validate_queue cancel_rtmp_play
  on_play_frame p f =
      if is_complete p.impl || refused_rtmp p f
      then p
      else let q : RtmpPlayer = record p {
        impl = on_impl_frame p.impl f;
        rtmp_queue = push p.rtmp_queue f;
      } in
        if validate_queue max_bytes too_long q.rtmp_queue.base then q else cancel_rtmp_play q

  unfoldable pub on_each_play_frame : RtmpPlayer → List Frame → RtmpPlayer
  unfolding on_play_frame
  on_each_play_frame p [] = p
  on_each_play_frame p (f ∷ fs) = on_each_play_frame (on_play_frame p f) fs

  -- `on_frames`; `from_pub`: whether the frames come from the player's publisher.
  unfoldable pub on_play_frames : RtmpPlayer → Bool → List Frame → RtmpPlayer
  unfolding on_each_play_frame is_complete notify_not_empty
  on_play_frames p from_pub fs =
      let q = on_each_play_frame p fs in
      let told =
        if is_complete q.impl then q else record q { rtmp_queue = notify_not_empty q.rtmp_queue } in
      if not from_pub || is_complete p.impl then p else told

module _ (tags : Tags) where
  -- A packet of bytes, or nothing where there are none.
  abbrev pub packet_of : PacketType → ℤ → List ℕ → List Packet
  packet_of type dts [] = []
  packet_of type dts (b ∷ bs) = record { type = type; bytes = b ∷ bs; dts = dts } ∷ []

  unfoldable pub write_audio_metadata : RtmpPlayer → Metadata → List Packet
  unfolding allow_rtmp_type
  write_audio_metadata p m =
      if not (is_enabled m.audio) || not (allow_rtmp_type p media_audio)
      then []
      else packet_of audio (pos 0) (tags.audio_data m)

  unfoldable pub write_video_metadata : RtmpPlayer → Metadata → List Packet
  unfolding allow_rtmp_type
  write_video_metadata p m =
      if not (is_enabled m.video) || not (allow_rtmp_type p media_video)
      then []
      else packet_of video (pos 0) (tags.video_data m)

  -- `(options & ~_media_type) != none` is that the options are not all allowed.
  unfoldable pub written_metadata : RtmpPlayer → Metadata → Metadata
  written_metadata p m =
      if bit_and (media_options m) p.media_types == media_options m
      then m
      else tags.restricted m p.media_types

  unfoldable pub write_metadata : RtmpPlayer → Metadata → List Packet
  unfolding written_metadata write_audio_metadata write_video_metadata
  write_metadata p m =
      let n = written_metadata p m in
      packet_of script (pos 0) (tags.script_data n)
      ++ write_audio_metadata p n
      ++ write_video_metadata p n

  -- `assert(metadata)` is empty, and the test behind it is not.
  unfoldable pub write_rtmp_media : Option Metadata → Media → List Packet
  write_rtmp_media none m = []
  write_rtmp_media (some n) m =
      packet_of (if m.is_video then video else audio) m.dts (tags.media_data n m)

  unfoldable pub write_rtmp_frame :
      RtmpPlayer → Option Metadata → Frame → List Packet × Option Metadata
  unfolding write_metadata write_rtmp_media
  write_rtmp_frame p st (metadata m) = (write_metadata p m, some m)
  write_rtmp_frame p st (media m) = (write_rtmp_media st m, st)
  write_rtmp_frame p st blank = ([], st)

  -- `write_once` on what the queue gave.
  unfoldable pub write_rtmp_frames :
      RtmpPlayer → Option Metadata → List Frame → List Packet × Option Metadata
  unfolding write_rtmp_frame
  write_rtmp_frames p st [] = ([], st)
  write_rtmp_frames p st (f ∷ fs) =
      let (a, st') = write_rtmp_frame p st f in
      let (b, st'') = write_rtmp_frames p st' fs in (a ++ b, st'')

  -- The turns of the loop of `start_with`, while writes succeed. No frames end the player.
  unfoldable pub write_turns : RtmpPlayer → Option Metadata → List (List Frame) → List Packet
  unfolding write_rtmp_frames
  write_turns p st [] = []
  write_turns p st ([] ∷ turns) = []
  write_turns p st ((f ∷ fs) ∷ turns) =
      let (a, st') = write_rtmp_frames p st (f ∷ fs) in a ++ write_turns p st' turns
