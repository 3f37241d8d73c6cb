-- ===== src/Session/Rtmp/Publish.antt =====
-- src/session/rtmp/publish_session.cc: the publisher of an RTMP connection, which makes frames of the FLV tags
-- it receives, gives them times that do not run back, caches them and passes them to subscribers of its own:
-- `_subscribers` hides the member of the class it extends, which is in `base`. What src/flv and the FLV library
-- read of a tag are arguments, a `Codec`: a reader answers the value and the bytes it used, `none` a negative
-- result, and a loader the metadata it makes of a copy of the last. Results: whether the future succeeds, and
-- `none` a read through a null pointer. Times are within an int64_t.
pub mod Receive
pub mod Order
pub mod Times
pub mod Untold
pub mod Starts
pub mod Ends
use seastar_live.Prelude.{
  ℕ, zero, suc, ◌+◌, ◌-◌, ◌*◌, ◌/◌, ◌%◌, ◌^◌, ◌≤◌, ◌<◌, min, ◌≡◌, refl, sym, ap, ap₂, ◌∙◌, ◌≢◌, ◌↔◌,
  ◌⊎◌, inl, inr, Bool, true, false, ◌&&◌, ◌||◌, not, Option, none, some, List, [], ◌∷◌, ◌++◌, map,
  append-nil, append_assoc, arith, ltb, leb, ◌==◌, if◌then◌else◌, if_keeps, if_then, if_else,
  ltb→lt, lt→ltb, leb→le, ==_iff, tests, Bool-cases, Option-cases, length, get_elem?, set,
  length-append, get_or, take, drop, replicate, take-append-drop,
}
use seastar_live.Prelude.Int.{ℤ, pos, negsuc, ltb_ℤ, ◌+ℤ◌}
use seastar_live.Frame.{Frame, Media, Metadata, media, metadata, blank, is_enabled}
use seastar_live.Frame.Gop.{GopQueue, add_frame, clear_gops, set_min_cache_duration}
use seastar_live.Session.Impl.{SessionImpl, Status, on_media, is_complete, on_timeout}
use seastar_live.Session.Publish.{
  PublishSession, SubscriberItem, deliver, validate_cache, cancel_publish, end_publish,
  fail_publish, has_subscriber, erase_subscriber, begin_publish, on_settings_update,
}

pub record RtmpPublisher (F : Type 0) : Type 0 where
  pub base : PublishSession F
  pub rtmp_cache : GopQueue F
  pub rtmp_subscribers : List SubscriberItem
  pub rtmp_inbox : ℕ → List Frame
  pub last_actual_dts : ℤ
  pub last_end_dts : ℤ

pub record PipeState : Type 0 where
  pub meta : Option Metadata
  pub header_sent : Bool

pub data PacketType : Type 0 where
  video : PacketType
  audio : PacketType
  script : PacketType
  unknown_type : PacketType

pub record Packet : Type 0 where
  pub type : PacketType
  pub bytes : List ℕ
  pub dts : ℤ

-- `amf_command`: `other` is any command but the two.
pub data AmfCommand : Type 0 where
  meta_data : AmfCommand
  rtmp_sample_access : AmfCommand
  other : AmfCommand

pub record TagHeader : Type 0 where
  pub sequence_header : Bool
  pub keyframe : Bool
  pub codecid : ℕ

pub record Codec : Type 0 where
  pub parse_amf_command : List ℕ → Option (AmfCommand × ℕ)
  pub load : Metadata → List ℕ → Option Metadata
  pub decode_sample_access : List ℕ → Bool
  pub video_header : List ℕ → Option (TagHeader × ℕ)
  pub load_video : Metadata → ℕ → List ℕ → Option Metadata
  pub audio_header : List ℕ → Option (TagHeader × ℕ)
  pub load_audio : Metadata → ℕ → List ℕ → Option Metadata
  pub new_metadata : Metadata
  pub equal : Metadata → Metadata → Bool

-- `len - n` on size_t.
abbrev pub remaining : List ℕ → ℕ → ℕ
remaining bytes n = (length bytes + 2 ^ 64 - n) % 2 ^ 64

abbrev pub copied : Codec → PipeState → Metadata
copied c st = elim st.meta [ none ↦ c.new_metadata | some m ↦ m ]

module _ {F : Type 0} where
  unfoldable pub add_rtmp_subscriber : RtmpPublisher F → ℕ → RtmpPublisher F
  unfolding has_subscriber
  add_rtmp_subscriber p sub = if has_subscriber sub p.rtmp_subscribers then p else record p {
    rtmp_subscribers = p.rtmp_subscribers ++ record { sub = sub; receiving = false } ∷ [];
  }

  unfoldable pub remove_rtmp_subscriber : RtmpPublisher F → ℕ → RtmpPublisher F
  unfolding erase_subscriber
  remove_rtmp_subscriber p sub = record p {
    rtmp_subscribers = erase_subscriber sub p.rtmp_subscribers;
  }

  unfoldable pub remove_all_rtmp_subscribers : RtmpPublisher F → RtmpPublisher F
  remove_all_rtmp_subscribers p = record p { rtmp_subscribers = [] }

  unfoldable pub begin_rtmp : RtmpPublisher F → RtmpPublisher F
  unfolding begin_publish clear_gops
  begin_rtmp p = record p {
    base = begin_publish p.base;
    rtmp_cache = clear_gops p.rtmp_cache;
    last_actual_dts = negsuc 0;
    last_end_dts = negsuc 0;
  }

  unfoldable pub on_rtmp_settings_update : RtmpPublisher F → F → RtmpPublisher F
  unfolding on_settings_update set_min_cache_duration
  on_rtmp_settings_update p d = record p {
    base = on_settings_update p.base d;
    rtmp_cache = set_min_cache_duration p.rtmp_cache d;
  }

  -- `rectify_dts` on the time of a media frame: the time it is given, and the session.
  unfoldable pub rectified : RtmpPublisher F → ℤ → ℤ × RtmpPublisher F
  rectified p dts =
      let backflow = ltb_ℤ dts p.last_actual_dts in
      let last_end = if backflow then p.base.impl.current_dts +ℤ pos 1 else p.last_end_dts in
      (
        if backflow || ltb_ℤ (pos 0) last_end then dts +ℤ last_end else dts,
        record p { last_end_dts = last_end; last_actual_dts = dts },
      )

  unfoldable pub rectify_dts : RtmpPublisher F → Frame → Frame × RtmpPublisher F
  unfolding rectified
  rectify_dts p (media m) = let (dts, q) = rectified p m.dts in (media (record m { dts = dts }), q)
  rectify_dts p (metadata m) = (metadata m, p)
  rectify_dts p blank = (blank, p)

  -- `on_frame`, which keeps the times of media.
  unfoldable pub on_rtmp_frame : RtmpPublisher F → Frame → RtmpPublisher F
  unfolding on_media
  on_rtmp_frame p (media m) = record p {
    base = record (p.base) { impl = on_media p.base.impl m.dts };
  }
  on_rtmp_frame p (metadata m) = p
  on_rtmp_frame p blank = p

  -- The hooks tell the subscribers of the class it extends.
  unfoldable pub end_rtmp : RtmpPublisher F → RtmpPublisher F
  unfolding end_publish
  end_rtmp p = record p { base = end_publish p.base }

  unfoldable pub fail_rtmp : RtmpPublisher F → Status → RtmpPublisher F
  unfolding fail_publish
  fail_rtmp p st = record p { base = fail_publish p.base st }

  unfoldable pub cancel_rtmp : RtmpPublisher F → RtmpPublisher F
  unfolding cancel_publish
  cancel_rtmp p = record p { base = cancel_publish p.base }

  unfoldable pub added :
      Frame → RtmpPublisher F → Option (Bool × GopQueue F) → Option (Bool × RtmpPublisher F)
  unfolding on_rtmp_frame
  added f p none = none
  added f p (some (false, cache)) = some (false, record p { rtmp_cache = cache })
  added f p (some (true, cache)) = some (true, on_rtmp_frame (record p { rtmp_cache = cache }) f)

  module _ (is_positive : F → Bool) (reaches : ℤ → F → Bool) where
    unfoldable pub add_rectified : RtmpPublisher F → Frame → Option (Bool × RtmpPublisher F)
    unfolding rectify_dts add_frame
    add_rectified p f =
        let (f', q) = rectify_dts p f in added f' q (add_frame is_positive reaches q.rtmp_cache f')

    abbrev pub with_pipe :
        PipeState → Option (Bool × RtmpPublisher F) → Option (Bool × PipeState × RtmpPublisher F)
    with_pipe st none = none
    with_pipe st (some (ok, p)) = some (ok, st, p)

    -- Whether metadata is that of the connection already.
    abbrev pub is_known : Codec → PipeState → Metadata → Bool
    is_known c st m = elim st.meta [ none ↦ false | some old ↦ c.equal old m ]

    -- `add_frame` with the state of the connection; `assert(frame->media->size())` is empty.
    unfoldable pub add_received :
        Codec → PipeState → RtmpPublisher F → Frame → Option (Bool × PipeState × RtmpPublisher F)
    unfolding add_rectified
    add_received c st p (metadata m) =
        let st' : PipeState = record { meta = some m; header_sent = false } in
        if is_known c st m
        then some (false, st, p)
        else if not (is_enabled m.audio || is_enabled m.video)
        then some (false, st', p)
        else with_pipe st' (add_rectified p (metadata m))
    add_received c st p (media m) = with_pipe st (add_rectified p (media m))
    add_received c st p blank = with_pipe st (add_rectified p blank)

    module _ (accepts : ℕ → Bool) (max_bytes : ℕ) (too_long : GopQueue F → Bool) where
      unfoldable pub on_frame_for_each_rtmp_subscriber :
          RtmpPublisher F → Frame → Bool × RtmpPublisher F
      unfolding deliver
      on_frame_for_each_rtmp_subscriber p f =
          let (sent, items, inbox) =
            deliver accepts p.rtmp_cache f p.rtmp_subscribers p.rtmp_inbox in
          (sent, record p { rtmp_subscribers = items; rtmp_inbox = inbox })

      unfoldable pub publish_rtmp : RtmpPublisher F → Frame → Bool × RtmpPublisher F
      unfolding validate_cache on_frame_for_each_rtmp_subscriber cancel_rtmp
      publish_rtmp p f =
          if validate_cache max_bytes too_long p.rtmp_cache
          then on_frame_for_each_rtmp_subscriber p f
          else (true, cancel_rtmp p)

      -- `if (add_frame(st, frame)) return publish(st, frame);`, with the frame that `rectify_dts` wrote to.
      unfoldable pub then_publish :
          Frame
          → Option (Bool × PipeState × RtmpPublisher F)
          → Option (Bool × PipeState × RtmpPublisher F)
      unfolding publish_rtmp
      then_publish f none = none
      then_publish f (some (false, st, p)) = some (true, st, p)
      then_publish f (some (true, st, p)) = let (ok, q) = publish_rtmp p f in some (ok, st, q)

      unfoldable pub receive_frame :
          Codec → PipeState → RtmpPublisher F → Frame → Option (Bool × PipeState × RtmpPublisher F)
      unfolding add_received rectify_dts
      receive_frame c st p f = then_publish (rectify_dts p f).0 (add_received c st p f)

      unfoldable pub receive_meta :
          Codec
          → PipeState
          → RtmpPublisher F
          → Option Metadata
          → Option (Bool × PipeState × RtmpPublisher F)
      unfolding receive_frame
      receive_meta c st p none = some (false, st, p)
      receive_meta c st p (some m) = receive_frame c st p (metadata m)
