-- ===== src/Session/Rtmp/Play/Tests.antt =====
-- The player of an RTMP connection (src/session/rtmp/play_session.cc) that wants video only.
use seastar_live.Prelude.{ℕ, ◌≡◌, refl, Bool, true, false, none, List, [], ◌∷◌}
use seastar_live.Prelude.Int.{pos, negsuc}
use seastar_live.Frame.{Media, Metadata, media, metadata, media_video}
use seastar_live.Frame.Queue.{FrameQueue, empty_queue}
use seastar_live.Session.Impl.{default_status}
use seastar_live.Session.Rtmp.Play.{Tags, RtmpPlayer, write_turns}
use seastar_live.Session.Rtmp.Play.Allowed.{
  all_allowed, RtmpCall, call_wait, call_frames, rtmp_calls,
}
use seastar_live.Session.Rtmp.Play.Written.{rtmp_calls-all_allowed}

abbrev tags : Tags
tags = record {
  script_data = λ m. 2 ∷ [];
  audio_data = λ m. 175 ∷ [];
  video_data = λ m. 23 ∷ [];
  media_data = λ m x. x.payload;
  restricted = λ m types. m;
}

abbrev player : RtmpPlayer
player = record {
  impl = record {
    is_done = false;
    is_canceled = false;
    is_failed = false;
    is_timeout = false;
    status = default_status;
    start_dts = negsuc 0;
    current_dts = negsuc 0;
    has_lifecycle = true;
    reports = [];
  };
  media_types = media_video;
  rtmp_queue = record { base = empty_queue; closed = false; waiting = false; taken = [] };
}

abbrev both : Metadata
both = record {
  video = record { codecid = pos 7; valid = true };
  audio = record { codecid = pos 10; valid = true };
}

abbrev at_time : Bool → ℕ → Media
at_time v t = record { is_video = v; is_keyframe = v; dts = pos t; payload = t ∷ [] }

abbrev turns : List RtmpCall
turns =
    call_wait
    ∷ call_frames true (metadata both ∷ media (at_time true 1) ∷ media (at_time false 2) ∷ [])
    ∷ call_wait
    ∷ call_frames true (media (at_time true 3) ∷ [])
    ∷ []

abbrev never : FrameQueue → Bool
never q = false

rtmp_calls-all_allowed_example :
    let q = rtmp_calls 100 never player turns in
    all_allowed media_video (write_turns tags q none q.rtmp_queue.taken) ≡ true
rtmp_calls-all_allowed_example = rtmp_calls-all_allowed tags 100 never player turns refl refl
