-- ===== src/Session/Rtmp/Tests.antt =====
-- The publisher of an RTMP connection (src/session/rtmp/publish_session.cc) at concrete packets.
use seastar_live.Prelude.{
  ℕ, ◌*◌, ◌≡◌, refl, Bool, true, false, not, none, some, List, [], ◌∷◌, arith, ◌==◌,
}
use seastar_live.Prelude.Int.{ℤ, pos, negsuc, ltb_ℤ}
use seastar_live.Frame.{Metadata}
use seastar_live.Frame.Queue.{empty_queue}
use seastar_live.Frame.Gop.{GopQueue}
use seastar_live.Session.Impl.{default_status, is_complete}
use seastar_live.Session.Publish.{has_subscriber}
use seastar_live.Session.Rtmp.Publish.{
  RtmpPublisher, PipeState, Packet, video, script, other, Codec, add_rtmp_subscriber, end_rtmp,
  cancel_rtmp, fail_rtmp,
}
use seastar_live.Session.Rtmp.Publish.Receive.{read_once}
use seastar_live.Session.Rtmp.Publish.Times.{makes_script, read_once-script}
use seastar_live.Session.Rtmp.Publish.Untold.{add_rtmp_subscriber_untold}

abbrev cache : GopQueue ℕ
cache = record {
  min_cache_duration = 1;
  first_metadata_frame = none;
  latest_metadata_frame = none;
  first_media_frame = none;
  latest_media_frame = none;
  current = empty_queue;
  gops = [];
}

abbrev publisher : RtmpPublisher ℕ
publisher = record {
  base = record {
    impl = record {
      is_done = false;
      is_canceled = false;
      is_failed = false;
      is_timeout = false;
      status = default_status;
      start_dts = negsuc 0;
      current_dts = negsuc 0;
      has_lifecycle = true;
      reports = [];
    };
    media_type = 0;
    temporary_frames = [];
    gops_cache = cache;
    subscribers = [];
    inbox = λ v. [];
    told = [];
  };
  rtmp_cache = cache;
  rtmp_subscribers = [];
  rtmp_inbox = λ v. [];
  last_actual_dts = negsuc 0;
  last_end_dts = negsuc 0;
}

abbrev both : Metadata
both = record {
  video = record { codecid = pos 7; valid = true };
  audio = record { codecid = pos 10; valid = true };
}

-- A parser of 2 bytes for any command, and tag headers of 5 bytes.
abbrev codec : Codec
codec = record {
  parse_amf_command = λ bytes. some (other, 2);
  load = λ m bytes. some m;
  decode_sample_access = λ bytes. true;
  video_header =
      λ bytes. some (record { sequence_header = false; keyframe = true; codecid = 7 }, 5);
  load_video = λ m n bytes. some m;
  audio_header = λ bytes. none;
  load_audio = λ m n bytes. some m;
  new_metadata = both;
  equal = λ m n. true;
}

abbrev at_time : ℕ → Packet
at_time t = record { type = video; bytes = 23 ∷ 1 ∷ 0 ∷ 0 ∷ 0 ∷ 9 ∷ []; dts = pos t }

abbrev command : Packet
command = record { type = script; bytes = 1 ∷ 2 ∷ 3 ∷ []; dts = pos 0 }

abbrev packets : List Packet
packets = at_time 5 ∷ at_time 9 ∷ at_time 3 ∷ []

abbrev waiting : PipeState
waiting = record { meta = none; header_sent = false }

abbrev everyone : ℕ → Bool
everyone v = true

abbrev positive : ℕ → Bool
positive d = not (d == 0)

abbrev long_enough : ℤ → ℕ → Bool
long_enough t d = not (ltb_ℤ t (pos (d * 1000)))

abbrev never : GopQueue ℕ → Bool
never g = false

read_once-script_example :
    read_once positive long_enough everyone 100 never 1000 codec waiting publisher command ≡ none
unfolding makes_script is_complete
read_once-script_example =
    read_once-script positive long_enough everyone 100 never 1000 codec waiting publisher command
      refl refl (omega arith) (omega arith) refl

add_rtmp_subscriber_untold_example :
    let q = add_rtmp_subscriber publisher 4 in
    (has_subscriber 4 q.rtmp_subscribers ≡ true)
    × ((end_rtmp q).base.told ≡ [])
    × ((cancel_rtmp q).base.told ≡ [])
    × ((fail_rtmp q default_status).base.told ≡ [])
add_rtmp_subscriber_untold_example = add_rtmp_subscriber_untold publisher 4 default_status refl
