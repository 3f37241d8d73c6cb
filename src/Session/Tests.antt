-- ===== src/Session/Tests.antt =====
-- The sessions of src/session at concrete frames, with durations in whole seconds.
use seastar_live.Prelude.{
  ℕ, ◌*◌, ◌≡◌, refl, Bool, true, false, not, none, some, List, [], ◌∷◌, ◌++◌, ◌==◌,
}
use seastar_live.Prelude.Int.{ℤ, pos, negsuc, ltb_ℤ}
use seastar_live.Frame.{Frame, Media, Metadata, media, metadata}
use seastar_live.Frame.Queue.{FrameQueue, empty_queue}
use seastar_live.Frame.Queue.Tracked.{medias}
use seastar_live.Frame.Gop.{GopQueue}
use seastar_live.Frame.Gop.Safe.{Safe}
use seastar_live.Session.Impl.{
  SessionImpl, default_status, is_complete, on_begin_report, on_begin, on_terminate,
}
use seastar_live.Session.Impl.Verdicts.{
  call_media, call_cancel, call_end, call_timeout, steps, verdict, reports_of, told,
  on_terminate-verdict,
}
use seastar_live.Session.Publish.{PublishSession, add_subscriber, publish_frames}
use seastar_live.Session.Publish.Delivery.{flags, no_blank}
use seastar_live.Session.Publish.Streams.{stream, add_subscriber-stream}
use seastar_live.Session.Play.{AsyncQueue, PlaySession, flv_header, write_frames}
use seastar_live.Session.Play.Queued.{
  QueueCall, call_push, call_notify, call_not_empty, call_close, queue_calls, taken_medias, pushed,
  queue_calls-medias,
}
use seastar_live.Session.Play.Written.{tags, last_meta, write_frames-tags}

abbrev keyframe : ℕ → Media
keyframe t = record { is_video = true; is_keyframe = true; dts = pos t; payload = 7 ∷ t ∷ [] }

abbrev both : Metadata
both = record {
  video = record { codecid = pos 7; valid = true };
  audio = record { codecid = pos 10; valid = true };
}

abbrev frames : List Frame
frames = metadata both ∷ media (keyframe 1) ∷ media (keyframe 2) ∷ []

abbrev cache : GopQueue ℕ
cache = record {
  min_cache_duration = 1;
  first_metadata_frame = none;
  latest_metadata_frame = none;
  first_media_frame = none;
  latest_media_frame = none;
  current = empty_queue;
  gops = [];
}

cache-Safe : Safe cache
cache-Safe = record {
  held = λ h. h;
  gops_paired = tt;
  current_paired = record { leading = λ h. h; known = λ h. h };
}

abbrev impl : SessionImpl
impl = record {
  is_done = false;
  is_canceled = false;
  is_failed = false;
  is_timeout = false;
  status = default_status;
  start_dts = negsuc 0;
  current_dts = negsuc 0;
  has_lifecycle = true;
  reports = [];
}

abbrev publisher : PublishSession ℕ
publisher = record {
  impl = impl;
  media_type = 0;
  temporary_frames = [];
  gops_cache = cache;
  subscribers = record { sub = 1; receiving = true } ∷ [];
  inbox = λ v. [];
  told = [];
}

abbrev everyone : ℕ → Bool
everyone v = true

abbrev positive : ℕ → Bool
positive d = not (d == 0)

abbrev long_enough : ℤ → ℕ → Bool
long_enough t d = not (ltb_ℤ t (pos (d * 1000)))

abbrev never : GopQueue ℕ → Bool
never g = false

on_terminate-verdict_example :
    reports_of (
      on_terminate
        (steps (on_begin impl) (call_media (pos 3) ∷ call_cancel ∷ call_end ∷ call_timeout ∷ [])))
    ≡ told
        (on_begin_report ∷ [])
        (verdict none (call_media (pos 3) ∷ call_cancel ∷ call_end ∷ call_timeout ∷ []))
on_terminate-verdict_example =
    on_terminate-verdict impl (call_media (pos 3) ∷ call_cancel ∷ call_end ∷ call_timeout ∷ []) refl

add_subscriber-stream_example :
    (q : PublishSession ℕ) × (publish_frames everyone positive long_enough 100 never
        (add_subscriber publisher 2)
        frames
      ≡ some (true, q))
    × (q.inbox 2 ≡ publisher.inbox 2 ++ stream positive long_enough 100 never false cache frames)
unfolding flags no_blank is_complete
add_subscriber-stream_example =
    add_subscriber-stream everyone (λ v. refl) positive long_enough 100 never publisher 2 frames
      cache-Safe refl refl refl

abbrev queue : AsyncQueue
queue = record { base = empty_queue; closed = false; waiting = false; taken = [] }

abbrev calls : List QueueCall
calls =
    call_push (media (keyframe 1))
    ∷ call_not_empty
    ∷ call_push (metadata both)
    ∷ call_push (metadata both)
    ∷ call_notify
    ∷ call_push (media (keyframe 2))
    ∷ call_close
    ∷ []

queue_calls-medias_example :
    taken_medias (queue_calls queue calls).taken ++ medias (queue_calls queue calls).base.queue
    ≡ (taken_medias queue.taken ++ medias queue.base.queue) ++ pushed calls
queue_calls-medias_example = queue_calls-medias queue calls

abbrev player : PlaySession
player = record { impl = impl; media_types = 5; has_pub = true; flv_queue = queue }

abbrev never_queue : FrameQueue → Bool
never_queue q = false

write_frames-tags_example :
    write_frames (record { flv_header_sent = false; meta = none }) frames
    ≡ some (
      record {
        flv_header_sent = true;
        meta = some (last_meta both (media (keyframe 1) ∷ media (keyframe 2) ∷ []));
      },
      flv_header true true ∷ tags both frames,
    )
unfolding no_blank
write_frames-tags_example =
    write_frames-tags both (media (keyframe 1) ∷ media (keyframe 2) ∷ []) refl
