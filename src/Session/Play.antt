-- ===== src/Session/Play.antt =====
-- src/session/play_session.cc: a player, which queues the frames its publisher passes on and writes them
-- out, and the async_frame_queue_t of src/frame/frame_queue.hh between the two. `consumer` is the state of
-- the promise `_not_empty` and `taken` what the consumer's futures were given, one list for each.
-- Frames are written as chunks: the bytes of each are made elsewhere. `too_long` is the comparison of
-- the queue's float `duration()` with the setting.
pub mod Queued
pub mod Limits
pub mod Written
use seastar_live.Prelude.{
  ℕ, zero, suc, ◌+◌, ◌-◌, ◌*◌, ◌/◌, ◌%◌, ◌^◌, ◌≤◌, ◌<◌, min, ◌≡◌, refl, sym, ap, ap₂, ◌∙◌, ◌≢◌, ◌↔◌,
  ◌⊎◌, inl, inr, Bool, true, false, ◌&&◌, ◌||◌, not, Option, none, some, List, [], ◌∷◌, ◌++◌, map,
  append-nil, append_assoc, arith, ltb, leb, ◌==◌, if◌then◌else◌, if_keeps, if_then, if_else,
  ltb→lt, lt→ltb, leb→le, ==_iff, tests, Bool-cases, Option-cases, length, get_elem?, set,
  length-append, get_or, take, drop, replicate, take-append-drop,
}
use seastar_live.Prelude.Int.{ℤ}
use Prim.Native.Nat.{bit_and}
use seastar_live.Frame.{
  Frame, Media, Metadata, media, metadata, blank, media_type, media_none, is_enabled,
}
use seastar_live.Frame.Queue.{FrameQueue, empty_queue, push_back, pop_all, is_empty}
use seastar_live.Session.Impl.{
  SessionImpl, Status, is_complete, _end, _cancel, _fail, on_timeout, on_media,
}

pub record AsyncQueue : Type 0 where
  pub base : FrameQueue
  pub closed : Bool
  pub waiting : Bool
  pub taken : List (List Frame)

unfoldable pub push : AsyncQueue → Frame → AsyncQueue
unfolding push_back
push q f = record q { base = push_back q.base f }

unfoldable pub notify_not_empty : AsyncQueue → AsyncQueue
unfolding pop_all
notify_not_empty q =
    if is_empty q.base
    then q
    else if q.waiting
    then record q {
      base = (pop_all q.base).1;
      waiting = false;
      taken = q.taken ++ (pop_all q.base).0 ∷ [];
    }
    else q

unfoldable pub close : AsyncQueue → AsyncQueue
close q = if q.waiting then record q { waiting = false; taken = q.taken ++ [] ∷ [] } else q

unfoldable pub not_empty : AsyncQueue → AsyncQueue
not_empty q =
    if q.closed then record q { taken = q.taken ++ [] ∷ [] } else record q { waiting = true }

unfoldable pub clear_queue : AsyncQueue → AsyncQueue
clear_queue q = record q { base = empty_queue }

pub record PlaySession : Type 0 where
  pub impl : SessionImpl
  pub media_types : ℕ
  pub has_pub : Bool
  pub flv_queue : AsyncQueue

unfoldable pub allow_media_type : PlaySession → ℕ → Bool
allow_media_type p type = not (bit_and p.media_types type == media_none)

-- `_end`, `_cancel` and `_fail` with the hooks of this class.
unfoldable pub end_play : PlaySession → PlaySession
unfolding is_complete _end close
end_play p =
    if is_complete p.impl then p else record p { impl = _end p.impl; flv_queue = close p.flv_queue }

unfoldable pub cancel_play : PlaySession → PlaySession
unfolding is_complete _cancel close
cancel_play p =
    if is_complete p.impl
    then p
    else record p { impl = _cancel p.impl; flv_queue = close p.flv_queue }

unfoldable pub fail_play : PlaySession → Status → PlaySession
unfolding is_complete _fail close
fail_play p st =
    if is_complete p.impl
    then p
    else record p { impl = _fail p.impl st; flv_queue = close p.flv_queue }

unfoldable pub timeout_play : PlaySession → PlaySession
unfolding on_timeout close
timeout_play p = record p { impl = on_timeout p.impl; flv_queue = close p.flv_queue }

-- `validate_cache` of src/session/session.hh on a queue.
unfoldable pub validate_queue : ℕ → (FrameQueue → Bool) → FrameQueue → Bool
validate_queue max_bytes too_long q = not (ltb max_bytes q.bytes) && not (too_long q)

unfoldable pub refused : PlaySession → Frame → Bool
unfolding allow_media_type
refused p (media m) = not (allow_media_type p (media_type m))
refused p (metadata m) = false
refused p blank = false

-- `session_impl::on_frame`, which keeps the times of media.
abbrev pub on_impl_frame : SessionImpl → Frame → SessionImpl
unfolding on_media
on_impl_frame s (media m) = on_media s m.dts
on_impl_frame s (metadata m) = s
on_impl_frame s blank = s

module _ (max_bytes : ℕ) (too_long : FrameQueue → Bool) where
  unfoldable pub on_frame : PlaySession → Frame → PlaySession
  unfolding is_complete refused push validate_queue cancel_play on_impl_frame
  on_frame p f =
      if not p.has_pub || is_complete p.impl || refused p f
      then p
      else let q = record p { flv_queue = push p.flv_queue f } in
        let r = if validate_queue max_bytes too_long q.flv_queue.base then q else cancel_play q in
        record r { impl = on_impl_frame r.impl f }

  unfoldable pub on_each_frame : PlaySession → List Frame → PlaySession
  unfolding on_frame
  on_each_frame p [] = p
  on_each_frame p (f ∷ fs) = on_each_frame (on_frame p f) fs

  -- `from_pub`: whether the frames come from the player's publisher.
  unfoldable pub on_frames : PlaySession → Bool → List Frame → PlaySession
  unfolding on_each_frame is_complete notify_not_empty
  on_frames p from_pub fs =
      let q = on_each_frame p fs in
      let told =
        if is_complete q.impl then q else record q { flv_queue = notify_not_empty q.flv_queue } in
      if from_pub then told else p

-- The writer's state and what it writes.
pub record PipeState : Type 0 where
  pub flv_header_sent : Bool
  pub meta : Option Metadata

pub data Chunk : Type 0 where
  flv_header : Bool → Bool → Chunk
  script_tag : Metadata → Chunk
  audio_header_tag : Metadata → Chunk
  video_header_tag : Metadata → Chunk
  media_tag : Metadata → Media → Chunk

unfoldable pub write_meta : PipeState → Metadata → List Chunk
write_meta st m =
    (if st.flv_header_sent then [] else flv_header (is_enabled m.audio) (is_enabled m.video) ∷ [])
    ++ script_tag m ∷ (if is_enabled m.audio then audio_header_tag m ∷ [] else [])
    ++ (if is_enabled m.video then video_header_tag m ∷ [] else [])

-- With the state's metadata; `none` is the failed `assert(st.meta)`.
unfoldable pub write_media : Option Metadata → Media → Option (List Chunk)
write_media none x = none
write_media (some m) x = some (media_tag m x ∷ [])

abbrev pub with_state : PipeState → Option (List Chunk) → Option (PipeState × List Chunk)
with_state st none = none
with_state st (some cs) = some (st, cs)

-- A blank frame is a read through its null media pointer.
unfoldable pub write_frame : PipeState → Frame → Option (PipeState × List Chunk)
unfolding write_meta write_media
write_frame st (metadata m) =
    some
      (record { flv_header_sent = true; meta = some m }, write_meta (record st { meta = some m }) m)
write_frame st (media x) = with_state st (write_media st.meta x)
write_frame st blank = none

abbrev pub appended : List Chunk → Option (PipeState × List Chunk) → Option (PipeState × List Chunk)
appended cs none = none
appended cs (some (st, ds)) = some (st, cs ++ ds)

abbrev pub write_rest :
    (PipeState → Option (PipeState × List Chunk))
    → Option (PipeState × List Chunk)
    → Option (PipeState × List Chunk)
write_rest k none = none
write_rest k (some (st, cs)) = appended cs (k st)

unfoldable pub write_frames : PipeState → List Frame → Option (PipeState × List Chunk)
unfolding write_frame
write_frames st [] = some (st, [])
write_frames st (f ∷ fs) = write_rest (λ t. write_frames t fs) (write_frame st f)
