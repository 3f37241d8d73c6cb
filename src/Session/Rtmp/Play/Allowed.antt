-- ===== src/Session/Rtmp/Play/Allowed.antt =====
-- The media that the player of an RTMP connection queues (src/session/rtmp/play_session.cc).
use seastar_live.Prelude.{
  ℕ, ◌≡◌, refl, inl, inr, Bool, true, false, ◌&&◌, ◌||◌, not, List, [], ◌∷◌, ◌++◌, arith, ◌==◌,
  if_keeps, if_then, if_else, Bool-cases,
}
use Prim.Native.Nat.{bit_and}
use mathlib.Core.Path.{subst}
use seastar_live.Frame.{
  Frame, Media, media, metadata, blank, media_type, media_none, media_audio, media_video,
}
use seastar_live.Frame.Queue.{FrameQueue, push_back, pop_all, is_empty}
use seastar_live.Frame.Queue.Tracked.{medias, medias-append, medias-kept}
use seastar_live.Session.Impl.{Status, is_complete}
use seastar_live.Session.Play.{
  AsyncQueue, push, notify_not_empty, close, not_empty, validate_queue, on_impl_frame,
}
use seastar_live.Session.Rtmp.Publish.{Packet, PacketType, video, audio, script, unknown_type}
use seastar_live.Session.Rtmp.Play.{
  RtmpPlayer, allow_rtmp_type, end_rtmp_play, cancel_rtmp_play, fail_rtmp_play, timeout_rtmp_play,
  refused_rtmp, on_play_frame, on_each_play_frame, on_play_frames,
}

-- Whether a player of the media types may be sent a packet.
unfoldable pub is_allowed : ℕ → PacketType → Bool
is_allowed types script = true
is_allowed types audio = not (bit_and types media_audio == media_none)
is_allowed types video = not (bit_and types media_video == media_none)
is_allowed types unknown_type = false

unfoldable pub all_allowed : ℕ → List Packet → Bool
unfolding is_allowed
all_allowed types [] = true
all_allowed types (x ∷ xs) = is_allowed types x.type && all_allowed types xs

-- What happens to a player between `on_begin` and `on_end`; frames come from its publisher or not.
pub data RtmpCall : Type 0 where
  call_frames : Bool → List Frame → RtmpCall
  call_end : RtmpCall
  call_cancel : RtmpCall
  call_fail : Status → RtmpCall
  call_timeout : RtmpCall
  call_wait : RtmpCall

module _ (max_bytes : ℕ) (too_long : FrameQueue → Bool) where
  unfoldable pub rtmp_call : RtmpPlayer → RtmpCall → RtmpPlayer
  unfolding on_play_frames end_rtmp_play cancel_rtmp_play fail_rtmp_play timeout_rtmp_play not_empty
  rtmp_call p (call_frames from_pub fs) = on_play_frames max_bytes too_long p from_pub fs
  rtmp_call p call_end = end_rtmp_play p
  rtmp_call p call_cancel = cancel_rtmp_play p
  rtmp_call p (call_fail st) = fail_rtmp_play p st
  rtmp_call p call_timeout = timeout_rtmp_play p
  rtmp_call p call_wait = record p { rtmp_queue = not_empty p.rtmp_queue }

  unfoldable pub rtmp_calls : RtmpPlayer → List RtmpCall → RtmpPlayer
  unfolding rtmp_call
  rtmp_calls p [] = p
  rtmp_calls p (c ∷ cs) = rtmp_calls (rtmp_call p c) cs

pub all_allowed-append :
    (types : ℕ) (xs ys : List Packet)
    → all_allowed types xs ≡ true
    → all_allowed types ys ≡ true
    → all_allowed types (xs ++ ys) ≡ true
unfolding all_allowed
all_allowed-append types [] ys a b = b
all_allowed-append types (x ∷ xs) ys a b = ground (arith, all_allowed-append types xs ys)

unfoldable pub allows : ℕ → List Media → Bool
allows types [] = true
allows types (m ∷ ms) = not (bit_and types (media_type m) == media_none) && allows types ms

allows-append :
    (types : ℕ) (xs ys : List Media)
    → allows types xs ≡ true
    → allows types ys ≡ true
    → allows types (xs ++ ys) ≡ true
unfolding allows
allows-append types [] ys a b = b
allows-append types (x ∷ xs) ys a b = ground (arith, allows-append types xs ys)

-- Every turn has allowed media.
unfoldable pub turns_allow : ℕ → List (List Frame) → Bool
unfolding allows
turns_allow types [] = true
turns_allow types (fs ∷ turns) = allows types (medias fs) && turns_allow types turns

turns_allow-snoc :
    (types : ℕ) (turns : List (List Frame)) (fs : List Frame)
    → turns_allow types turns ≡ true
    → allows types (medias fs) ≡ true
    → turns_allow types (turns ++ fs ∷ []) ≡ true
unfolding turns_allow
turns_allow-snoc types [] fs a b = ground arith
turns_allow-snoc types (gs ∷ turns) fs a b = ground (arith, turns_allow-snoc types turns fs)

-- The queue and what it gave have allowed media.
unfoldable pub Fit : ℕ → AsyncQueue → Type 0
Fit types q = (allows types (medias q.base.queue) ≡ true) × (turns_allow types q.taken ≡ true)

push-Fit :
    (types : ℕ) (q : AsyncQueue) (f : Frame)
    → allows types (medias (f ∷ [])) ≡ true
    → Fit types q
    → Fit types (push q f)
unfolding Fit push push_back allows
push-Fit types q (media m) a (b, c) =
    (rw (medias-append q.base.queue (media m ∷ [])) (allows-append types _ _ b a), c)
push-Fit types q (metadata m) a (b, c) = (rw (medias-kept q.base m) b, c)
push-Fit types q blank a (b, c) =
    (rw (medias-append q.base.queue (blank ∷ [])) (allows-append types _ _ b refl), c)

notify_not_empty-Fit : (types : ℕ) (q : AsyncQueue) → Fit types q → Fit types (notify_not_empty q)
unfolding Fit notify_not_empty pop_all allows
notify_not_empty-Fit types q (b, c) =
    if_keeps (Fit types) (is_empty q.base) (b, c)
      (if_keeps (Fit types) q.waiting (refl, turns_allow-snoc types q.taken _ c b) (b, c))

close-Fit : (types : ℕ) (q : AsyncQueue) → Fit types q → Fit types (close q)
unfolding Fit close allows
close-Fit types q (b, c) =
    if_keeps (Fit types) q.waiting (b, turns_allow-snoc types q.taken [] c refl) (b, c)

not_empty-Fit : (types : ℕ) (q : AsyncQueue) → Fit types q → Fit types (not_empty q)
unfolding Fit not_empty allows
not_empty-Fit types q (b, c) =
    if_keeps (Fit types) q.closed (b, turns_allow-snoc types q.taken [] c refl) (b, c)

unfoldable pub FitPlayer : ℕ → RtmpPlayer → Type 0
FitPlayer types p = (p.media_types ≡ types) × Fit types p.rtmp_queue

cancel_rtmp_play-FitPlayer :
    (types : ℕ) (p : RtmpPlayer) → FitPlayer types p → FitPlayer types (cancel_rtmp_play p)
unfolding FitPlayer cancel_rtmp_play
cancel_rtmp_play-FitPlayer types p (e, f) =
    if_keeps (FitPlayer types) (is_complete p.impl) (e, f) (e, close-Fit types p.rtmp_queue f)

accepted_media :
    (types : ℕ) (p : RtmpPlayer) (f : Frame)
    → p.media_types ≡ types
    → refused_rtmp p f ≡ false
    → allows types (medias (f ∷ [])) ≡ true
unfolding refused_rtmp allow_rtmp_type allows
accepted_media types p (media m) e r =
    subst (λ t. (not (bit_and t (media_type m) == media_none) && true) ≡ true) e (ground arith)
accepted_media types p (metadata m) e r = refl
accepted_media types p blank e r = refl

module _ (max_bytes : ℕ) (too_long : FrameQueue → Bool) where
  on_play_frame-FitPlayer :
      (types : ℕ) (p : RtmpPlayer) (f : Frame)
      → FitPlayer types p
      → FitPlayer types (on_play_frame max_bytes too_long p f)
  unfolding on_play_frame FitPlayer
  on_play_frame-FitPlayer types p f (e, h) =
      let P = FitPlayer types in
      elim (Bool-cases (is_complete p.impl || refused_rtmp p f)) [
        | inl b ↦ if_then P _ b (e, h)
        | inr b ↦
            let q : RtmpPlayer = record p {
              impl = on_impl_frame p.impl f;
              rtmp_queue = push p.rtmp_queue f;
            } in
            let w : FitPlayer types q =
              (e, push-Fit types p.rtmp_queue f (accepted_media types p f e (ground arith)) h) in
            if_else P _ b (
              if_keeps P (validate_queue max_bytes too_long q.rtmp_queue.base) w
                (cancel_rtmp_play-FitPlayer types q w))
      ]

  on_each_play_frame-FitPlayer :
      (types : ℕ) (p : RtmpPlayer) (fs : List Frame)
      → FitPlayer types p
      → FitPlayer types (on_each_play_frame max_bytes too_long p fs)
  unfolding on_each_play_frame
  on_each_play_frame-FitPlayer types p [] h = h
  on_each_play_frame-FitPlayer types p (f ∷ fs) h =
      on_each_play_frame-FitPlayer types (on_play_frame max_bytes too_long p f) fs
        (on_play_frame-FitPlayer types p f h)

  rtmp_call-FitPlayer :
      (types : ℕ) (p : RtmpPlayer) (c : RtmpCall)
      → FitPlayer types p
      → FitPlayer types (rtmp_call max_bytes too_long p c)
  unfolding rtmp_call on_play_frames end_rtmp_play fail_rtmp_play timeout_rtmp_play FitPlayer
  rtmp_call-FitPlayer types p (call_frames from_pub fs) h =
      let P = FitPlayer types in
      let q = on_each_play_frame max_bytes too_long p fs in
      let (e, k) = on_each_play_frame-FitPlayer types p fs h in
      if_keeps P (not from_pub || is_complete p.impl) h
        (if_keeps P (is_complete q.impl) (e, k) (e, notify_not_empty-Fit types q.rtmp_queue k))
  rtmp_call-FitPlayer types p call_end (e, f) =
      if_keeps (FitPlayer types) (is_complete p.impl) (e, f) (e, close-Fit types p.rtmp_queue f)
  rtmp_call-FitPlayer types p call_cancel h = cancel_rtmp_play-FitPlayer types p h
  rtmp_call-FitPlayer types p (call_fail st) (e, f) =
      if_keeps (FitPlayer types) (is_complete p.impl) (e, f) (e, close-Fit types p.rtmp_queue f)
  rtmp_call-FitPlayer types p call_timeout (e, f) = (e, close-Fit types p.rtmp_queue f)
  rtmp_call-FitPlayer types p call_wait (e, f) = (e, not_empty-Fit types p.rtmp_queue f)

  pub rtmp_calls-FitPlayer :
      (types : ℕ) (p : RtmpPlayer) (cs : List RtmpCall)
      → FitPlayer types p
      → FitPlayer types (rtmp_calls max_bytes too_long p cs)
  unfolding rtmp_calls
  rtmp_calls-FitPlayer types p [] h = h
  rtmp_calls-FitPlayer types p (c ∷ cs) h =
      rtmp_calls-FitPlayer types (rtmp_call max_bytes too_long p c) cs
        (rtmp_call-FitPlayer types p c h)
