-- ===== src/Session/Publish.antt =====
-- src/session/publish_session.cc: the publisher, which caches the frames it reads and passes them to its
-- subscribers. A subscriber is the identity of its object; `inbox` is what `on_frames` was called with
-- for it, frame after frame, and `told` the notices of the publisher's end. `accepts` says of a
-- subscriber whether that call succeeds. Frames are delivered one publish after another: a call that
-- adds or removes a subscriber while a frame is being delivered acts on the next one. `too_long` is
-- the comparison of the cache's float `duration()` with the setting.
pub mod Delivery
pub mod Streams
pub mod Starts
use seastar_live.Prelude.{
  ℕ, zero, suc, ◌+◌, ◌-◌, ◌*◌, ◌/◌, ◌%◌, ◌^◌, ◌≤◌, ◌<◌, min, ◌≡◌, refl, sym, ap, ap₂, ◌∙◌, ◌≢◌, ◌↔◌,
  ◌⊎◌, inl, inr, Bool, true, false, ◌&&◌, ◌||◌, not, Option, none, some, List, [], ◌∷◌, ◌++◌, map,
  append-nil, append_assoc, arith, ltb, leb, ◌==◌, if◌then◌else◌, ltb→lt, lt→ltb, leb→le, ==_iff,
  tests, Bool-cases, Option-cases, length, get_elem?, set, length-append, get_or, take, drop,
  replicate, take-append-drop,
}
use seastar_live.Prelude.Int.{ℤ}
use seastar_live.Frame.{Frame, Media, Metadata, media, metadata, blank}
use seastar_live.Frame.Gop.{
  GopQueue, add_frame, all_frames, total_bytes, cached_media_options, clear_gops,
  set_min_cache_duration,
}
use seastar_live.Session.Impl.{
  SessionImpl, Status, is_complete, _end, _cancel, _fail, on_media, on_begin, on_timeout,
}

pub record SubscriberItem : Type 0 where
  pub sub : ℕ
  pub receiving : Bool

pub data Notice : Type 0 where
  done_notice : Notice
  cancel_notice : Notice
  fail_notice : Status → Notice

pub record PublishSession (F : Type 0) : Type 0 where
  pub impl : SessionImpl
  pub media_type : ℕ
  pub temporary_frames : List Frame
  pub gops_cache : GopQueue F
  pub subscribers : List SubscriberItem
  pub inbox : ℕ → List Frame
  pub told : List (ℕ × Notice)

-- `find_if` by the subscriber.
unfoldable pub has_subscriber : ℕ → List SubscriberItem → Bool
has_subscriber sub [] = false
has_subscriber sub (x ∷ xs) = (x.sub == sub) || has_subscriber sub xs

unfoldable pub erase_subscriber : ℕ → List SubscriberItem → List SubscriberItem
erase_subscriber sub [] = []
erase_subscriber sub (x ∷ xs) = if x.sub == sub then xs else x ∷ erase_subscriber sub xs

abbrev pub notices : Notice → List SubscriberItem → List (ℕ × Notice)
notices n [] = []
notices n (x ∷ xs) = (x.sub, n) ∷ notices n xs

unfoldable pub receive : (ℕ → List Frame) → ℕ → List Frame → ℕ → List Frame
receive inbox sub frames = λ v. if sub == v then inbox v ++ frames else inbox v

abbrev pub and_then : {A : Type 0} → (A → Option (Bool × A)) → Option (Bool × A) → Option (Bool × A)
and_then k none = none
and_then k (some (false, p)) = some (false, p)
and_then k (some (true, p)) = k p

module _ {F : Type 0} where
  unfoldable pub add_subscriber : PublishSession F → ℕ → PublishSession F
  unfolding has_subscriber
  add_subscriber p sub =
      if has_subscriber sub p.subscribers
      then p
      else record p { subscribers = p.subscribers ++ record { sub = sub; receiving = false } ∷ [] }

  unfoldable pub remove_subscriber : PublishSession F → ℕ → PublishSession F
  unfolding erase_subscriber
  remove_subscriber p sub = record p { subscribers = erase_subscriber sub p.subscribers }

  unfoldable pub remove_all_subscribers : PublishSession F → PublishSession F
  remove_all_subscribers p = record p { subscribers = [] }

  unfoldable pub for_each_subscriber : PublishSession F → Notice → PublishSession F
  for_each_subscriber p n = record p { told = p.told ++ notices n p.subscribers }

  -- `_end`, `_cancel` and `_fail` with the hooks of this class.
  unfoldable pub end_publish : PublishSession F → PublishSession F
  unfolding is_complete _end for_each_subscriber
  end_publish p =
      if is_complete p.impl
      then p
      else for_each_subscriber (record p { impl = _end p.impl }) done_notice

  unfoldable pub cancel_publish : PublishSession F → PublishSession F
  unfolding is_complete _cancel for_each_subscriber
  cancel_publish p =
      if is_complete p.impl
      then p
      else for_each_subscriber (record p { impl = _cancel p.impl }) cancel_notice

  unfoldable pub fail_publish : PublishSession F → Status → PublishSession F
  unfolding is_complete _fail for_each_subscriber
  fail_publish p st =
      if is_complete p.impl
      then p
      else for_each_subscriber (record p { impl = _fail p.impl st }) (fail_notice st)

  unfoldable pub begin_publish : PublishSession F → PublishSession F
  unfolding on_begin clear_gops
  begin_publish p = record p { impl = on_begin p.impl; gops_cache = clear_gops p.gops_cache }

  unfoldable pub on_settings_update : PublishSession F → F → PublishSession F
  unfolding set_min_cache_duration
  on_settings_update p d = record p { gops_cache = set_min_cache_duration p.gops_cache d }

  -- The statistics of a frame that was cached. A frame with neither flag is not cached.
  unfoldable pub on_frame : PublishSession F → Frame → PublishSession F
  unfolding on_media cached_media_options
  on_frame p (media m) = record p { impl = on_media p.impl m.dts }
  on_frame p (metadata m) = record p { media_type = cached_media_options p.gops_cache }
  on_frame p blank = p

  unfoldable pub add_temporary_frame : PublishSession F → Frame → PublishSession F
  add_temporary_frame p f = record p { temporary_frames = p.temporary_frames ++ f ∷ [] }

  -- What a subscriber is sent when `f` is published.
  unfoldable pub frames_for : GopQueue F → Frame → SubscriberItem → List Frame
  unfolding all_frames
  frames_for cache f item = if item.receiving then f ∷ [] else all_frames cache

  -- `validate_cache` of src/session/session.hh, with the setting `rtmp_max_gop_bytes`.
  unfoldable pub validate_cache : ℕ → (GopQueue F → Bool) → GopQueue F → Bool
  unfolding total_bytes
  validate_cache max_bytes too_long cache =
      not (ltb max_bytes (total_bytes cache)) && not (too_long cache)

  module _ (accepts : ℕ → Bool) where
    -- Whether all calls succeeded, the items and the inboxes; the first failure ends the loop.
    unfoldable pub deliver :
        GopQueue F
        → Frame
        → List SubscriberItem
        → (ℕ → List Frame)
        → Bool × List SubscriberItem × (ℕ → List Frame)
    unfolding frames_for receive
    deliver cache f [] inbox = (true, [], inbox)
    deliver cache f (x ∷ xs) inbox =
        let inbox' = receive inbox x.sub (frames_for cache f x) in
        let (sent, items, last) = deliver cache f xs inbox' in
        let x' = record x { receiving = true } in
        if accepts x.sub then (sent, x' ∷ items, last) else (false, x' ∷ xs, inbox')

    unfoldable pub on_frame_for_each_subscriber : PublishSession F → Frame → Bool × PublishSession F
    unfolding deliver
    on_frame_for_each_subscriber p f =
        let (sent, items, inbox) = deliver p.gops_cache f p.subscribers p.inbox in
        (sent, record p { subscribers = items; inbox = inbox })

    module _ (is_positive : F → Bool) (reaches : ℤ → F → Bool) (max_bytes : ℕ)
        (too_long : GopQueue F → Bool) where
      -- `publish_frame` from the result of `_gops_cache.add_frame` on. `none` is the failure of an
      -- assertion, or a read through a null pointer, in the cache.
      unfoldable pub publish_added :
          PublishSession F → Frame → Option (Bool × GopQueue F) → Option (Bool × PublishSession F)
      unfolding on_frame validate_cache on_frame_for_each_subscriber cancel_publish
      publish_added p f none = none
      publish_added p f (some (false, cache)) = some (true, record p { gops_cache = cache })
      publish_added p f (some (true, cache)) =
          let q = on_frame (record p { gops_cache = cache }) f in
          some (
            if validate_cache max_bytes too_long cache
            then on_frame_for_each_subscriber q f
            else (true, cancel_publish q))

      unfoldable pub publish_frame : PublishSession F → Frame → Option (Bool × PublishSession F)
      unfolding is_complete publish_added add_frame
      publish_frame p f =
          if is_complete p.impl
          then some (true, p)
          else publish_added p f (add_frame is_positive reaches p.gops_cache f)

      -- `do_for_each`, which stops at a future that fails.
      unfoldable pub publish_frames :
          PublishSession F → List Frame → Option (Bool × PublishSession F)
      unfolding publish_frame
      publish_frames p [] = some (true, p)
      publish_frames p (f ∷ fs) = and_then (λ q. publish_frames q fs) (publish_frame p f)

      unfoldable pub publish : PublishSession F → Option (Bool × PublishSession F)
      unfolding publish_frames
      publish p = publish_frames (record p { temporary_frames = [] }) p.temporary_frames
