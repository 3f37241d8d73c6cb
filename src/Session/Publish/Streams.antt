-- ===== src/Session/Publish/Streams.antt =====
-- What a subscriber of a publisher (src/session/publish_session.cc) receives: the cached frames first,
-- then each frame that is published.
use seastar_live.Prelude.{
  ℕ, ◌≡◌, refl, sym, ap, ◌∙◌, inl, inr, Bool, true, false, Option, none, some, List, [], ◌∷◌, ◌++◌,
  append-nil, append_assoc, arith, if◌then◌else◌, Bool-cases,
}
use seastar_live.Prelude.Int.{ℤ}
use seastar_live.Frame.{Frame, media, metadata, blank}
use seastar_live.Frame.Gop.{GopQueue, add_frame, all_frames}
use seastar_live.Frame.Gop.Safe.{Safe, add_frame-Safe}
use seastar_live.Session.Impl.{is_complete, _cancel, on_media}
use seastar_live.Session.Publish.{
  PublishSession, add_subscriber, on_frame, on_frame_for_each_subscriber, validate_cache,
  publish_added, publish_frame, publish_frames, and_then, cancel_publish, for_each_subscriber,
}
use seastar_live.Session.Publish.Delivery.{
  flags, flags-add, no_blank, no_blank-cons, deliver-sent, deliver-one,
}

module _ {F : Type 0} (is_positive : F → Bool) (reaches : ℤ → F → Bool) (max_bytes : ℕ)
    (too_long : GopQueue F → Bool) where
  -- What one subscriber is to receive of frames that reach the publisher: nothing of a frame that
  -- the cache refuses, the whole cache at its first frame, nothing from a cache over its limits on.
  unfoldable pub stream_next :
      Bool → Frame → (Bool → GopQueue F → List Frame) → Option (Bool × GopQueue F) → List Frame
  unfolding validate_cache all_frames
  stream_next receiving f rest none = []
  stream_next receiving f rest (some (false, cache)) = rest receiving cache
  stream_next receiving f rest (some (true, cache)) =
      if validate_cache max_bytes too_long cache
      then (if receiving then f ∷ [] else all_frames cache) ++ rest true cache
      else []

  unfoldable pub stream : Bool → GopQueue F → List Frame → List Frame
  unfolding stream_next add_frame
  stream receiving cache [] = []
  stream receiving cache (f ∷ fs) =
      stream_next receiving f (λ r c. stream r c fs) (add_frame is_positive reaches cache f)

module _ {F : Type 0} (accepts : ℕ → Bool) (all_accept : (v : ℕ) → accepts v ≡ true) where
  module _ (is_positive : F → Bool) (reaches : ℤ → F → Bool) (max_bytes : ℕ)
      (too_long : GopQueue F → Bool) where
    publish_frames_complete :
        (p : PublishSession F) (fs : List Frame)
        → is_complete p.impl ≡ true
        → publish_frames accepts is_positive reaches max_bytes too_long p fs ≡ some (true, p)
    unfolding publish_frames publish_frame
    publish_frames_complete p [] e = refl
    publish_frames_complete p (f ∷ fs) e = rw e (publish_frames_complete p fs e)

    is_complete-on_frame :
        (p : PublishSession F) (f : Frame) → is_complete (on_frame p f).impl ≡ is_complete p.impl
    unfolding on_frame is_complete on_media
    is_complete-on_frame p (media m) = refl
    is_complete-on_frame p (metadata m) = refl
    is_complete-on_frame p blank = refl

    on_frame_keeps :
        (p : PublishSession F) (f : Frame)
        → ((on_frame p f).gops_cache ≡ p.gops_cache)
          × ((on_frame p f).subscribers ≡ p.subscribers)
          × ((on_frame p f).inbox ≡ p.inbox)
    unfolding on_frame
    on_frame_keeps p (media m) = (refl, refl, refl)
    on_frame_keeps p (metadata m) = (refl, refl, refl)
    on_frame_keeps p blank = (refl, refl, refl)

    cancel_publish-ends :
        (p : PublishSession F)
        → is_complete p.impl ≡ false
        → (is_complete (cancel_publish p).impl ≡ true) × ((cancel_publish p).inbox ≡ p.inbox)
    unfolding cancel_publish _cancel for_each_subscriber is_complete
    cancel_publish-ends p e = rw e (ground arith, refl)

    -- The frames `fs` reach the publisher, and `v` receives its stream.
    Receives : PublishSession F → List Frame → ℕ → Bool → Type 0
    unfolding publish_frames stream
    Receives p fs v r =
        (q : PublishSession F) × (publish_frames accepts is_positive reaches max_bytes too_long p fs
          ≡ some (true, q))
        × (q.inbox v ≡ p.inbox v ++ stream is_positive reaches max_bytes too_long r p.gops_cache fs)

    -- What the rest of the frames needs of a publisher.
    Ready : PublishSession F → ℕ → Bool → Type 0
    unfolding is_complete flags
    Ready p v r =
        Safe p.gops_cache × (is_complete p.impl ≡ false) × (flags v p.subscribers ≡ r ∷ [])

    publish_added-Receives :
        (p : PublishSession F) (f : Frame) (fs : List Frame) (v : ℕ) (r ok : Bool)
        (cache : GopQueue F)
        → Safe cache
        → Ready p v r
        → ((t : PublishSession F) (r' : Bool) → Ready t v r' → Receives t fs v r')
        → (q : PublishSession F) × (and_then
              (λ t. publish_frames accepts is_positive reaches max_bytes too_long t fs)
              (publish_added accepts is_positive reaches max_bytes too_long p f (some (ok, cache)))
            ≡ some (true, q))
          × (q.inbox v
              ≡ p.inbox v
                ++ stream_next is_positive reaches max_bytes too_long r f
                    (λ r' c. stream is_positive reaches max_bytes too_long r' c fs)
                    (some (ok, cache)))
    unfolding Receives Ready publish_added stream_next on_frame_for_each_subscriber
    publish_added-Receives p f fs v r false cache w (s, c, l) ih =
        ih (record p { gops_cache = cache }) r (w, c, l)
    publish_added-Receives p f fs v r true cache w (s, c, l) ih =
        let p' = record p { gops_cache = cache } in
        let t = on_frame p' f in
        let (k, u, i) = on_frame_keeps p' f in
        elim (Bool-cases (validate_cache max_bytes too_long cache)) [
          | inl b ↦
              let (g, h) =
                deliver-one accepts all_accept t.gops_cache f t.subscribers t.inbox v r (rw u l) in
              let t' = (on_frame_for_each_subscriber accepts t f).1 in
              let (q, e, x) = ih t' true (rw k w, is_complete-on_frame p' f ∙ c, h) in
              (
                q,
                rw (b, deliver-sent accepts all_accept t.gops_cache f t.subscribers t.inbox) e,
                rw (x, b, g, i, k)
                    (append_assoc (p.inbox v) (if r then f ∷ [] else all_frames cache)
                      (stream is_positive reaches max_bytes too_long true cache fs)),
              )
          | inr b ↦
              let (d, i') = cancel_publish-ends t (is_complete-on_frame p' f ∙ c) in
              (
                cancel_publish t,
                rw b (publish_frames_complete (cancel_publish t) fs d),
                rw b (ap (λ n. n v) (i' ∙ i) ∙ sym (append-nil (p.inbox v))),
              )
        ]

    publish_frames-Receives :
        (fs : List Frame) (p : PublishSession F) (v : ℕ) (r : Bool)
        → no_blank fs ≡ true
        → Ready p v r
        → Receives p fs v r
    unfolding Receives Ready publish_frames publish_frame stream no_blank
    publish_frames-Receives [] p v r n y = (p, refl, sym (append-nil (p.inbox v)))
    publish_frames-Receives (f ∷ fs) p v r n (s, c, l) =
        let (ok, cache, e, w) =
          add_frame-Safe is_positive reaches p.gops_cache f (no_blank-cons f fs n).0 s in
        rw (c, e)
          (publish_added-Receives p f fs v r ok cache w (s, c, l)
            (λ t r' y. publish_frames-Receives fs t v r' (no_blank-cons f fs n).1 y))

    -- A subscriber that has no item and subscribes to a publisher that is not complete and whose cache
    -- is safe receives the stream of the frames that the publisher is given next, of which none has
    -- neither flag, if no subscriber's call fails: the publisher takes them all, and the
    -- subscriber's inbox grows by the cached frames at the first that is cached and by each cached
    -- frame after it, until the cache is over its limits.
    pub add_subscriber-stream :
        (p : PublishSession F) (v : ℕ) (fs : List Frame)
        → Safe p.gops_cache
        → is_complete p.impl ≡ false
        → flags v p.subscribers ≡ []
        → no_blank fs ≡ true
        → (q : PublishSession F) × (publish_frames accepts is_positive reaches max_bytes too_long
              (add_subscriber p v)
              fs
            ≡ some (true, q))
          × (q.inbox v
              ≡ p.inbox v ++ stream is_positive reaches max_bytes too_long false p.gops_cache fs)
    unfolding Receives Ready add_subscriber
    add_subscriber-stream p v fs s c e n =
        let (h, l) = flags-add v p.subscribers e in
        let p' = record p {
          subscribers = p.subscribers ++ record { sub = v; receiving = false } ∷ [];
        } in
        rw h (publish_frames-Receives fs p' v false n (s, c, l))
