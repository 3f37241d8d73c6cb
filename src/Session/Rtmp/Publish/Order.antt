-- ===== src/Session/Rtmp/Publish/Order.antt =====
-- The times that the publisher of an RTMP connection gives to frames (src/session/rtmp/publish_session.cc) do not
-- run back, whatever times arrive.
use seastar_live.Prelude.{
  ℕ, ◌≡◌, refl, ap, ◌∙◌, inl, inr, Bool, true, false, ◌||◌, not, Option, none, some, arith,
  if◌then◌else◌, if_keeps, Bool-cases,
}
use seastar_live.Prelude.Int.{ℤ, pos, pos_part, ◌+ℤ◌, ◌≤ℤ◌, ltb_ℤ, +ℤ_parts, eq_of_parts}
use seastar_live.Frame.{Frame, Media, Metadata, media, metadata, blank, is_enabled}
use seastar_live.Frame.Gop.{GopQueue}
use seastar_live.Frame.Gop.Safe.{Safe, add_frame-Safe}
use seastar_live.Session.Impl.{on_media, is_complete, _cancel}
use seastar_live.Session.Publish.{cancel_publish, for_each_subscriber, validate_cache}
use seastar_live.Session.Rtmp.Publish.{
  RtmpPublisher, PipeState, Codec, rectified, rectify_dts, on_rtmp_frame, added, add_rectified,
  add_received, with_pipe, is_known, then_publish, publish_rtmp, on_frame_for_each_rtmp_subscriber,
  cancel_rtmp, receive_frame,
}

-- With `cur` the last time given, `last` the last that arrived, and `end` the shift.
unfoldable pub shift_by : ℤ → ℤ
shift_by end = if ltb_ℤ (pos 0) end then end else pos 0

time_kept :
    (cur last end : ℤ) (dts : ℕ)
    → cur ≤ℤ last +ℤ shift_by end
    → ltb_ℤ (pos dts) last ≡ false
    → cur ≤ℤ pos dts +ℤ shift_by end
unfolding shift_by
time_kept cur last end dts o b =
    ground (arith, +ℤ_parts last (shift_by end), +ℤ_parts (pos dts) (shift_by end))

time_raised :
    (cur : ℤ) (dts : ℕ)
    → (cur ≤ℤ pos dts +ℤ (cur +ℤ pos 1))
      × (cur ≤ℤ pos dts +ℤ shift_by (cur +ℤ pos 1))
      × (pos dts +ℤ (cur +ℤ pos 1) ≤ℤ pos dts +ℤ shift_by (cur +ℤ pos 1))
unfolding shift_by
time_raised cur dts = ground (
  arith,
  +ℤ_parts cur (pos 1),
  +ℤ_parts (pos dts) (cur +ℤ pos 1),
  +ℤ_parts (pos dts) (shift_by (cur +ℤ pos 1)),
  +ℤ_parts (pos dts) (pos 0),
)

time_shifted :
    (end : ℤ) (dts : ℕ)
    → (if ltb_ℤ (pos 0) end then pos dts +ℤ end else pos dts) ≡ pos dts +ℤ shift_by end
unfolding shift_by
time_shifted end dts = elim (Bool-cases (ltb_ℤ (pos 0) end)) [
  | inl b ↦ rw b refl
  | inr b ↦
      rw b (eq_of_parts (pos dts) (pos dts +ℤ pos 0) (omega (arith, +ℤ_parts (pos dts) (pos 0))))
]

-- A frame of media with a time that is not negative, or metadata.
unfoldable pub timely : Frame → Bool
timely (media m) = not (ltb_ℤ m.dts (pos 0))
timely (metadata m) = true
timely blank = false

pos_of_timely : (d : ℤ) → not (ltb_ℤ d (pos 0)) ≡ true → d ≡ pos (pos_part d)
pos_of_timely d h = ground arith

module _ {F : Type 0} where
  -- The last time given is at most the last one that arrived, shifted.
  unfoldable pub Ordered : RtmpPublisher F → Type 0
  Ordered p = p.base.impl.current_dts ≤ℤ p.last_actual_dts +ℤ shift_by p.last_end_dts

  -- The next time is at least the last one given, and stays in order whether the frame is cached or not.
  rectified-Ordered :
      (p : RtmpPublisher F) (dts : ℕ)
      → Ordered p
      → (p.base.impl.current_dts ≤ℤ (rectified p (pos dts)).0)
        × ((rectified p (pos dts)).1.base ≡ p.base)
        × Ordered (rectified p (pos dts)).1
        × ((rectified p (pos dts)).0
            ≤ℤ (rectified p (pos dts)).1.last_actual_dts
              +ℤ shift_by (rectified p (pos dts)).1.last_end_dts)
  unfolding Ordered rectified
  rectified-Ordered p dts o =
      let cur = p.base.impl.current_dts in
      elim (Bool-cases (ltb_ℤ (pos dts) p.last_actual_dts)) [
        | inl b ↦ let (x, y, z) = time_raised cur dts in rw b (x, refl, y, z)
        | inr b ↦
            let k = time_kept cur p.last_actual_dts p.last_end_dts dts o b in
            let e = time_shifted p.last_end_dts dts in rw b (rw e (k, refl, k, omega arith))
      ]

  -- With a cache that its operations do not fail on.
  unfoldable pub Good : RtmpPublisher F → Type 0
  unfolding Ordered
  Good p = Ordered p × Safe p.rtmp_cache

  -- The publisher's times have run on from `p` to `q`, and its lifecycle has heard nothing.
  unfoldable pub Later : RtmpPublisher F → RtmpPublisher F → Type 0
  unfolding Good
  Later p q =
      Good q
      × (p.base.impl.current_dts ≤ℤ q.base.impl.current_dts)
      × (q.base.impl.reports ≡ p.base.impl.reports)
      × (q.base.impl.has_lifecycle ≡ p.base.impl.has_lifecycle)

  pub Later-refl : (p : RtmpPublisher F) → Good p → Later p p
  unfolding Later
  Later-refl p o = (o, omega arith, refl, refl)

  pub Later-trans : (p q r : RtmpPublisher F) → Later p q → Later q r → Later p r
  unfolding Later
  Later-trans p q r (o, h, a, b) (o', k, a', b') = (o', omega arith, a' ∙ a, b' ∙ b)

  -- A call comes to a result, later than `p`.
  abbrev pub Onward : RtmpPublisher F → Option (Bool × PipeState × RtmpPublisher F) → Type 0
  Onward p none = ⊥
  Onward p (some (ok, st, q)) = Later p q

  rectified-Later :
      (p : RtmpPublisher F) (dts : ℤ)
      → not (ltb_ℤ dts (pos 0)) ≡ true
      → Ordered p
      → (p.base.impl.current_dts ≤ℤ (rectified p dts).0)
        × ((rectified p dts).1.base ≡ p.base)
        × Ordered (rectified p dts).1
        × ((rectified p dts).0
            ≤ℤ (rectified p dts).1.last_actual_dts +ℤ shift_by (rectified p dts).1.last_end_dts)
  rectified-Later p dts h o = rw (pos_of_timely dts h) (rectified-Ordered p (pos_part dts) o)

  Added : RtmpPublisher F → Option (Bool × RtmpPublisher F) → Type 0
  unfolding Later
  Added p none = ⊥
  Added p (some (ok, q)) = Later p q

  added-Later :
      (m : Media) (p q : RtmpPublisher F) (ok : Bool) (cache : GopQueue F)
      → p.base.impl.current_dts ≤ℤ m.dts
      → q.base ≡ p.base
      → Ordered q
      → m.dts ≤ℤ q.last_actual_dts +ℤ shift_by q.last_end_dts
      → Safe cache
      → Added p (added (media m) q (some (ok, cache)))
  unfolding Added on_rtmp_frame on_media Ordered Good Later added
  added-Later m p q false cache a b c d w =
      ((c, w), rw b (omega arith), ap (λ x. x.impl.reports) b, ap (λ x. x.impl.has_lifecycle) b)
  added-Later m p q true cache a b c d w =
      ((d, w), a, ap (λ x. x.impl.reports) b, ap (λ x. x.impl.has_lifecycle) b)

  meta_added-Later :
      (m : Metadata) (p : RtmpPublisher F) (ok : Bool) (cache : GopQueue F)
      → Ordered p
      → Safe cache
      → Added p (added (metadata m) p (some (ok, cache)))
  unfolding Added Ordered Good Later added on_rtmp_frame
  meta_added-Later m p false cache o w = ((o, w), omega arith, refl, refl)
  meta_added-Later m p true cache o w = ((o, w), omega arith, refl, refl)

  module _ (is_positive : F → Bool) (reaches : ℤ → F → Bool) where
    add_rectified-Later :
        (p : RtmpPublisher F) (f : Frame)
        → timely f ≡ true
        → Good p
        → Added p (add_rectified is_positive reaches p f)
    unfolding add_rectified rectify_dts timely Good rectified
    add_rectified-Later p (media m) t (o, s) =
        let (a, b, c, d) = rectified-Later p m.dts t o in
        let q = (rectified p m.dts).1 in
        let m' = record m { dts = (rectified p m.dts).0 } in
        let (ok, cache, e, w) =
          add_frame-Safe is_positive reaches q.rtmp_cache (media m') (λ x. cc) s in
        rw e (added-Later m' p q ok cache a b c d w)
    add_rectified-Later p (metadata m) t (o, s) =
        let (ok, cache, e, w) =
          add_frame-Safe is_positive reaches p.rtmp_cache (metadata m) (λ x. cc) s in
        rw e (meta_added-Later m p ok cache o w)
    add_rectified-Later p blank t g = absurd (ground arith)

    with_pipe-Onward :
        (p : RtmpPublisher F) (st : PipeState) (o : Option (Bool × RtmpPublisher F))
        → Added p o
        → Onward p (with_pipe is_positive reaches st o)
    unfolding Added
    with_pipe-Onward p st none a = a
    with_pipe-Onward p st (some (ok, q)) a = a

    add_received-Onward :
        (c : Codec) (st : PipeState) (p : RtmpPublisher F) (f : Frame)
        → timely f ≡ true
        → Good p
        → Onward p (add_received is_positive reaches c st p f)
    unfolding add_received Later timely
    add_received-Onward c st p (media m) t o =
        with_pipe-Onward p st (add_rectified is_positive reaches p (media m))
          (add_rectified-Later p (media m) t o)
    add_received-Onward c st p (metadata m) t o =
        let st' : PipeState = record { meta = some m; header_sent = false } in
        if_keeps (Onward p) (is_known is_positive reaches c st m) (Later-refl p o) (
          if_keeps (Onward p) (not (is_enabled m.audio || is_enabled m.video)) (Later-refl p o) (
            with_pipe-Onward p st' (add_rectified is_positive reaches p (metadata m))
              (add_rectified-Later p (metadata m) t o)))
    add_received-Onward c st p blank t o = absurd (ground arith)

    module _ (accepts : ℕ → Bool) (max_bytes : ℕ) (too_long : GopQueue F → Bool) where
      cancel_rtmp-Later : (p : RtmpPublisher F) → Good p → Later p (cancel_rtmp p)
      unfolding cancel_rtmp cancel_publish for_each_subscriber _cancel Later Good Ordered
      cancel_rtmp-Later p o = elim (Bool-cases (is_complete p.base.impl)) [
        | inl b ↦ rw b (o, omega arith, refl, refl)
        | inr b ↦ rw b (o, omega arith, refl, refl)
      ]

      publish_rtmp-Later :
          (p : RtmpPublisher F) (f : Frame)
          → Good p
          → Later p (publish_rtmp is_positive reaches accepts max_bytes too_long p f).1
      unfolding publish_rtmp on_frame_for_each_rtmp_subscriber Later Good Ordered
      publish_rtmp-Later p f o =
          if_keeps (λ (x : Bool × RtmpPublisher F). Later p x.1)
            (validate_cache max_bytes too_long p.rtmp_cache) (o, omega arith, refl, refl)
            (cancel_rtmp-Later p o)

      then_publish-Onward :
          (p : RtmpPublisher F) (f : Frame) (o : Option (Bool × PipeState × RtmpPublisher F))
          → Onward p o
          → Onward p (then_publish is_positive reaches accepts max_bytes too_long f o)
      unfolding Later then_publish
      then_publish-Onward p f none h = h
      then_publish-Onward p f (some (false, st, q)) h = h
      then_publish-Onward p f (some (true, st, q)) h =
          Later-trans p q (publish_rtmp is_positive reaches accepts max_bytes too_long q f).1 h
            (publish_rtmp-Later q f h.0)

      pub receive_frame-Onward :
          (c : Codec) (st : PipeState) (p : RtmpPublisher F) (f : Frame)
          → timely f ≡ true
          → Good p
          → Onward p (receive_frame is_positive reaches accepts max_bytes too_long c st p f)
      unfolding receive_frame
      receive_frame-Onward c st p f t o =
          then_publish-Onward p (rectify_dts p f).0 (add_received is_positive reaches c st p f)
            (add_received-Onward c st p f t o)
