-- ===== src/Session/Publish/Starts/Sound.antt =====
-- What the calls of a publisher (src/session/publish_session.cc) keep: its reports, its lifecycle, a safe
-- cache and frames that have a flag.
use seastar_live.Prelude.{
  ℕ, ◌≡◌, refl, ◌↔◌, inl, inr, Bool, true, false, ◌||◌, some, List, [], ◌∷◌, ◌++◌, arith,
  Bool-cases, Option-cases,
}
use seastar_live.Prelude.Int.{ℤ}
use seastar_live.Frame.{Frame, media, metadata, blank}
use seastar_live.Frame.Queue.{clear}
use seastar_live.Frame.Gop.{GopQueue, clear_gops}
use seastar_live.Frame.Gop.Safe.{Safe, add_frame-Safe}
use seastar_live.Session.Impl.{
  SessionImpl, Report, Status, is_complete, _end, _cancel, _fail, on_media, on_launch, final_report,
  report, on_launch_report,
}
use seastar_live.Session.Publish.{
  PublishSession, on_frame, on_frame_for_each_subscriber, validate_cache, publish_added,
  publish_frame, publish_frames, and_then, cancel_publish, end_publish, fail_publish,
  for_each_subscriber,
}
use seastar_live.Session.Publish.Delivery.{no_blank, no_blank-cons}
use seastar_live.Session.Publish.Starts.{Read, no_bytes, bytes, read_timed_out, read_failed}

unfoldable pub frames_read : List Read → List Frame
frames_read [] = []
frames_read (bytes ok fs ∷ rs) = fs ++ frames_read rs
frames_read (no_bytes ∷ rs) = frames_read rs
frames_read (read_timed_out ∷ rs) = frames_read rs
frames_read (read_failed ∷ rs) = frames_read rs

pub no_blank-append :
    (xs ys : List Frame)
    → (no_blank (xs ++ ys) ≡ true) ↔ ((no_blank xs ≡ true) × (no_blank ys ≡ true))
unfolding no_blank
no_blank-append [] ys = (λ e. (refl, e), λ e. e.1)
no_blank-append (media m ∷ xs) ys = no_blank-append xs ys
no_blank-append (metadata m ∷ xs) ys = no_blank-append xs ys
no_blank-append (blank ∷ xs) ys = (λ e. absurd (ground arith), λ e. absurd (ground (arith, e.0)))

pub is_complete-reports :
    (s : SessionImpl) → is_complete s ≡ true → (r : Report) × (final_report s ≡ some r)
unfolding is_complete final_report
is_complete-reports s c = elim (Option-cases (final_report s)) [
  | inl e ↦ absurd (ground arith)
  | inr p ↦ p
]

pub on_launch_parts :
    (s : SessionImpl)
    → s.has_lifecycle ≡ true
    → ((on_launch s).has_lifecycle ≡ true)
      × ((on_launch s).reports ≡ s.reports ++ on_launch_report ∷ [])
unfolding on_launch report
on_launch_parts s l = rw l (refl, refl)

pub is_complete-flags :
    (s : SessionImpl) → s.is_canceled || s.is_timeout || s.is_failed ≡ true → is_complete s ≡ true
unfolding is_complete
is_complete-flags s b = ground arith

pub frames_read-cons :
    (r : Read) (rs : List Read)
    → no_blank (frames_read (r ∷ rs)) ≡ true
    → (no_blank (frames_read (r ∷ [])) ≡ true) × (no_blank (frames_read rs) ≡ true)
unfolding frames_read no_blank
frames_read-cons no_bytes rs n = (refl, n)
frames_read-cons (bytes ok fs) rs n =
    let (a, b) = (no_blank-append fs (frames_read rs)).0 n in
    ((no_blank-append fs []).1 (a, refl), b)
frames_read-cons read_timed_out rs n = (refl, n)
frames_read-cons read_failed rs n = (refl, n)

module _ {F : Type 0} where
  pub end_publish_complete : (p : PublishSession F) → is_complete (end_publish p).impl ≡ true
  unfolding end_publish for_each_subscriber _end is_complete
  end_publish_complete p = elim (Bool-cases (is_complete p.impl)) [
    | inl b ↦ ground arith
    | inr b ↦ ground arith
  ]

  -- What every call keeps: the reports so far, the lifecycle, a safe cache and proper frames.
  unfoldable pub Sound : List Report → PublishSession F → Type 0
  Sound rs p =
      (p.impl.reports ≡ rs)
      × (p.impl.has_lifecycle ≡ true)
      × Safe p.gops_cache
      × (no_blank p.temporary_frames ≡ true)

  pub clear_gops-Safe : (s : GopQueue F) → Safe (clear_gops s)
  unfolding clear_gops clear
  clear_gops-Safe s = record {
    held = λ h. h;
    gops_paired = tt;
    current_paired = record { leading = λ h. h; known = λ h. h };
  }

  on_frame-Sound :
      (rs : List Report) (p : PublishSession F) (f : Frame) → Sound rs p → Sound rs (on_frame p f)
  unfolding Sound on_frame on_media
  on_frame-Sound rs p (media m) s = s
  on_frame-Sound rs p (metadata m) s = s
  on_frame-Sound rs p blank s = s

  cancel_publish-Sound :
      (rs : List Report) (p : PublishSession F) → Sound rs p → Sound rs (cancel_publish p)
  unfolding Sound cancel_publish for_each_subscriber _cancel
  cancel_publish-Sound rs p s = elim (Bool-cases (is_complete p.impl)) [
    | inl b ↦ rw b s
    | inr b ↦ rw b s
  ]

  pub end_publish-Sound :
      (rs : List Report) (p : PublishSession F) → Sound rs p → Sound rs (end_publish p)
  unfolding Sound end_publish for_each_subscriber _end
  end_publish-Sound rs p s = elim (Bool-cases (is_complete p.impl)) [
    | inl b ↦ rw b s
    | inr b ↦ rw b s
  ]

  pub fail_publish-Sound :
      (rs : List Report) (p : PublishSession F) (st : Status)
      → Sound rs p
      → Sound rs (fail_publish p st)
  unfolding Sound fail_publish for_each_subscriber _fail
  fail_publish-Sound rs p st s = elim (Bool-cases (is_complete p.impl)) [
    | inl b ↦ rw b s
    | inr b ↦ rw b s
  ]

  module _ (accepts : ℕ → Bool) (is_positive : F → Bool) (reaches : ℤ → F → Bool) (max_bytes : ℕ)
      (too_long : GopQueue F → Bool) where
    unfoldable pub PublishEnds : List Report → PublishSession F → List Frame → Type 0
    unfolding Sound publish_frames
    PublishEnds rs p fs =
        (ok : Bool) × (q : PublishSession F) × (publish_frames accepts is_positive reaches max_bytes
            too_long p fs
          ≡ some (ok, q))
        × Sound rs q

    delivered-Sound :
        (rs : List Report) (p : PublishSession F) (f : Frame)
        → Sound rs p
        → Sound rs (on_frame_for_each_subscriber accepts p f).1
    unfolding on_frame_for_each_subscriber Sound
    delivered-Sound rs p f s = s

    publish_added-Sound :
        (rs : List Report) (p : PublishSession F) (f : Frame) (ok : Bool) (cache : GopQueue F)
        → Safe cache
        → Sound rs p
        → (sent : Bool) × (q : PublishSession F) × (publish_added accepts is_positive reaches
              max_bytes too_long p f
              (some (ok, cache))
            ≡ some (sent, q))
          × Sound rs q
    unfolding publish_added Sound
    publish_added-Sound rs p f false cache w (r, l, s, t) =
        (true, record p { gops_cache = cache }, refl, (r, l, w, t))
    publish_added-Sound rs p f true cache w (r, l, s, t) =
        let q = on_frame (record p { gops_cache = cache }) f in
        let y = on_frame-Sound rs (record p { gops_cache = cache }) f (r, l, w, t) in
        elim (Bool-cases (validate_cache max_bytes too_long cache)) [
          | inl b ↦ (
            (on_frame_for_each_subscriber accepts q f).0,
            (on_frame_for_each_subscriber accepts q f).1,
            rw b refl,
            delivered-Sound rs q f y,
          )
          | inr b ↦ (true, cancel_publish q, rw b refl, cancel_publish-Sound rs q y)
        ]

    go_on :
        (rs : List Report) (fs : List Frame) (p : PublishSession F) (sent : Bool)
        → Sound rs p
        → ((t : PublishSession F) → Sound rs t → PublishEnds rs t fs)
        → (ok : Bool) × (q : PublishSession F) × (and_then
              (λ t. publish_frames accepts is_positive reaches max_bytes too_long t fs)
              (some (sent, p))
            ≡ some (ok, q))
          × Sound rs q
    unfolding PublishEnds
    go_on rs fs p false s k = (false, p, refl, s)
    go_on rs fs p true s k = k p s

    pub publish_frames-Sound :
        (rs : List Report) (fs : List Frame) (p : PublishSession F)
        → no_blank fs ≡ true
        → Sound rs p
        → PublishEnds rs p fs
    unfolding publish_frames publish_frame Sound PublishEnds
    publish_frames-Sound rs [] p n s = (true, p, refl, s)
    publish_frames-Sound rs (f ∷ fs) p n s =
        let (b, m) = no_blank-cons f fs n in
        elim (Bool-cases (is_complete p.impl)) [
          | inl c ↦ rw c (publish_frames-Sound rs fs p m s)
          | inr c ↦
              let (ok, cache, e, w) = add_frame-Safe is_positive reaches p.gops_cache f b s.2 in
              let (sent, q, g, y) = publish_added-Sound rs p f ok cache w s in
              rw (c, e, g) (go_on rs fs q sent y (λ t z. publish_frames-Sound rs fs t m z))
        ]
