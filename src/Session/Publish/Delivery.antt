-- ===== src/Session/Publish/Delivery.antt =====
-- What one call of `on_frame_for_each_subscriber` of src/session/publish_session.cc gives the subscribers
-- of a publisher, when no subscriber's call fails.
use seastar_live.Prelude.{
  ℕ, ◌≡◌, refl, ◌∙◌, ◌≢◌, inl, inr, Bool, true, false, List, [], ◌∷◌, ◌++◌, arith, ◌==◌,
  if◌then◌else◌, Bool-cases,
}
use seastar_live.Frame.{Frame, media, metadata, blank}
use seastar_live.Frame.Gop.{GopQueue, all_frames}
use seastar_live.Session.Publish.{SubscriberItem, has_subscriber, receive, frames_for, deliver}

-- The `receiving` flags of the items of a subscriber.
unfoldable pub flags : ℕ → List SubscriberItem → List Bool
flags v [] = []
flags v (x ∷ xs) = let rest = flags v xs in if x.sub == v then x.receiving ∷ rest else rest

unfoldable pub no_blank : List Frame → Bool
no_blank [] = true
no_blank (blank ∷ fs) = false
no_blank (media m ∷ fs) = no_blank fs
no_blank (metadata m ∷ fs) = no_blank fs

pub no_blank-cons :
    (f : Frame) (fs : List Frame) → no_blank (f ∷ fs) ≡ true → (f ≢ blank) × (no_blank fs ≡ true)
unfolding no_blank
no_blank-cons (media m) fs n = (λ e. cc, n)
no_blank-cons (metadata m) fs n = (λ e. cc, n)
no_blank-cons blank fs n = absurd (ground arith)

-- A subscriber with no item is added at the end.
pub flags-add :
    (v : ℕ) (xs : List SubscriberItem)
    → flags v xs ≡ []
    → (has_subscriber v xs ≡ false)
      × (flags v (xs ++ record { sub = v; receiving = false } ∷ []) ≡ false ∷ [])
unfolding flags has_subscriber
flags-add v [] e = (refl, ground arith)
flags-add v (x ∷ xs) e =
    let n : (x.sub == v) ≡ false = ground arith in
    let (h, g) = flags-add v xs (ground arith) in (rw (n, h) refl, rw n g)

module _ {F : Type 0} (accepts : ℕ → Bool) (all_accept : (v : ℕ) → accepts v ≡ true) where
  pub deliver-sent :
      (cache : GopQueue F) (f : Frame) (xs : List SubscriberItem) (inbox : ℕ → List Frame)
      → (deliver accepts cache f xs inbox).0 ≡ true
  unfolding deliver
  deliver-sent cache f [] inbox = refl
  deliver-sent cache f (x ∷ xs) inbox =
      rw (all_accept x.sub) (deliver-sent cache f xs (receive inbox x.sub (frames_for cache f x)))

  -- A subscriber with no item gets nothing, and one with an item gets its frames, once.
  deliver-other :
      (cache : GopQueue F) (f : Frame) (xs : List SubscriberItem) (inbox : ℕ → List Frame) (v : ℕ)
      → flags v xs ≡ []
      → ((deliver accepts cache f xs inbox).2 v ≡ inbox v)
        × (flags v (deliver accepts cache f xs inbox).1 ≡ [])
  unfolding deliver receive flags
  deliver-other cache f [] inbox v e = (refl, refl)
  deliver-other cache f (x ∷ xs) inbox v e =
      let n : (x.sub == v) ≡ false = ground arith in
      let (g, h) =
        deliver-other cache f xs (receive inbox x.sub (frames_for cache f x)) v (ground arith) in
      (rw (all_accept x.sub) (g ∙ rw n refl), rw (all_accept x.sub, n) h)

  pub deliver-one :
      (cache : GopQueue F) (f : Frame) (xs : List SubscriberItem) (inbox : ℕ → List Frame) (v : ℕ)
      (r : Bool)
      → flags v xs ≡ r ∷ []
      → ((deliver accepts cache f xs inbox).2 v
          ≡ inbox v ++ (if r then f ∷ [] else all_frames cache))
        × (flags v (deliver accepts cache f xs inbox).1 ≡ true ∷ [])
  unfolding deliver receive flags frames_for
  deliver-one cache f [] inbox v r e = absurd (ground arith)
  deliver-one cache f (x ∷ xs) inbox v r e =
      let inbox' = receive inbox x.sub (frames_for cache f x) in
      elim (Bool-cases (x.sub == v)) [
        | inl n ↦
            let (g, h) = deliver-other cache f xs inbox' v (ground arith) in
            let same : x.receiving ≡ r = ground arith in
            (rw (all_accept x.sub) (g ∙ rw (n, same) refl), rw (all_accept x.sub, n, h) refl)
        | inr n ↦
            let (g, h) = deliver-one cache f xs inbox' v r (ground arith) in
            (rw (all_accept x.sub) (g ∙ rw n refl), rw (all_accept x.sub, n) h)
      ]
