-- ===== src/Frame/Queue/Spaced.antt =====
-- The metadata half of frame_queue_t (src/frame/frame_queue.hh): the vector holds no two metadata
-- frames in a row, and the latest metadata frame is the last one in the vector.
use seastar_live.Prelude.{
  ◌≡◌, refl, ap, List, [], ◌∷◌, ◌++◌, Option, none, some, true, false, arith, if◌then◌else◌,
  Bool-cases, inl, inr,
}
use seastar_live.Frame.{Frame, Metadata, media, metadata, blank, is_metadata}
use seastar_live.Frame.Queue.{
  FrameQueue, push_back, back, front, drop_back, is_some, flagged_metadata, end_with_metadata,
}

-- No metadata frame stands directly before another.
abbrev pub Spaced : List Frame → Type 0
Spaced [] = Unit
Spaced (f ∷ fs) = (is_metadata f ≡ true → flagged_metadata (front fs) ≡ false) × Spaced fs

abbrev pub last_metadata : List Frame → Option Metadata
last_metadata [] = none
last_metadata (metadata m ∷ fs) = if is_some (last_metadata fs) then last_metadata fs else some m
last_metadata (media m ∷ fs) = last_metadata fs
last_metadata (blank ∷ fs) = last_metadata fs

abbrev pub first_metadata : List Frame → Option Metadata
first_metadata [] = none
first_metadata (metadata m ∷ fs) = some m
first_metadata (media m ∷ fs) = first_metadata fs
first_metadata (blank ∷ fs) = first_metadata fs

pub record Settled (q : FrameQueue) : Type 0 where
  pub spaced : Spaced q.queue
  pub latest_is : q.latest_metadata_frame ≡ last_metadata q.queue

Spaced-snoc :
    (fs : List Frame) (f : Frame)
    → Spaced fs
    → (flagged_metadata (back fs) ≡ true → is_metadata f ≡ false)
    → Spaced (fs ++ (f ∷ []))
Spaced-snoc [] f s h = ((λ _. refl), tt)
Spaced-snoc (g ∷ []) f s h = (h, ((λ _. refl), tt))
Spaced-snoc (g ∷ k ∷ fs) f s h = (s.0, Spaced-snoc (k ∷ fs) f s.1 h)

Spaced-drop_back : (fs : List Frame) → Spaced fs → Spaced (drop_back fs)
Spaced-drop_back [] s = tt
Spaced-drop_back (f ∷ []) s = tt
Spaced-drop_back (f ∷ g ∷ []) s = ((λ _. refl), tt)
Spaced-drop_back (f ∷ g ∷ h ∷ fs) s = (s.0, Spaced-drop_back (g ∷ h ∷ fs) s.1)

-- Before a metadata frame at the end stands no metadata frame.
back-drop_back :
    (fs : List Frame)
    → Spaced fs
    → flagged_metadata (back fs) ≡ true
    → flagged_metadata (back (drop_back fs)) ≡ false
back-drop_back [] s h = refl
back-drop_back (f ∷ []) s h = refl
back-drop_back (f ∷ g ∷ []) s h = elim (Bool-cases (is_metadata f)) [
  | inl e ↦ cc (s.0 e)
  | inr e ↦ e
]
back-drop_back (f ∷ g ∷ k ∷ fs) s h = back-drop_back (g ∷ k ∷ fs) s.1 h

last_metadata-snoc :
    (fs : List Frame) (m : Metadata) → last_metadata (fs ++ (metadata m ∷ [])) ≡ some m
last_metadata-snoc [] m = refl
last_metadata-snoc (metadata n ∷ fs) m = rw (last_metadata-snoc fs m)
last_metadata-snoc (media n ∷ fs) m = last_metadata-snoc fs m
last_metadata-snoc (blank ∷ fs) m = last_metadata-snoc fs m

last_metadata-snoc_other :
    (fs : List Frame) (f : Frame)
    → is_metadata f ≡ false
    → last_metadata (fs ++ (f ∷ [])) ≡ last_metadata fs
last_metadata-snoc_other [] (media m) h = refl
last_metadata-snoc_other [] (metadata m) h = cc
last_metadata-snoc_other [] blank h = refl
last_metadata-snoc_other (metadata n ∷ fs) f h = rw (last_metadata-snoc_other fs f h)
last_metadata-snoc_other (media n ∷ fs) f h = last_metadata-snoc_other fs f h
last_metadata-snoc_other (blank ∷ fs) f h = last_metadata-snoc_other fs f h

kept-Spaced :
    (q : FrameQueue) (m : Metadata)
    → Spaced q.queue
    → Spaced ((if end_with_metadata q then drop_back q.queue else q.queue) ++ (metadata m ∷ []))
kept-Spaced q m s = elim (Bool-cases (end_with_metadata q)) [
  | inl e ↦
      rw e (Spaced-snoc _ _ (Spaced-drop_back q.queue s) (λ h. cc (h, back-drop_back q.queue s e)))
  | inr e ↦ rw e (Spaced-snoc q.queue _ s (λ h. cc (h, e)))
]

-- If no two metadata frames stand in a row in a queue and `latest_metadata_frame` is the last of its
-- vector, that is so after `push_back` of any frame.
pub push_back-Settled : (q : FrameQueue) (f : Frame) → Settled q → Settled (push_back q f)
unfolding push_back
push_back-Settled q (media m) s = record {
  spaced = Spaced-snoc q.queue _ s.spaced (λ _. refl);
  latest_is = rw (last_metadata-snoc_other q.queue (media m) refl) s.latest_is;
}
push_back-Settled q (metadata m) s = record {
  spaced = kept-Spaced q m s.spaced;
  latest_is =
      rw (last_metadata-snoc (if end_with_metadata q then drop_back q.queue else q.queue) m);
}
push_back-Settled q blank s = record {
  spaced = Spaced-snoc q.queue _ s.spaced (λ _. refl);
  latest_is = rw (last_metadata-snoc_other q.queue blank refl) s.latest_is;
}

back-snoc : (fs : List Frame) (f : Frame) → back (fs ++ (f ∷ [])) ≡ some f
back-snoc [] f = refl
back-snoc (g ∷ []) f = refl
back-snoc (g ∷ k ∷ fs) f = back-snoc (k ∷ fs) f

drop_back-snoc : (fs : List Frame) (f : Frame) → drop_back (fs ++ (f ∷ [])) ≡ fs
drop_back-snoc [] f = refl
drop_back-snoc (g ∷ []) f = refl
drop_back-snoc (g ∷ k ∷ fs) f = ap (λ l. g ∷ l) (drop_back-snoc (k ∷ fs) f)

first_metadata-snoc :
    (fs : List Frame) (m : Metadata)
    → first_metadata fs ≡ none
    → first_metadata (fs ++ (metadata m ∷ [])) ≡ some m
first_metadata-snoc [] m h = refl
first_metadata-snoc (metadata n ∷ fs) m h = cc
first_metadata-snoc (media n ∷ fs) m h = first_metadata-snoc fs m h
first_metadata-snoc (blank ∷ fs) m h = first_metadata-snoc fs m h

kept-snoc :
    (q : FrameQueue) (fs : List Frame) (a : Metadata)
    → q.queue ≡ fs ++ (metadata a ∷ [])
    → (if end_with_metadata q then drop_back q.queue else q.queue) ≡ fs
kept-snoc q fs a e = rw (e, back-snoc fs (metadata a)) (drop_back-snoc fs (metadata a))

-- Where the only metadata frame `a` stands last, behind at least one other frame, `push_back` of the
-- metadata frame `b` removes `a` from the vector and `first_metadata_frame` still points to `a`.
push_back_stale_first :
    (q : FrameQueue) (f : Frame) (fs : List Frame) (a b : Metadata)
    → q.queue ≡ (f ∷ fs) ++ (metadata a ∷ [])
    → first_metadata (f ∷ fs) ≡ none
    → q.first_metadata_frame ≡ some a
    → let q' = push_back q (metadata b) in
      (q'.queue ≡ (f ∷ fs) ++ (metadata b ∷ []))
      × (first_metadata q'.queue ≡ some b)
      × (q'.first_metadata_frame ≡ some a)
unfolding push_back
push_back_stale_first q f fs a b e n h = (
  rw (kept-snoc q (f ∷ fs) a e),
  rw (kept-snoc q (f ∷ fs) a e) (first_metadata-snoc (f ∷ fs) b n),
  rw (kept-snoc q (f ∷ fs) a e, h) (ground arith),
)
