-- ===== src/Frame/Queue/Tracked.antt =====
-- The media half of frame_queue_t (src/frame/frame_queue.hh): its four media fields and its byte
-- count against the media frames that the vector holds.
use seastar_live.Prelude.{
  ℕ, ◌+◌, ◌%◌, ◌^◌, ◌≡◌, refl, ap, ◌∙◌, List, [], ◌∷◌, ◌++◌, Option, none, some, true, false, arith,
  if◌then◌else◌, append-nil, Bool-cases, inl, inr,
}
use seastar_live.Prelude.Int.{ℤ, eqb_ℤ}
use seastar_live.Frame.{Frame, Media, media, metadata, blank, size, Metadata}
use seastar_live.Frame.Queue.{
  FrameQueue, no_dts, empty_queue, push_back, push_front, back, drop_back, drop_front,
  insert_second, is_some, flagged_metadata, end_with_metadata, front,
}

-- The media frames of a vector, in order.
abbrev pub medias : List Frame → List Media
medias [] = []
medias (media m ∷ fs) = m ∷ medias fs
medias (metadata m ∷ fs) = medias fs
medias (blank ∷ fs) = medias fs

abbrev pub first_of : List Media → Option Media
first_of [] = none
first_of (m ∷ ms) = some m

abbrev pub last_of : List Media → Option Media
last_of [] = none
last_of (m ∷ []) = some m
last_of (m ∷ n ∷ ms) = last_of (n ∷ ms)

abbrev pub start_of : List Media → ℤ
start_of [] = no_dts
start_of (m ∷ ms) = m.dts

abbrev pub end_of : List Media → ℤ
end_of [] = no_dts
end_of (m ∷ []) = m.dts
end_of (m ∷ n ∷ ms) = end_of (n ∷ ms)

abbrev pub total : List Media → ℕ
total [] = 0
total (m ∷ ms) = size m + total ms

-- No media frame carries the timestamp that stands for "none".
abbrev pub IsDated : List Media → Type 0
IsDated [] = Unit
IsDated (m ∷ ms) = (eqb_ℤ m.dts no_dts ≡ false) × IsDated ms

pub record Tracked (q : FrameQueue) : Type 0 where
  pub dated : IsDated (medias q.queue)
  pub first_is : q.first_media_frame ≡ first_of (medias q.queue)
  pub latest_is : q.latest_media_frame ≡ last_of (medias q.queue)
  pub start_is : q.start_dts ≡ start_of (medias q.queue)
  pub end_is : q.end_dts ≡ end_of (medias q.queue)
  pub bytes_is : q.bytes ≡ total (medias q.queue) % 2 ^ 64

pub medias-append : (fs gs : List Frame) → medias (fs ++ gs) ≡ medias fs ++ medias gs
medias-append [] gs = refl
medias-append (media m ∷ fs) gs = ap (λ ms. m ∷ ms) (medias-append fs gs)
medias-append (metadata m ∷ fs) gs = medias-append fs gs
medias-append (blank ∷ fs) gs = medias-append fs gs

last_of-snoc : (ms : List Media) (m : Media) → last_of (ms ++ (m ∷ [])) ≡ some m
last_of-snoc [] m = refl
last_of-snoc (n ∷ []) m = refl
last_of-snoc (n ∷ k ∷ ms) m = last_of-snoc (k ∷ ms) m

end_of-snoc : (ms : List Media) (m : Media) → end_of (ms ++ (m ∷ [])) ≡ m.dts
end_of-snoc [] m = refl
end_of-snoc (n ∷ []) m = refl
end_of-snoc (n ∷ k ∷ ms) m = end_of-snoc (k ∷ ms) m

total-snoc : (ms : List Media) (m : Media) → total (ms ++ (m ∷ [])) ≡ total ms + size m
total-snoc [] m = omega arith
total-snoc (n ∷ ms) m = omega (arith, total-snoc ms m)

IsDated-snoc :
    (ms : List Media) (m : Media)
    → IsDated ms
    → eqb_ℤ m.dts no_dts ≡ false
    → IsDated (ms ++ (m ∷ []))
IsDated-snoc [] m d e = (e, tt)
IsDated-snoc (n ∷ ms) m d e = (d.0, IsDated-snoc ms m d.1 e)

first_of-snoc :
    (ms : List Media) (m : Media) (o : Option Media)
    → o ≡ first_of ms
    → (if is_some o then o else some m) ≡ first_of (ms ++ (m ∷ []))
first_of-snoc [] m o e = rw e
first_of-snoc (n ∷ ms) m o e = rw e

start_of-snoc :
    (ms : List Media) (m : Media)
    → IsDated ms
    → (if eqb_ℤ (start_of ms) no_dts then m.dts else start_of ms) ≡ start_of (ms ++ (m ∷ []))
start_of-snoc [] m d = refl
start_of-snoc (n ∷ ms) m d = rw d.0

is_some-last_of : (m : Media) (ms : List Media) → is_some (last_of (m ∷ ms)) ≡ true
is_some-last_of m [] = refl
is_some-last_of m (n ∷ ms) = is_some-last_of n ms

end_of-IsDated :
    (m : Media) (ms : List Media) → IsDated (m ∷ ms) → eqb_ℤ (end_of (m ∷ ms)) no_dts ≡ false
end_of-IsDated m [] d = d.0
end_of-IsDated m (n ∷ ms) d = end_of-IsDated n ms d.1

last_of-cons :
    (m : Media) (ms : List Media)
    → (if is_some (last_of ms) then last_of ms else some m) ≡ last_of (m ∷ ms)
last_of-cons m [] = refl
last_of-cons m (n ∷ ms) = rw (is_some-last_of n ms)

end_of-cons :
    (m : Media) (ms : List Media)
    → IsDated ms
    → (if eqb_ℤ (end_of ms) no_dts then m.dts else end_of ms) ≡ end_of (m ∷ ms)
end_of-cons m [] d = refl
end_of-cons m (n ∷ ms) d = rw (end_of-IsDated n ms d)

medias-drop_back :
    (fs : List Frame) → flagged_metadata (back fs) ≡ true → medias (drop_back fs) ≡ medias fs
medias-drop_back [] h = refl
medias-drop_back (metadata m ∷ []) h = refl
medias-drop_back (media m ∷ []) h = cc
medias-drop_back (blank ∷ []) h = cc
medias-drop_back (media m ∷ g ∷ fs) h = ap (λ ms. m ∷ ms) (medias-drop_back (g ∷ fs) h)
medias-drop_back (metadata m ∷ g ∷ fs) h = medias-drop_back (g ∷ fs) h
medias-drop_back (blank ∷ g ∷ fs) h = medias-drop_back (g ∷ fs) h

abbrev pub IsDatedFrame : Frame → Type 0
IsDatedFrame (media m) = eqb_ℤ m.dts no_dts ≡ false
IsDatedFrame (metadata m) = Unit
IsDatedFrame blank = Unit

-- A queue whose vector holds the same media frames, with the same media fields, is tracked too.
Tracked-congr :
    (q : FrameQueue) (fs : List Frame)
    → medias fs ≡ medias q.queue
    → (a b : Option Metadata) → Tracked q
    → Tracked (record q { queue = fs; first_metadata_frame = a; latest_metadata_frame = b })
Tracked-congr q fs e a b t = record {
  dated = rw e t.dated;
  first_is = rw e t.first_is;
  latest_is = rw e t.latest_is;
  start_is = rw e t.start_is;
  end_is = rw e t.end_is;
  bytes_is = rw e t.bytes_is;
}

push_back_media-Tracked :
    (q : FrameQueue) (m : Media)
    → eqb_ℤ m.dts no_dts ≡ false
    → Tracked q
    → Tracked (push_back q (media m))
unfolding push_back
push_back_media-Tracked q m d t = record {
  dated = rw (medias-append q.queue (media m ∷ [])) (IsDated-snoc _ m t.dated d);
  first_is = rw (medias-append q.queue (media m ∷ [])) (first_of-snoc _ m _ t.first_is);
  latest_is = rw (medias-append q.queue (media m ∷ []), last_of-snoc (medias q.queue) m);
  start_is = rw (medias-append q.queue (media m ∷ []), t.start_is) (start_of-snoc _ m t.dated);
  end_is = rw (medias-append q.queue (media m ∷ []), end_of-snoc (medias q.queue) m);
  bytes_is =
      rw (medias-append q.queue (media m ∷ []))
        (omega (arith, total-snoc (medias q.queue) m, t.bytes_is));
}

pub medias-kept :
    (q : FrameQueue) (m : Metadata)
    → medias ((if end_with_metadata q then drop_back q.queue else q.queue) ++ (metadata m ∷ []))
      ≡ medias q.queue
medias-kept q m = elim (Bool-cases (end_with_metadata q)) [
  | inl e ↦ rw e (medias-append (drop_back q.queue) _ ∙ append-nil _ ∙ medias-drop_back q.queue e)
  | inr e ↦ rw e (medias-append q.queue _ ∙ append-nil _)
]

-- If the media fields of a queue (first and last media frame, time span, byte count) are those of the
-- media frames in its vector, and the pushed frame is not a media frame with the time -1, they are so
-- after `push_back`, whichever kind of frame it is.
pub push_back-Tracked :
    (q : FrameQueue) (f : Frame) → IsDatedFrame f → Tracked q → Tracked (push_back q f)
unfolding push_back
push_back-Tracked q (media m) d t = push_back_media-Tracked q m d t
push_back-Tracked q (metadata m) d t = Tracked-congr q _ (medias-kept q m) _ _ t
push_back-Tracked q blank d t = Tracked-congr q _ (medias-append q.queue _ ∙ append-nil _) _ _ t

-- What the two pushes and `lead_with` do to the media frames.
pub medias-push_back_media :
    (q : FrameQueue) (m : Media) → medias (push_back q (media m)).queue ≡ medias q.queue ++ (m ∷ [])
unfolding push_back
medias-push_back_media q m = medias-append q.queue (media m ∷ [])

pub medias-push_back_metadata :
    (q : FrameQueue) (m : Metadata) → medias (push_back q (metadata m)).queue ≡ medias q.queue
unfolding push_back
medias-push_back_metadata q m = medias-kept q m

medias-insert :
    (fs : List Frame) (m : Media)
    → medias (if flagged_metadata (front fs) then insert_second (media m) fs else media m ∷ fs)
      ≡ m ∷ medias fs
medias-insert [] m = refl
medias-insert (media n ∷ fs) m = refl
medias-insert (metadata n ∷ fs) m = refl
medias-insert (blank ∷ fs) m = refl

medias-replaced :
    (fs : List Frame)
    → medias (if flagged_metadata (front fs) then drop_front fs else fs) ≡ medias fs
medias-replaced [] = refl
medias-replaced (media n ∷ fs) = refl
medias-replaced (metadata n ∷ fs) = refl
medias-replaced (blank ∷ fs) = refl

-- If the media fields of a queue (first and last media frame, time span, byte count) are those of the
-- media frames in its vector, and the pushed frame is not a media frame with the time -1, they are so
-- after `push_front`, whichever kind of frame it is.
pub push_front-Tracked :
    (q : FrameQueue) (f : Frame) → IsDatedFrame f → Tracked q → Tracked (push_front q f)
unfolding push_front
push_front-Tracked q (media m) d t = record {
  dated = rw (medias-insert q.queue m) (d, t.dated);
  first_is = rw (medias-insert q.queue m);
  latest_is = rw (medias-insert q.queue m, t.latest_is) (last_of-cons m (medias q.queue));
  start_is = rw (medias-insert q.queue m);
  end_is = rw (medias-insert q.queue m, t.end_is) (end_of-cons m (medias q.queue) t.dated);
  bytes_is = rw (medias-insert q.queue m) (omega (arith, t.bytes_is));
}
push_front-Tracked q (metadata m) d t = Tracked-congr q _ (medias-replaced q.queue) _ _ t
push_front-Tracked q blank d t = t

pub empty_queue-Tracked : Tracked empty_queue
empty_queue-Tracked = record {
  dated = tt;
  first_is = refl;
  latest_is = refl;
  start_is = refl;
  end_is = refl;
  bytes_is = refl;
}
