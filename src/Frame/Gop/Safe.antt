-- ===== src/Frame/Gop/Safe.antt =====
-- Why the assertion on `flmf` in `update_gop` of src/frame/gop_queue.hh never fails: the first
-- closed gop always has a metadata frame to hand over.
use seastar_live.Prelude.{
  ◌≡◌, refl, sym, ◌∙◌, List, [], ◌∷◌, ◌++◌, Option, some, Bool, true, false, ◌&&◌, arith,
  Bool-cases, Option-cases, inl, inr, ◌≢◌,
}
use seastar_live.Prelude.Int.{ℤ}
use seastar_live.Frame.{Frame, Media, Metadata, media, metadata, blank, is_media}
use seastar_live.Frame.Queue.{
  FrameQueue, empty_queue, push_back, push_front, start_with_metadata, has_media, only_metadata,
  flagged_metadata, front, is_some,
}
use seastar_live.Frame.Gop.{
  GopQueue, lead_with, on_frame, push_frame, on_pop_gop, close_gop, require_new_gop, may_pop,
  update_from, update_gop, add_valid, add_frame, validate_frame, validate_media, allow_media_type,
}
use seastar_live.Frame.Gop.Kept.{List-cases, gops-push_frame, current-push_frame}

-- A queue that starts with metadata, or ever had any, knows a latest metadata frame.
pub record Paired (q : FrameQueue) : Type 0 where
  pub leading : start_with_metadata q ≡ true → is_some q.latest_metadata_frame ≡ true
  pub known : is_some q.first_metadata_frame ≡ true → is_some q.latest_metadata_frame ≡ true

abbrev pub AllPaired : List FrameQueue → Type 0
AllPaired [] = Unit
AllPaired (g ∷ gs) = Paired g × AllPaired gs

front-snoc_media :
    (fs : List Frame) (m : Media)
    → flagged_metadata (front (fs ++ (media m ∷ []))) ≡ flagged_metadata (front fs)
front-snoc_media [] m = refl
front-snoc_media (f ∷ fs) m = refl

front-snoc_blank :
    (fs : List Frame) → flagged_metadata (front (fs ++ (blank ∷ []))) ≡ flagged_metadata (front fs)
front-snoc_blank [] = refl
front-snoc_blank (f ∷ fs) = refl

push_back-Paired : (q : FrameQueue) (f : Frame) → Paired q → Paired (push_back q f)
unfolding push_back
push_back-Paired q (media m) p = record {
  leading = λ h. p.leading (sym (front-snoc_media q.queue m) ∙ h);
  known = p.known;
}
push_back-Paired q (metadata m) p = record { leading = λ h. refl; known = λ h. refl }
push_back-Paired q blank p = record {
  leading = λ h. p.leading (sym (front-snoc_blank q.queue) ∙ h);
  known = p.known;
}

empty_queue-Paired : Paired empty_queue
empty_queue-Paired = record { leading = λ h. cc; known = λ h. cc }

-- A queue that `lead_with` hands a metadata frame to has one.
latest-lead_with :
    (g : FrameQueue) (m : Metadata)
    → Paired g
    → is_some (lead_with g m).latest_metadata_frame ≡ true
unfolding lead_with push_front
latest-lead_with g m p = elim (Bool-cases (start_with_metadata g)) [
  | inl e ↦ rw e (p.leading e)
  | inr e ↦ rw e (ground arith)
]

lead_with-Paired : (g : FrameQueue) (m : Metadata) → Paired g → Paired (lead_with g m)
lead_with-Paired g m p = record {
  leading = λ h. latest-lead_with g m p;
  known = λ h. latest-lead_with g m p;
}

-- What the next `update_gop` needs of the first closed gop, or, if there is none, of the current one.
abbrev pub Held : List FrameQueue → Option Metadata → FrameQueue → Type 0
Held [] latest current = is_some latest ≡ true → is_some current.latest_metadata_frame ≡ true
Held (g ∷ gs) latest current = is_some g.latest_metadata_frame ≡ true

module _ {F : Type 0} where
  pub record Safe (s : GopQueue F) : Type 0 where
    pub held : Held s.gops s.latest_metadata_frame s.current
    pub gops_paired : AllPaired s.gops
    pub current_paired : Paired s.current

module _ {F : Type 0} where
  current-on_pop_gop :
      (s : GopQueue F) (h : FrameQueue) (hs : List FrameQueue) (m : Metadata)
      → (on_pop_gop (record s { gops = lead_with h m ∷ hs })).current ≡ s.current
  unfolding on_pop_gop
  current-on_pop_gop s h hs m = refl

  popped_last-Safe :
      (s : GopQueue F) (m : Metadata)
      → Paired s.current
      → Safe (on_pop_gop (record s { gops = []; current = lead_with s.current m }))
  unfolding on_pop_gop
  popped_last-Safe s m c = record {
    held = λ h. latest-lead_with s.current m c;
    gops_paired = tt;
    current_paired = lead_with-Paired s.current m c;
  }

fst_true : (a b : Bool) → (a && b) ≡ true → a ≡ true
fst_true a b h = ground arith

AllPaired-snoc :
    (gs : List FrameQueue) (c : FrameQueue) → AllPaired gs → Paired c → AllPaired (gs ++ (c ∷ []))
AllPaired-snoc [] c a p = (p, tt)
AllPaired-snoc (g ∷ gs) c a p = (a.0, AllPaired-snoc gs c a.1 p)

Held-snoc :
    (gs : List FrameQueue) (latest : Option Metadata) (c d : FrameQueue)
    → Held gs latest c
    → is_some latest ≡ true
    → Held (gs ++ (c ∷ [])) latest d
Held-snoc [] latest c d h l = h l
Held-snoc (g ∷ gs) latest c d h l = h

module _ {F : Type 0} where
  close_gop-Safe :
      (s : GopQueue F) (f : Frame)
      → (require_new_gop s f ≡ true → is_some s.latest_metadata_frame ≡ true)
      → Safe s
      → Safe (close_gop s f)
  unfolding close_gop
  close_gop-Safe s f l v = elim (Bool-cases (require_new_gop s f && has_media s.current)) [
    | inl e ↦ rw e (record {
      held = Held-snoc s.gops _ s.current empty_queue v.held (l (fst_true _ _ e));
      gops_paired = AllPaired-snoc s.gops s.current v.gops_paired v.current_paired;
      current_paired = empty_queue-Paired;
    })
    | inr e ↦ rw e v
  ]

  -- While there is no closed gop, `on_frame` takes the latest metadata frame of the cache from the
  -- first one of the current gop.
  pub latest-push_frame :
      (s : GopQueue F) (f : Frame)
      → s.gops ≡ []
      → (push_frame s f).latest_metadata_frame ≡ (push_back s.current f).first_metadata_frame
  unfolding push_frame on_frame
  latest-push_frame s f e = rw (e, on_frame)

  push_frame-Held :
      (s : GopQueue F) (f : Frame)
      → Safe s
      → Held (push_frame s f).gops (push_frame s f).latest_metadata_frame (push_frame s f).current
  push_frame-Held s f v = elim (List-cases s.gops) [
    | inl e ↦
        rw (gops-push_frame s f ∙ e, latest-push_frame s f e, current-push_frame s f)
          (push_back-Paired s.current f v.current_paired).known
    | inr (g, gs, e) ↦
        let h : Held (g ∷ gs) s.latest_metadata_frame s.current = rw e at v.held in
        rw (gops-push_frame s f ∙ e) h
  ]

  push_frame-Safe : (s : GopQueue F) (f : Frame) → Safe s → Safe (push_frame s f)
  push_frame-Safe s f v = record {
    held = push_frame-Held s f v;
    gops_paired = rw (gops-push_frame s f) v.gops_paired;
    current_paired = rw (current-push_frame s f) (push_back-Paired s.current f v.current_paired);
  }

module _ {F : Type 0} (reaches : ℤ → F → Bool) where
  -- `update_from` ends without a failed assertion, and leaves the cache safe.
  update_from-Safe :
      (s : GopQueue F) (g : FrameQueue) (hs : List FrameQueue)
      → is_some g.latest_metadata_frame ≡ true
      → Paired g
      → AllPaired hs
      → Paired s.current
      → (t : GopQueue F) × (update_from reaches s g hs ≡ some t) × Safe t
  unfolding update_from
  update_from-Safe s g [] l p a c = elim (Bool-cases (may_pop reaches s s.current)) [
    | inl b ↦ elim (Option-cases g.latest_metadata_frame) [
      | inl n ↦ cc (rw n at l)
      | inr (m, e) ↦ (
        on_pop_gop (record s { gops = []; current = lead_with s.current m }),
        rw (b, e, update_from),
        popped_last-Safe s m c,
      )
    ]
    | inr b ↦ (
      record s { gops = g ∷ [] },
      rw (b, update_from),
      record { held = l; gops_paired = (p, tt); current_paired = c },
    )
  ]
  update_from-Safe s g (h ∷ hs) l p a c = elim (Bool-cases (may_pop reaches s h)) [
    | inl b ↦ elim (Option-cases g.latest_metadata_frame) [
      | inl n ↦ cc (rw n at l)
      | inr (m, e) ↦
          let (t, r, v) =
            update_from-Safe (on_pop_gop (record s { gops = lead_with h m ∷ hs })) (lead_with h m)
              hs (latest-lead_with h m a.0) (lead_with-Paired h m a.0) a.1
              (rw (current-on_pop_gop s h hs m) c) in
          (t, rw (b, e, update_from) r, v)
    ]
    | inr b ↦ (
      record s { gops = g ∷ h ∷ hs },
      rw (b, update_from),
      record { held = l; gops_paired = (p, a); current_paired = c },
    )
  ]

  pub update_gop-nil : (s : GopQueue F) → s.gops ≡ [] → update_gop reaches s ≡ some s
  unfolding update_gop
  update_gop-nil s e = ground arith

  pub update_gop-cons :
      (s : GopQueue F) (g : FrameQueue) (gs : List FrameQueue)
      → s.gops ≡ g ∷ gs
      → update_gop reaches s ≡ update_from reaches s g gs
  unfolding update_gop
  update_gop-cons s g gs e = ground arith

  update_gop-Safe :
      (s : GopQueue F) → Safe s → (t : GopQueue F) × (update_gop reaches s ≡ some t) × Safe t
  update_gop-Safe s v = elim (List-cases s.gops) [
    | inl n ↦ (s, update_gop-nil s n, v)
    | inr (g, gs, e) ↦
        let h : Held (g ∷ gs) s.latest_metadata_frame s.current = rw e at v.held in
        let a : AllPaired (g ∷ gs) = rw e at v.gops_paired in
        let (t, r, w) = update_from-Safe s g gs h a.0 a.1 v.current_paired in
        (t, update_gop-cons s g gs e ∙ r, w)
  ]

module _ {F : Type 0} (is_positive : F → Bool) (reaches : ℤ → F → Bool) where
  add_valid-Safe :
      (s : GopQueue F) (f : Frame)
      → (require_new_gop s f ≡ true → is_some s.latest_metadata_frame ≡ true)
      → Safe s
      → (t : GopQueue F) × (add_valid is_positive reaches s f ≡ some t) × Safe t
  unfolding add_valid
  add_valid-Safe s f l v = elim (Bool-cases (only_metadata s.current)) [
    | inl o ↦ (push_frame s f, rw (o, add_valid), push_frame-Safe s f v)
    | inr o ↦
        let w = push_frame-Safe (close_gop s f) f (close_gop-Safe s f l v) in
        elim (Bool-cases (is_media f && is_positive s.min_cache_duration)) [
          | inl b ↦
              let (t, r, x) = update_gop-Safe reaches (push_frame (close_gop s f) f) w in
              (t, rw (o, b, add_valid) r, x)
          | inr b ↦ (push_frame (close_gop s f) f, rw (o, b, add_valid), w)
        ]
  ]

  -- A media frame is valid only when the cache has metadata.
  latest-valid :
      (s : GopQueue F) (m : Media)
      → validate_media s m ≡ true
      → is_some s.latest_metadata_frame ≡ true
  unfolding validate_media allow_media_type
  latest-valid s m e = ground arith

  -- On a safe cache, `add_frame` of a frame with one of the flags never meets a failed assertion or a
  -- null pointer: it returns, and leaves the cache safe for the next call.
  pub add_frame-Safe :
      (s : GopQueue F) (f : Frame)
      → f ≢ blank
      → Safe s
      → (ok : Bool) × (t : GopQueue F) × (add_frame is_positive reaches s f ≡ some (ok, t)) × Safe t
  unfolding add_frame validate_frame require_new_gop
  add_frame-Safe s (media m) n v = elim (Bool-cases (validate_media s m)) [
    | inl e ↦
        let (t, r, w) = add_valid-Safe s (media m) (λ _. latest-valid s m e) v in
        (true, t, rw (e, r, add_frame, validate_frame), w)
    | inr e ↦ (false, s, rw (e, add_frame, validate_frame), v)
  ]
  add_frame-Safe s (metadata m) n v =
      let (t, r, w) = add_valid-Safe s (metadata m) (λ h. cc) v in
      (true, t, rw (r, add_frame, validate_frame), w)
  add_frame-Safe s blank n v = absurd (n refl)
