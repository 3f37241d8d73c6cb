-- ===== src/Frame/Gop/Kept.antt =====
-- Which frames the cache of src/frame/gop_queue.hh holds after `add_frame`.
use seastar_live.Prelude.{
  ◌≡◌, refl, sym, ap, ◌∙◌, List, [], ◌∷◌, ◌++◌, some, Bool, true, ◌&&◌, arith, append-nil,
  append_assoc, Bool-cases, inl, inr, ◌⊎◌,
}
use seastar_live.Prelude.Int.{ℤ}
use seastar_live.Frame.{Frame, Media, Metadata, media}
use seastar_live.Frame.Queue.{
  FrameQueue, push_back, push_front, start_with_metadata, has_media, only_metadata,
}
use seastar_live.Frame.Queue.Tracked.{medias, medias-append, medias-push_back_media}
use seastar_live.Frame.Gop.Update.{Updates, stay, pop_last, pop, update_from-Updates}
use seastar_live.Frame.Gop.{
  GopQueue, frames_of, all_frames, lead_with, on_frame, push_frame, on_pop_gop, close_gop,
  require_new_gop, update_gop, add_valid, add_frame,
}

medias-lead_with : (g : FrameQueue) (m : Metadata) → medias (lead_with g m).queue ≡ medias g.queue
unfolding lead_with push_front
medias-lead_with g m = elim (Bool-cases (start_with_metadata g)) [ inl e ↦ rw e | inr e ↦ rw e ]

-- The media frames of the closed gops.
abbrev closed : List FrameQueue → List Media
closed [] = []
closed (g ∷ gs) = medias g.queue ++ closed gs

closed-snoc :
    (gs : List FrameQueue) (c : FrameQueue) → closed (gs ++ (c ∷ [])) ≡ closed gs ++ medias c.queue
closed-snoc [] c = append-nil _
closed-snoc (g ∷ gs) c =
    ap (λ l. medias g.queue ++ l) (closed-snoc gs c)
    ∙ sym (append_assoc (medias g.queue) (closed gs) (medias c.queue))

medias-frames_of :
    (gs : List FrameQueue) (c : FrameQueue) → medias (frames_of gs c) ≡ closed gs ++ medias c.queue
medias-frames_of [] c = refl
medias-frames_of (g ∷ gs) c =
    medias-append g.queue (frames_of gs c)
    ∙ ap (λ l. medias g.queue ++ l) (medias-frames_of gs c)
    ∙ sym (append_assoc (medias g.queue) (closed gs) (medias c.queue))

pub List-cases :
    (gs : List FrameQueue) → (gs ≡ []) ⊎ ((h : FrameQueue) × (hs : List FrameQueue) × (gs ≡ h ∷ hs))
List-cases [] = inl refl
List-cases (h ∷ hs) = inr (h, hs, refl)

module _ {F : Type 0} where
  abbrev pub media_frames : GopQueue F → List Media
  media_frames s = medias (all_frames s)

  media_frames_lem : (s : GopQueue F) → media_frames s ≡ closed s.gops ++ medias s.current.queue
  unfolding all_frames
  media_frames_lem s = medias-frames_of s.gops s.current

  pub gops-push_frame : (s : GopQueue F) (f : Frame) → (push_frame s f).gops ≡ s.gops
  unfolding push_frame on_frame
  gops-push_frame s f = ground arith

  pub current-push_frame :
      (s : GopQueue F) (f : Frame) → (push_frame s f).current ≡ push_back s.current f
  unfolding push_frame on_frame
  current-push_frame s f = ground arith

  media_frames-close_gop :
      (s : GopQueue F) (f : Frame) → media_frames (close_gop s f) ≡ media_frames s
  unfolding close_gop
  media_frames-close_gop s f = elim (Bool-cases (require_new_gop s f && has_media s.current)) [
    | inl e ↦ rw e (
        media_frames_lem _ ∙ append-nil _ ∙ closed-snoc s.gops s.current ∙ sym (media_frames_lem s))
    | inr e ↦ rw e
  ]

  -- `t` comes of `s` by dropping whole gops from the front, their metadata frames apart.
  record Dropped (s t : GopQueue F) (old : List Media) : Type 0 where
    gops_are : closed s.gops ≡ old ++ closed t.gops
    current_is : medias t.current.queue ≡ medias s.current.queue

  -- Pushing the media frame `m` onto `s` and dropping `old` leaves `t`.
  abbrev pub Keeps : GopQueue F → Media → List Media → List Media → GopQueue F → Type 0
  Keeps s m old rest t = (media_frames s ≡ old ++ rest) × (media_frames t ≡ rest ++ (m ∷ []))

  push-Keeps :
      (s t : GopQueue F) (m : Media) (old : List Media)
      → Dropped (push_frame s (media m)) t old
      → Keeps s m old (closed t.gops ++ medias s.current.queue) t
  push-Keeps s t m old d = (
    media_frames_lem s
        ∙ ap (λ l. l ++ medias s.current.queue)
            (sym (ap closed (gops-push_frame s (media m))) ∙ d.gops_are)
        ∙ append_assoc old (closed t.gops) (medias s.current.queue),
    media_frames_lem t
        ∙ ap (λ l. closed t.gops ++ l)
            (d.current_is
              ∙ ap (λ (q : FrameQueue). medias q.queue) (current-push_frame s (media m))
              ∙ medias-push_back_media s.current m)
        ∙ sym (append_assoc (closed t.gops) (medias s.current.queue) (m ∷ [])),
  )

  Dropped-refl : (s t : GopQueue F) → s ≡ t → Dropped s t []
  Dropped-refl s t e = record { gops_are = rw e; current_is = rw e }

module _ {F : Type 0} (reaches : ℤ → F → Bool) where
  Updates-Dropped :
      {s : GopQueue F} {g : FrameQueue} {hs : List FrameQueue} {t : GopQueue F}
      → Updates reaches s g hs t
      → (old : List Media) × (closed (g ∷ hs) ≡ old ++ closed t.gops)
        × (medias t.current.queue ≡ medias s.current.queue)
  unfolding on_pop_gop
  Updates-Dropped (stay s g hs p) = ([], refl, refl)
  Updates-Dropped (pop_last s g m p q) = (medias g.queue, refl, medias-lead_with s.current m)
  Updates-Dropped (pop s g h hs m p q r) =
      let (old, e, c) = Updates-Dropped r in
      (
        medias g.queue ++ old,
        ap (λ l. medias g.queue ++ l) (ap (λ l. l ++ closed hs) (sym (medias-lead_with h m)) ∙ e)
            ∙ sym (append_assoc (medias g.queue) old _),
        c,
      )

  update_gop-Dropped :
      (s t : GopQueue F) → update_gop reaches s ≡ some t → (old : List Media) × Dropped s t old
  unfolding update_gop
  update_gop-Dropped s t e = elim (List-cases s.gops) [
    | inl n ↦ let p : s ≡ t = cc (rw (n, update_gop) at e) in ([], Dropped-refl s t p)
    | inr (g, gs, c) ↦
        let (old, d, k) =
          Updates-Dropped (update_from-Updates reaches s g gs (rw (c, update_gop) at e)) in
        (old, record { gops_are = ap closed c ∙ d; current_is = k })
  ]

module _ {F : Type 0} (is_positive : F → Bool) (reaches : ℤ → F → Bool) where
  pub add_valid-of-add_frame :
      (s : GopQueue F) (f : Frame) {t : GopQueue F}
      → add_frame is_positive reaches s f ≡ some (true, t)
      → add_valid is_positive reaches s f ≡ some t
  unfolding add_frame
  add_valid-of-add_frame s f e = ground arith

  -- What `add_valid` pushes onto holds the media frames of `s`.
  add_valid-pushes :
      (s : GopQueue F) (m : Media) {t : GopQueue F}
      → add_valid is_positive reaches s (media m) ≡ some t
      → (u : GopQueue F) × (media_frames u ≡ media_frames s)
        × (old : List Media) × Dropped (push_frame u (media m)) t old
  unfolding add_valid
  add_valid-pushes s m {t} e = elim (Bool-cases (only_metadata s.current)) [
    | inl o ↦ (s, refl, [], Dropped-refl _ t (cc (rw (o, add_valid) at e)))
    | inr o ↦ elim (Bool-cases (is_positive s.min_cache_duration)) [
      | inl b ↦
          let (old, d) = update_gop-Dropped reaches _ t (rw (o, b, add_valid) at e) in
          (close_gop s (media m), media_frames-close_gop s (media m), old, d)
      | inr b ↦ (
        close_gop s (media m),
        media_frames-close_gop s (media m),
        [],
        Dropped-refl _ t (cc (rw (o, b, add_valid) at e)),
      )
    ]
  ]

  -- When `add_frame` accepts a media frame, the cache then holds, in order, the media frames that it
  -- held, less a run of the oldest ones, and behind them the new frame: no other media frame is
  -- lost, doubled or moved.
  pub add_frame-Keeps :
      (s : GopQueue F) (m : Media) {t : GopQueue F}
      → add_frame is_positive reaches s (media m) ≡ some (true, t)
      → (old : List Media) × (rest : List Media) × Keeps s m old rest t
  add_frame-Keeps s m {t} e =
      let (u, k, old, d) = add_valid-pushes s m (add_valid-of-add_frame s (media m) e) in
      (old, _, (sym k ∙ (push-Keeps u t m old d).0, (push-Keeps u t m old d).1))
