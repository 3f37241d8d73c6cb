-- ===== src/Hls/Session/Refines.antt =====
-- The tracers of an HLS session (src/session/hls/play_session.cc) follow its playlist: what the writer
-- lists is what the session keeps, whatever rewrites of the file fail, and the cleaner keeps the same
-- playlist as the writer when none does.
use seastar_live.Prelude.{
  ℕ, zero, suc, ◌≡◌, refl, sym, ap, ◌∙◌, inl, inr, Bool, true, false, ◌&&◌, not, some, List, [],
  ◌∷◌, ◌++◌, append-nil, arith, Bool-cases, length,
}
use seastar_live.Prelude.Int.{ℤ, ◌+ℤ◌}
use seastar_live.Hls.Playlist.{Fragment, is_header, erase, useless_headers, remove_useless_headers}
use seastar_live.Hls.Playlist.Headers.{
  media_items, starts_with_header, is_header-media_items, media_items-append, media_items-erase,
  remove_useless_headers-media_items, starts_with_header-append, starts_with_header-erase,
}
use seastar_live.Hls.Writer
use seastar_live.Hls.Session.{
  Session, on_begin, on_update_header, on_add_playitem, on_remove_playitem, on_remove_playitems,
  first_gop, after_first_gop, remove_gop_of, remove_first_gop_play_items, out_of_gop_duration,
  drop_gops, after_added, add_play_item,
}
use seastar_live.Hls.Session.Limits.{on_remove_playitems-playlist}

-- The calls a session makes after `on_begin`, with the objects they are given.
pub data Event (F : Type 0) : Type 0 where
  header : ℕ → Event F
  item : ℕ → F → Event F

module _ {F : Type 0} (heap : ℕ → Fragment) where
  -- A header call passes a header, an item call a fragment that is not one.
  unfoldable pub well_typed : List (Event F) → Bool
  well_typed [] = true
  well_typed (header h ∷ es) = is_header heap h && well_typed es
  well_typed (item p d ∷ es) = not (is_header heap p) && well_typed es

  module _ (added_ok removed_ok : ℕ → Bool) (exceeds : ℤ → F → Bool) (max_fragments : ℕ) where
    unfoldable pub run : Session → List (Event F) → Session
    unfolding on_update_header add_play_item
    run s [] = s
    run s (header h ∷ es) = run (on_update_header heap s (some h)) es
    run s (item p d ∷ es) =
        run (add_play_item heap added_ok removed_ok exceeds max_fragments s p d) es

-- The writer lists what the session keeps, after a header.
unfoldable pub Follows : (ℕ → Fragment) → Session → Type 0
unfolding media_items starts_with_header
Follows heap s =
    (media_items heap s.writer ≡ s.playlist) × (starts_with_header heap s.writer ≡ true)

module _ (heap : ℕ → Fragment) where
  pub first_gop-after_first_gop :
      (first : ℕ) (xs : List ℕ) → first_gop heap first xs ++ after_first_gop heap first xs ≡ xs
  unfolding first_gop after_first_gop
  first_gop-after_first_gop first [] = refl
  first_gop-after_first_gop first (x ∷ xs) = ground (arith, first_gop-after_first_gop first xs)

  Writer-on_update_header :
      (w : List ℕ) (h : ℕ)
      → is_header heap h ≡ true
      → starts_with_header heap w ≡ true
      → (media_items heap (Writer.on_update_header heap w (some h)) ≡ media_items heap w)
        × (starts_with_header heap (Writer.on_update_header heap w (some h)) ≡ true)
  unfolding Writer.on_update_header media_items
  Writer-on_update_header w h b s =
      let (e, k) =
        remove_useless_headers-media_items heap (w ++ h ∷ [])
          (starts_with_header-append heap w (h ∷ []) s) in
      (
        rw e (ground (arith, media_items-append heap w (h ∷ []), append-nil (media_items heap w))),
        k,
      )

  pub on_update_header-Follows :
      (s : Session) (h : ℕ)
      → is_header heap h ≡ true
      → Follows heap s
      → Follows heap (on_update_header heap s (some h))
  unfolding Follows on_update_header
  on_update_header-Follows s h b (e, k) =
      let (f, l) = Writer-on_update_header s.writer h b k in (f ∙ e, l)

  -- The first header of a session.
  pub on_begin-Follows :
      (h : ℕ) → is_header heap h ≡ true → Follows heap (on_update_header heap on_begin (some h))
  unfolding Follows on_update_header on_begin Writer.on_update_header remove_useless_headers
      useless_headers media_items starts_with_header
  on_begin-Follows h b = (ground arith, b)

  module _ (added_ok removed_ok : ℕ → Bool) where
    -- Removing the first media fragment.
    pub on_remove_playitem-writer :
        (s : Session) (x : ℕ) (zs : List ℕ)
        → media_items heap s.writer ≡ x ∷ zs
        → starts_with_header heap s.writer ≡ true
        → (media_items heap (on_remove_playitem heap added_ok removed_ok s x).writer ≡ zs)
          × (starts_with_header heap (on_remove_playitem heap added_ok removed_ok s x).writer
              ≡ true)
    unfolding on_remove_playitem Writer.on_remove_playitem erase
    on_remove_playitem-writer s x zs e k =
        let m = is_header-media_items heap s.writer x zs e in
        let (f, l) =
          remove_useless_headers-media_items heap (erase x s.writer)
            (starts_with_header-erase heap x s.writer m k) in
        (f ∙ media_items-erase heap x s.writer m ∙ ap (erase x) e ∙ ground arith, l)

    on_remove_playitems-writer :
        (s : Session) (xs ys : List ℕ)
        → media_items heap s.writer ≡ xs ++ ys
        → starts_with_header heap s.writer ≡ true
        → (media_items heap (on_remove_playitems heap added_ok removed_ok s xs).writer ≡ ys)
          × (starts_with_header heap (on_remove_playitems heap added_ok removed_ok s xs).writer
              ≡ true)
    unfolding on_remove_playitems
    on_remove_playitems-writer s [] ys e k = (e, k)
    on_remove_playitems-writer s (x ∷ xs) ys e k =
        let (f, l) = on_remove_playitem-writer s x (xs ++ ys) e k in
        on_remove_playitems-writer (on_remove_playitem heap added_ok removed_ok s x) xs ys f l

    pub remove_gop_of-Follows :
        (s : Session) (xs : List ℕ)
        → s.playlist ≡ xs
        → Follows heap s
        → Follows heap (remove_gop_of heap added_ok removed_ok s xs)
    unfolding Follows remove_gop_of
    remove_gop_of-Follows s [] q f = f
    remove_gop_of-Follows s (first ∷ xs) q (e, k) =
        let gop = first_gop heap first (first ∷ xs) in
        let left = after_first_gop heap first (first ∷ xs) in
        let (f, l) =
          on_remove_playitems-writer (record s { playlist = left }) gop left
            (e ∙ q ∙ sym (first_gop-after_first_gop first (first ∷ xs))) k in
        (
          f
              ∙ sym (
                  on_remove_playitems-playlist heap added_ok removed_ok
                    (record s { playlist = left }) gop),
          l,
        )

    pub remove_first_gop_play_items-Follows :
        (s : Session)
        → Follows heap s
        → Follows heap (remove_first_gop_play_items heap added_ok removed_ok s)
    unfolding remove_first_gop_play_items
    remove_first_gop_play_items-Follows s f = remove_gop_of-Follows s s.playlist refl f

    pub added_Follows :
        (s : Session) (p : ℕ)
        → is_header heap p ≡ false
        → Follows heap s
        → Follows heap (
            on_add_playitem heap added_ok removed_ok
              (record s { playlist = s.playlist ++ p ∷ [] })
              p)
    unfolding Follows on_add_playitem Writer.on_add_playitem media_items
    added_Follows s p m (e, k) = (
      media_items-append heap s.writer (p ∷ []) ∙ ground (arith, e),
      starts_with_header-append heap s.writer (p ∷ []) k,
    )

    module _ {F : Type 0} (exceeds : ℤ → F → Bool) (max_fragments : ℕ) where
      drop_gops_keeps :
          (P : Session → Type 0)
          → ((s : Session) → P s → P (remove_first_gop_play_items heap added_ok removed_ok s))
          → (fuel : ℕ) (s : Session) (pts : ℤ) (d : F) → P s
          → P (drop_gops heap added_ok removed_ok exceeds max_fragments fuel s pts d)
      unfolding drop_gops
      drop_gops_keeps P turn zero s pts d f = f
      drop_gops_keeps P turn (suc fuel) s pts d f =
          elim (Bool-cases (out_of_gop_duration heap exceeds max_fragments s.playlist pts d)) [
            | inl b ↦ rw b (
                drop_gops_keeps P turn fuel (remove_first_gop_play_items heap added_ok removed_ok s)
                  pts d (turn s f))
            | inr b ↦ rw b f
          ]

      -- What a turn of the loop keeps, the loop keeps.
      pub after_added_keeps :
          (P : Session → Type 0)
          → ((s : Session) → P s → P (remove_first_gop_play_items heap added_ok removed_ok s))
          → (ok : Bool) (s : Session) (pts : ℤ) (d : F) → P s
          → P (after_added heap added_ok removed_ok exceeds max_fragments ok s pts d)
      unfolding after_added
      after_added_keeps P turn true s pts d f = drop_gops_keeps P turn (length s.playlist) s pts d f
      after_added_keeps P turn false s pts d f = f

      pub add_play_item-Follows :
          (s : Session) (p : ℕ) (d : F)
          → is_header heap p ≡ false
          → Follows heap s
          → Follows heap (add_play_item heap added_ok removed_ok exceeds max_fragments s p d)
      unfolding add_play_item
      add_play_item-Follows s p d m f =
          after_added_keeps (Follows heap) remove_first_gop_play_items-Follows (added_ok p)
            (on_add_playitem heap added_ok removed_ok (record s { playlist = s.playlist ++ p ∷ [] })
              p)
            ((heap p).pts +ℤ (heap p).duration) d (added_Follows s p m f)

      run_from-Follows :
          (s : Session) (es : List (Event F))
          → well_typed heap es ≡ true
          → Follows heap s
          → Follows heap (run heap added_ok removed_ok exceeds max_fragments s es)
      unfolding run well_typed
      run_from-Follows s [] t f = f
      run_from-Follows s (header h ∷ es) t f =
          run_from-Follows (on_update_header heap s (some h)) es (ground arith)
            (on_update_header-Follows s h (ground arith) f)
      run_from-Follows s (item p d ∷ es) t f =
          run_from-Follows (add_play_item heap added_ok removed_ok exceeds max_fragments s p d) es
            (ground arith) (add_play_item-Follows s p d (ground arith) f)

      -- From the first header of a session on, the media fragments that the writer lists are the
      -- session's playlist, in its order, and the list starts with a header, whichever rewrites of
      -- the playlist file fail.
      pub run-Follows :
          (h : ℕ) (es : List (Event F))
          → is_header heap h ≡ true
          → well_typed heap es ≡ true
          → Follows heap
              (run heap added_ok removed_ok exceeds max_fragments on_begin (header h ∷ es))
      unfolding run
      run-Follows h es b t =
          run_from-Follows (on_update_header heap on_begin (some h)) es t (on_begin-Follows h b)
