-- ===== src/Hls/Session/Files.antt =====
-- Which fragment files of an HLS session the cleaner has scheduled for deletion
-- (src/hls/file_clean.cc, src/session/hls/play_session.cc), when no rewrite of the playlist file fails.
use seastar_live.Prelude.{
  ℕ, ◌+◌, ◌≤◌, ◌<◌, ◌≡◌, refl, sym, ap, ◌∙◌, Bool, true, false, some, List, [], ◌∷◌, ◌++◌,
  append-nil, append_assoc, arith, take,
}
use seastar_live.Prelude.Int.{ℤ, ◌+ℤ◌}
use seastar_live.Hls.Playlist.{Fragment, is_header, erase, useless_headers, remove_useless_headers}
use seastar_live.Hls.Playlist.Headers.{starts_with_header, media_items}
use seastar_live.Hls.Counts.{count, count-append, count-take-drop, count-erase}
use seastar_live.Hls.Cleaner.{Cleaner}
use seastar_live.Hls.Writer
use seastar_live.Hls.Cleaner
use seastar_live.Hls.Session.{
  Session, on_begin, on_update_header, on_add_playitem, on_remove_playitem, on_remove_playitems,
  first_gop, after_first_gop, remove_gop_of, add_play_item,
}
use seastar_live.Hls.Session.Refines.{
  Event, header, item, well_typed, run, run-Follows, Follows, on_remove_playitem-writer,
  first_gop-after_first_gop, on_begin-Follows, on_update_header-Follows, add_play_item-Follows,
  remove_first_gop_play_items-Follows, added_Follows, after_added_keeps,
}

module _ (heap : ℕ → Fragment) where
  count-media_items : (x : ℕ) (xs : List ℕ) → count x (media_items heap xs) ≤ count x xs
  unfolding count media_items
  count-media_items x [] = omega arith
  count-media_items x (y ∷ ys) = ground (arith, count-media_items x ys)

-- The objects that the calls hand to the tracers.
unfoldable pub handed : {F : Type 0} → List (Event F) → List ℕ
handed [] = []
handed (header h ∷ es) = h ∷ handed es
handed (item p d ∷ es) = p ∷ handed es

-- The cleaner keeps what the writer lists, and each of `given` is kept or scheduled, once each time.
unfoldable pub Accounted : Session → List ℕ → Type 0
unfolding count
Accounted s given =
    (s.cleaner.playlist ≡ s.writer)
    × ((p : ℕ) → count p s.cleaner.playlist + count p s.cleaner.deleted ≡ count p given)

on_begin-Accounted : Accounted on_begin []
unfolding Accounted on_begin count
on_begin-Accounted = (refl, λ p. refl)

module _ (heap : ℕ → Fragment) where
  on_update_header-Accounted :
      (s : Session) (h : ℕ) (given : List ℕ)
      → Accounted s given
      → Accounted (on_update_header heap s (some h)) (given ++ h ∷ [])
  unfolding Accounted on_update_header Writer.on_update_header Cleaner.on_update_header
      Cleaner.remove_useless_headers remove_useless_headers count
  on_update_header-Accounted s h given (e, k) =
      let all = s.cleaner.playlist ++ h ∷ [] in
      let n = useless_headers heap all in
      (
        rw e refl,
        λ p. omega (
          arith,
          count-append p s.cleaner.deleted (take n all),
          count-take-drop p n all,
          count-append p s.cleaner.playlist (h ∷ []),
          count-append p given (h ∷ []),
          k p,
        ),
      )

  module _ (added_ok removed_ok : ℕ → Bool) where
    on_add_playitem-Accounted :
        (s : Session) (x : ℕ) (given : List ℕ)
        → added_ok x ≡ true
        → Accounted s given
        → Accounted (on_add_playitem heap added_ok removed_ok s x) (given ++ x ∷ [])
    unfolding Accounted on_add_playitem Writer.on_add_playitem Cleaner.on_add_playitem
    on_add_playitem-Accounted s x given ok (e, k) = rw ok (
      rw e refl,
      λ p.
          omega
            (arith, count-append p s.cleaner.playlist (x ∷ []), count-append p given (x ∷ []), k p),
    )

    on_remove_playitem-Accounted :
        (s : Session) (x : ℕ) (given : List ℕ)
        → removed_ok x ≡ true
        → 0 < count x s.cleaner.playlist
        → Accounted s given
        → Accounted (on_remove_playitem heap added_ok removed_ok s x) given
    unfolding Accounted on_remove_playitem Writer.on_remove_playitem Cleaner.on_remove_playitem
        Cleaner.remove_useless_headers remove_useless_headers count
    on_remove_playitem-Accounted s x given ok m (e, k) =
        let left = erase x s.cleaner.playlist in
        let n = useless_headers heap left in
        rw ok (
          rw e refl,
          λ p. omega (
            arith,
            count-append p s.cleaner.deleted (x ∷ []),
            count-append p (s.cleaner.deleted ++ x ∷ []) (take n left),
            count-take-drop p n left,
            count-erase p x s.cleaner.playlist m,
            k p,
          ),
        )

    -- The files of the first media fragments are there to be removed.
    on_remove_playitems-Accounted :
        (s : Session) (xs ys given : List ℕ)
        → ((p : ℕ) → removed_ok p ≡ true)
        → media_items heap s.writer ≡ xs ++ ys
        → starts_with_header heap s.writer ≡ true
        → Accounted s given
        → Accounted (on_remove_playitems heap added_ok removed_ok s xs) given
    unfolding on_remove_playitems Accounted count
    on_remove_playitems-Accounted s [] ys given ok e k a = a
    on_remove_playitems-Accounted s (x ∷ xs) ys given ok e k a =
        let (f, l) = on_remove_playitem-writer heap added_ok removed_ok s x (xs ++ ys) e k in
        let listed : 0 < count x (media_items heap s.writer) = rw e (ground arith) in
        let there : 0 < count x s.cleaner.playlist =
          rw a.0 (omega (arith, count-media_items heap x s.writer, listed)) in
        on_remove_playitems-Accounted (on_remove_playitem heap added_ok removed_ok s x) xs ys given
          ok f l (on_remove_playitem-Accounted s x given (ok x) there a)

    remove_gop_of-Accounted :
        (s : Session) (xs given : List ℕ)
        → ((p : ℕ) → removed_ok p ≡ true)
        → s.playlist ≡ xs
        → Follows heap s
        → Accounted s given
        → Accounted (remove_gop_of heap added_ok removed_ok s xs) given
    unfolding remove_gop_of Follows Accounted
    remove_gop_of-Accounted s [] given ok q (e, k) a = a
    remove_gop_of-Accounted s (first ∷ xs) given ok q (e, k) a =
        let gop = first_gop heap first (first ∷ xs) in
        let left = after_first_gop heap first (first ∷ xs) in
        on_remove_playitems-Accounted (record s { playlist = left }) gop left given ok
          (e ∙ q ∙ sym (first_gop-after_first_gop heap first (first ∷ xs))) k a

    module _ {F : Type 0} (exceeds : ℤ → F → Bool) (max_fragments : ℕ)
        (added : (p : ℕ) → added_ok p ≡ true) (removed : (p : ℕ) → removed_ok p ≡ true) where
      add_play_item-Accounted :
          (s : Session) (p : ℕ) (d : F) (given : List ℕ)
          → is_header heap p ≡ false
          → Follows heap s
          → Accounted s given
          → Accounted
              (add_play_item heap added_ok removed_ok exceeds max_fragments s p d)
              (given ++ p ∷ [])
      unfolding add_play_item Accounted
      add_play_item-Accounted s p d given m f a =
          let s' = record s { playlist = s.playlist ++ p ∷ [] } in
          (after_added_keeps heap added_ok removed_ok exceeds max_fragments
            (λ t. Follows heap t × Accounted t (given ++ p ∷ []))
            (λ t (g, b). (
              remove_first_gop_play_items-Follows heap added_ok removed_ok t g,
              remove_gop_of-Accounted t t.playlist (given ++ p ∷ []) removed refl g b,
            ))
            (added_ok p) (on_add_playitem heap added_ok removed_ok s' p)
            ((heap p).pts +ℤ (heap p).duration) d
            (
              added_Follows heap added_ok removed_ok s p m f,
              on_add_playitem-Accounted s' p given (added p) a,
            )).1

      run_from-Accounted :
          (s : Session) (es : List (Event F)) (given : List ℕ)
          → well_typed heap es ≡ true
          → Follows heap s
          → Accounted s given
          → Accounted (run heap added_ok removed_ok exceeds max_fragments s es) (given ++ handed es)
      unfolding run well_typed handed
      run_from-Accounted s [] given t f a = rw (append-nil given) a
      run_from-Accounted s (header h ∷ es) given t f a =
          rw (sym (append_assoc given (h ∷ []) (handed es))) (
            run_from-Accounted (on_update_header heap s (some h)) es (given ++ h ∷ [])
              (ground arith) (on_update_header-Follows heap s h (ground arith) f)
              (on_update_header-Accounted s h given a))
      run_from-Accounted s (item p d ∷ es) given t f a =
          rw (sym (append_assoc given (p ∷ []) (handed es))) (
            run_from-Accounted (add_play_item heap added_ok removed_ok exceeds max_fragments s p d)
              es (given ++ p ∷ []) (ground arith)
              (add_play_item-Follows heap added_ok removed_ok exceeds max_fragments s p d
                (ground arith) f)
              (add_play_item-Accounted s p d given (ground arith) f a))

      -- When no rewrite of the playlist file fails, from the first header of a session on the cleaner
      -- keeps the same playlist as the writer, and each object handed to the tracers is kept or was
      -- scheduled for deletion, never both: as often in all as it was handed over.
      pub run-Accounted :
          (h : ℕ) (es : List (Event F))
          → is_header heap h ≡ true
          → well_typed heap es ≡ true
          → Accounted
              (run heap added_ok removed_ok exceeds max_fragments on_begin (header h ∷ es))
              (h ∷ handed es)
      unfolding run
      run-Accounted h es b t =
          run_from-Accounted (on_update_header heap on_begin (some h)) es (h ∷ []) t
            (on_begin-Follows heap h b)
            (on_update_header-Accounted on_begin h [] on_begin-Accounted)

      -- When no rewrite of the playlist file fails and no object is handed to the tracers twice, the
      -- file of a fragment that the session still lists was not scheduled for deletion.
      pub run-listed_not_deleted :
          (h : ℕ) (es : List (Event F)) (p : ℕ)
          → is_header heap h ≡ true
          → well_typed heap es ≡ true
          → count p (h ∷ handed es) ≤ 1
          → 0
            < count p
                (run heap added_ok removed_ok exceeds max_fragments on_begin
                  (header h ∷ es)).playlist
          → count p
              (run heap added_ok removed_ok exceeds max_fragments on_begin
                (header h ∷ es)).cleaner.deleted
            ≡ 0
      unfolding Accounted Follows
      run-listed_not_deleted h es p b t once listed =
          let s = run heap added_ok removed_ok exceeds max_fragments on_begin (header h ∷ es) in
          let (e, k) = run-Accounted h es b t in
          let (f, _) = run-Follows heap added_ok removed_ok exceeds max_fragments h es b t in
          let kept : 0 < count p s.cleaner.playlist =
            rw e (omega (arith, count-media_items heap p s.writer, ap (count p) f, listed)) in
          omega (arith, k p, kept, once)
