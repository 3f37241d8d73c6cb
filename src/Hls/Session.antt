-- ===== src/Hls/Session.antt =====
-- src/session/hls/play_session.cc: the fragments of an HLS session and the tracers it reports to.
-- `exceeds t d` is the comparison of milliseconds with a float number of seconds
-- (`t > d * 1000`), and `max_fragments` the setting `hls_ts_max_fragments` as a size_t.
-- `added_ok` and `removed_ok` say of a fragment whether the rewrite of the playlist file succeeds when
-- it is added and when it is removed: a failed future stops the calls of the tracers after it. Of the
-- tracers there is one writer, then one cleaner, in the order of `all_tracers`; both change their
-- playlist before they first suspend, so calls are taken one after another.
pub mod Limits
pub mod Refines
pub mod Files
use seastar_live.Prelude.{
  ℕ, zero, suc, ◌+◌, ◌-◌, ◌*◌, ◌/◌, ◌%◌, ◌^◌, ◌≤◌, ◌<◌, min, ◌≡◌, refl, sym, ap, ap₂, ◌∙◌, ◌≢◌, ◌↔◌,
  ◌⊎◌, inl, inr, Bool, true, false, ◌&&◌, ◌||◌, not, Option, none, some, List, [], ◌∷◌, ◌++◌, map,
  append-nil, append_assoc, arith, ltb, leb, ◌==◌, if◌then◌else◌, ltb→lt, lt→ltb, leb→le, ==_iff,
  tests, Bool-cases, Option-cases, length, get_elem?, set, length-append, get_or, take, drop,
  replicate, take-append-drop,
}
use seastar_live.Prelude.Int.{ℤ, ◌+ℤ◌, ◌-ℤ◌}
use seastar_live.Hls.Playlist.{Fragment}
use seastar_live.Hls.Writer
use seastar_live.Hls.Cleaner.{Cleaner}
use seastar_live.Hls.Cleaner

pub record Session : Type 0 where
  pub playlist : List ℕ
  pub writer : List ℕ
  pub cleaner : Cleaner

unfoldable pub on_begin : Session
on_begin = record { playlist = []; writer = []; cleaner = record { playlist = []; deleted = [] } }

module _ (heap : ℕ → Fragment) where
  -- The loop, with `first` found or not.
  unfoldable pub find_second_from : Bool → List ℕ → Option ℕ
  find_second_from found [] = none
  find_second_from found (x ∷ xs) =
      let rest = find_second_from found xs in
      let next = find_second_from true xs in
      if not (heap x).start_by_keyframe then rest else if found then some x else next

  unfoldable pub find_second_key_frame_play_item : List ℕ → Option ℕ
  unfolding find_second_from
  find_second_key_frame_play_item playlist = find_second_from false playlist

  -- What the loop of `remove_first_gop_play_items` erases and what it leaves.
  unfoldable pub first_gop : ℕ → List ℕ → List ℕ
  first_gop first [] = []
  first_gop first (x ∷ xs) =
      if (heap x).start_by_keyframe && not (x == first) then [] else x ∷ first_gop first xs

  unfoldable pub after_first_gop : ℕ → List ℕ → List ℕ
  after_first_gop first [] = []
  after_first_gop first (x ∷ xs) =
      if (heap x).start_by_keyframe && not (x == first) then x ∷ xs else after_first_gop first xs

  unfoldable pub on_update_header : Session → Option ℕ → Session
  unfolding Writer.on_update_header Cleaner.on_update_header
  on_update_header s header = record s {
    writer = Writer.on_update_header heap s.writer header;
    cleaner = Cleaner.on_update_header heap s.cleaner header;
  }

  module _ {F : Type 0} (exceeds : ℤ → F → Bool) (max_fragments : ℕ) where
    abbrev pub late_key_frame : ℤ → F → Option ℕ → Bool
    late_key_frame pts min_duration none = false
    late_key_frame pts min_duration (some ski) = exceeds (pts -ℤ (heap ski).pts) min_duration

    unfoldable pub out_of_gop_duration : List ℕ → ℤ → F → Bool
    unfolding find_second_key_frame_play_item
    out_of_gop_duration playlist pts min_duration =
        if leb (length playlist) 1
        then false
        else if ltb max_fragments (length playlist)
        then true
        else late_key_frame pts min_duration (find_second_key_frame_play_item playlist)

  module _ (added_ok removed_ok : ℕ → Bool) where
    unfoldable pub on_add_playitem : Session → ℕ → Session
    unfolding Writer.on_add_playitem Cleaner.on_add_playitem
    on_add_playitem s item = record s {
      writer = Writer.on_add_playitem heap s.writer (some item);
      cleaner =
          if added_ok item then Cleaner.on_add_playitem heap s.cleaner (some item) else s.cleaner;
    }

    unfoldable pub on_remove_playitem : Session → ℕ → Session
    unfolding Writer.on_remove_playitem Cleaner.on_remove_playitem
    on_remove_playitem s item = record s {
      writer = Writer.on_remove_playitem heap s.writer (some item);
      cleaner =
          if removed_ok item
          then Cleaner.on_remove_playitem heap s.cleaner (some item)
          else s.cleaner;
    }

    unfoldable pub on_remove_playitems : Session → List ℕ → Session
    unfolding on_remove_playitem
    on_remove_playitems s [] = s
    on_remove_playitems s (x ∷ xs) = on_remove_playitems (on_remove_playitem s x) xs

    -- On the playlist of `s`. `front()` of an empty playlist is not reached: the loop below tests its
    -- size first.
    unfoldable pub remove_gop_of : Session → List ℕ → Session
    unfolding first_gop after_first_gop on_remove_playitems
    remove_gop_of s [] = s
    remove_gop_of s (first ∷ xs) =
        on_remove_playitems (record s { playlist = after_first_gop first (first ∷ xs) })
          (first_gop first (first ∷ xs))

    unfoldable pub remove_first_gop_play_items : Session → Session
    unfolding remove_gop_of
    remove_first_gop_play_items s = remove_gop_of s s.playlist

    module _ {F : Type 0} (exceeds : ℤ → F → Bool) (max_fragments : ℕ) where
      -- `do_until`, on fuel.
      unfoldable pub drop_gops : ℕ → Session → ℤ → F → Session
      unfolding out_of_gop_duration remove_first_gop_play_items
      drop_gops zero s pts min_duration = s
      drop_gops (suc fuel) s pts min_duration =
          let rest = drop_gops fuel (remove_first_gop_play_items s) pts min_duration in
          if out_of_gop_duration exceeds max_fragments s.playlist pts min_duration then rest else s

      -- What follows the tracers' calls: a failed rewrite fails the future, and the loop is not run.
      unfoldable pub after_added : Bool → Session → ℤ → F → Session
      unfolding drop_gops
      after_added true s pts min_duration = drop_gops (length s.playlist) s pts min_duration
      after_added false s pts min_duration = s

      unfoldable pub add_play_item : Session → ℕ → F → Session
      unfolding on_add_playitem after_added
      add_play_item s item min_duration =
          after_added (added_ok item)
            (on_add_playitem (record s { playlist = s.playlist ++ item ∷ [] }) item)
            ((heap item).pts +ℤ (heap item).duration) min_duration
