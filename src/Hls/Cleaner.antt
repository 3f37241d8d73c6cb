-- ===== src/Hls/Cleaner.antt =====
-- src/hls/file_clean.cc: file_cleaner, the tracer that schedules the files of dropped fragments for
-- deletion. `deleted` is the fragments whose file `remove_file_delay` was called with, in order; the
-- sleep before the deletion is left out.
use seastar_live.Prelude.{ℕ, Option, none, some, List, [], ◌∷◌, ◌++◌, take, drop}
use seastar_live.Hls.Playlist.{Fragment, erase, useless_headers}

pub record Cleaner : Type 0 where
  pub playlist : List ℕ
  pub deleted : List ℕ

module _ (heap : ℕ → Fragment) where
  unfoldable pub remove_useless_headers : Cleaner → Cleaner
  unfolding useless_headers
  remove_useless_headers c = record {
    playlist = drop (useless_headers heap c.playlist) c.playlist;
    deleted = c.deleted ++ take (useless_headers heap c.playlist) c.playlist;
  }

  unfoldable pub on_add_playitem : Cleaner → Option ℕ → Cleaner
  on_add_playitem c none = c
  on_add_playitem c (some item) = record c { playlist = c.playlist ++ item ∷ [] }

  unfoldable pub on_remove_playitem : Cleaner → Option ℕ → Cleaner
  unfolding erase remove_useless_headers
  on_remove_playitem c none = c
  on_remove_playitem c (some item) =
      remove_useless_headers
        record { playlist = erase item c.playlist; deleted = c.deleted ++ item ∷ [] }

  unfoldable pub on_update_header : Cleaner → Option ℕ → Cleaner
  unfolding remove_useless_headers
  on_update_header c none = c
  on_update_header c (some header) =
      remove_useless_headers record c { playlist = c.playlist ++ header ∷ [] }
