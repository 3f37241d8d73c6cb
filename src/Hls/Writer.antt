-- ===== src/Hls/Writer.antt =====
-- src/hls/m3u8.cc: m3u8_writer, the tracer that keeps the .m3u8 file. Here is its playlist; what an
-- update writes is in the children. `save_timestamp` files are deleted later by a timer.
pub mod Content
pub mod Clock
use seastar_live.Prelude.{
  ℕ, zero, suc, ◌+◌, ◌-◌, ◌*◌, ◌/◌, ◌%◌, ◌^◌, ◌≤◌, ◌<◌, min, ◌≡◌, refl, sym, ap, ap₂, ◌∙◌, ◌≢◌, ◌↔◌,
  ◌⊎◌, inl, inr, Bool, true, false, ◌&&◌, ◌||◌, not, Option, none, some, List, [], ◌∷◌, ◌++◌, map,
  append-nil, append_assoc, arith, ltb, leb, ◌==◌, if◌then◌else◌, ltb→lt, lt→ltb, leb→le, ==_iff,
  tests, Bool-cases, Option-cases, length, get_elem?, set, length-append, get_or, take, drop,
  replicate, take-append-drop,
}
use seastar_live.Hls.Playlist.{Fragment, erase, remove_useless_headers}

module _ (heap : ℕ → Fragment) where
  unfoldable pub on_add_playitem : List ℕ → Option ℕ → List ℕ
  on_add_playitem playlist none = playlist
  on_add_playitem playlist (some item) = playlist ++ item ∷ []

  unfoldable pub on_remove_playitem : List ℕ → Option ℕ → List ℕ
  unfolding erase remove_useless_headers
  on_remove_playitem playlist none = playlist
  on_remove_playitem playlist (some item) = remove_useless_headers heap (erase item playlist)

  unfoldable pub on_update_header : List ℕ → Option ℕ → List ℕ
  unfolding remove_useless_headers
  on_update_header playlist none = playlist
  on_update_header playlist (some header) = remove_useless_headers heap (playlist ++ header ∷ [])
