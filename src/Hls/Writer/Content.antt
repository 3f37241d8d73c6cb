-- ===== src/Hls/Writer/Content.antt =====
-- src/hls/m3u8.cc: what m3u8_writer_v3 writes, as character codes. The library calls that make text of
-- a number or take the last part of a path are parameters: `decimal` is std::to_string,
-- `target_seconds` that of `ceil(max_duration / 1000.f)`, `item_seconds` the `{:.2f}` of
-- `duration / 1000.00f`, `file_name` std::filesystem's `filename().string()`.
pub mod Uris
use seastar_live.Prelude.{
  ℕ, zero, suc, ◌+◌, ◌-◌, ◌*◌, ◌/◌, ◌%◌, ◌^◌, ◌≤◌, ◌<◌, min, ◌≡◌, refl, sym, ap, ap₂, ◌∙◌, ◌≢◌, ◌↔◌,
  ◌⊎◌, inl, inr, Bool, true, false, ◌&&◌, ◌||◌, not, Option, none, some, List, [], ◌∷◌, ◌++◌, map,
  append-nil, append_assoc, arith, ltb, leb, ◌==◌, if◌then◌else◌, ltb→lt, lt→ltb, leb→le, ==_iff,
  tests, Bool-cases, Option-cases, length, get_elem?, set, length-append, get_or, take, drop,
  replicate, take-append-drop,
}
use seastar_live.Prelude.Int.{ℤ, pos, negsuc, eqb_ℤ, ltb_ℤ}
use seastar_live.Hls.Playlist.{Fragment, is_header}
use Prim.Native.Char.{code}
use Prim.Native.String.{String}

abbrev pub codes : String → List ℕ
codes String.[] = []
codes (String.◌∷◌ c s) = code c ∷ codes s

-- `%` of C++, with the sign of the dividend.
unfoldable pub rem : ℤ → ℕ → ℤ
rem (pos n) m = pos (n % m)
rem (negsuc n) m = if (n + 1) % m == 0 then pos 0 else negsuc ((n + 1) % m - 1)

module _ (heap : ℕ → Fragment) where
  -- The first loop of `make_content`: `sequence` is set as long as it is 0.
  unfoldable pub media_sequence : ℤ → List ℕ → ℤ
  media_sequence sequence [] = sequence
  media_sequence sequence (x ∷ xs) =
      media_sequence
        (if is_header heap x
          then sequence
          else if eqb_ℤ sequence (pos 0)
          then (heap x).id
          else sequence)
        xs

  unfoldable pub max_duration : ℤ → List ℕ → ℤ
  max_duration longest [] = longest
  max_duration longest (x ∷ xs) =
      max_duration
        (if is_header heap x
          then longest
          else if ltb_ℤ longest (heap x).duration
          then (heap x).duration
          else longest)
        xs

  module _ (decimal target_seconds item_seconds : ℤ → List ℕ) (file_name : List ℕ → List ℕ) where
    unfoldable pub make_playitem_content : ℕ → List ℕ
    make_playitem_content item =
        codes "#EXTINF:"
        ++ item_seconds (heap item).duration
        ++ codes "\n"
        ++ file_name (heap item).filepath
        ++ codes "\n"

    -- The second loop, at index `i` of a playlist of `size` items.
    unfoldable pub items_content : ℕ → ℕ → List ℕ → List ℕ
    unfolding make_playitem_content
    items_content size i [] = []
    items_content size i (x ∷ xs) =
        (if is_header heap x
          then (if not (i == 0) && not (i == size - 1) then codes "#EXT-X-DISCONTINUITY\n" else [])
          else make_playitem_content x)
        ++ items_content size (i + 1) xs

    unfoldable pub make_content : List ℕ → List ℕ → List ℕ
    unfolding media_sequence max_duration rem items_content
    make_content [] last = []
    make_content (x ∷ xs) last =
        codes "#EXTM3U\n"
        ++ codes "#EXT-X-VERSION:3\n"
        ++ codes "#EXT-X-START:TIME-OFFSET=0\n"
        ++ (codes "#EXT-X-MEDIA-SEQUENCE:"
            ++ decimal (rem (media_sequence (pos 0) (x ∷ xs)) 100000000)
            ++ codes "\n")
        ++ (codes "#EXT-X-TARGETDURATION:"
            ++ target_seconds (max_duration (pos 0) (x ∷ xs))
            ++ codes "\n")
        ++ items_content (length (x ∷ xs)) 0 (x ∷ xs)
        ++ last

    -- What `closed` writes; an empty playlist is not written.
    unfoldable pub closed : List ℕ → Option (List ℕ)
    unfolding make_content
    closed [] = none
    closed (x ∷ xs) = some (make_content (x ∷ xs) (codes "#EXT-X-ENDLIST\n"))
