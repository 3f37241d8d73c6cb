-- ===== src/Hls/Playlist.antt =====
-- src/hls/object.hh, src/hls/m3u8.cc and src/hls/file_clean.cc: a playlist is a sequence of pointers to
-- fragments, and the two tracers keep one each. A `fragment_info_ptr` is the identity of its object, the
-- heap says what the object holds (no fragment is written after it is shared), and the null pointer
-- is `none`. `std::find` on a playlist compares identities.
pub mod Headers
use seastar_live.Prelude.{
  ℕ, ◌+◌, ◌-◌, suc, List, [], ◌∷◌, ◌++◌, Option, none, some, Bool, true, false, not, leb, ◌==◌,
  if◌then◌else◌, length, take, drop,
}
use seastar_live.Prelude.Int.{ℤ}

pub record Fragment : Type 0 where
  pub id : ℤ
  pub pts : ℤ
  pub duration : ℤ
  pub start_by_keyframe : Bool
  pub size : ℕ
  pub crc32 : ℕ
  pub is_header : Bool
  pub header_id : ℤ
  pub filepath : List ℕ
  pub ctime : ℤ

-- `erase(find(begin, end, item))`, nothing if it is not there.
unfoldable pub erase : ℕ → List ℕ → List ℕ
erase item [] = []
erase item (x ∷ xs) = if x == item then xs else x ∷ erase item xs

module _ (heap : ℕ → Fragment) where
  abbrev pub is_header : ℕ → Bool
  is_header p = (heap p).is_header

  -- The loop's `it - second` when it stops at a fragment that is not a header.
  unfoldable pub find_media : ℕ → List ℕ → Option ℕ
  find_media offset [] = none
  find_media offset (x ∷ xs) = if is_header x then find_media (offset + 1) xs else some offset

  -- How many items the code erases: `[begin, it - 1)` with `it = begin + 1 + offset`.
  abbrev pub erased_before : Option ℕ → ℕ
  erased_before none = 0
  erased_before (some offset) = if offset == 0 then 0 else 1 + offset - 1

  unfoldable pub useless_headers : List ℕ → ℕ
  useless_headers [] = 0
  useless_headers (x ∷ xs) = if leb (length (x ∷ xs)) 1 then 0 else erased_before (find_media 0 xs)

  unfoldable pub remove_useless_headers : List ℕ → List ℕ
  unfolding useless_headers
  remove_useless_headers playlist = drop (useless_headers playlist) playlist
