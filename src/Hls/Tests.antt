-- ===== src/Hls/Tests.antt =====
-- The HLS playlists of src/hls and src/session/hls at concrete fragments, with durations in seconds.
use seastar_live.Prelude.{
  ℕ, zero, suc, ◌+◌, ◌-◌, ◌*◌, ◌≤◌, ◌≡◌, refl, Bool, true, false, ◌||◌, not, List, [], ◌∷◌, map,
  arith, ◌==◌, length,
}
use seastar_live.Prelude.Int.{ℤ, pos, negsuc, ltb_ℤ, ◌+ℤ◌, ◌-ℤ◌}
use seastar_live.Hls.Playlist.{Fragment, erase, find_media, useless_headers, remove_useless_headers}
use seastar_live.Hls.Playlist.Headers.{media_items}
use seastar_live.Hls.Writer
use seastar_live.Hls.Writer.Content.{codes, make_content}
use seastar_live.Hls.Writer.Content.Uris.{
  uris, lines, uris_of, is_uri, one_line, nameable, uris-make_content,
}
use seastar_live.Hls.Cleaner.{Cleaner}
use seastar_live.Hls.Cleaner
use seastar_live.Hls.Session.{
  Session, on_begin, find_second_from, find_second_key_frame_play_item, first_gop, after_first_gop,
  on_update_header, on_add_playitem, on_remove_playitem, on_remove_playitems, remove_gop_of,
  remove_first_gop_play_items, out_of_gop_duration, drop_gops, after_added, add_play_item,
}
use seastar_live.Hls.Session.Refines.{Event, header, item, well_typed, run, Follows, run-Follows}
use seastar_live.Hls.Counts.{count}
use seastar_live.Hls.Session.Files.{handed, Accounted, run-Accounted, run-listed_not_deleted}
use seastar_live.Hls.Session.Limits.{add_play_item_ends, length-add_play_item}

abbrev late : ℤ → ℕ → Bool
late t d = ltb_ℤ (pos (d * 1000)) t

-- Fragments 0 and 10 are headers; a fragment's file is called by its number, as a character.
abbrev frag : ℕ → Fragment
frag n = record {
  id = pos n;
  pts = pos (n * 2000);
  duration = pos 2000;
  start_by_keyframe = not (n == 0 || n == 10);
  size = 1;
  crc32 = 0;
  is_header = n == 0 || n == 10;
  header_id = pos 0;
  filepath = (b'a' + n) ∷ codes ".ts";
  ctime = pos 0;
}

abbrev fine : ℕ → Bool
fine n = true

abbrev events : List (Event ℕ)
events = item 1 3 ∷ item 2 3 ∷ header 10 ∷ item 3 3 ∷ []

abbrev session : Session
session = run frag fine fine late 2 on_begin (header 0 ∷ events)

run-Follows_example : Follows frag session
unfolding well_typed
run-Follows_example = run-Follows frag fine fine late 2 0 events refl refl

run-Accounted_example : Accounted session (0 ∷ handed events)
unfolding well_typed
run-Accounted_example =
    run-Accounted frag fine fine late 2 (λ p. refl) (λ p. refl) 0 events refl refl

-- The fragments 2 and 3 are left, and the file of fragment 1 is scheduled for deletion.
left_over : (session.playlist ≡ 2 ∷ 3 ∷ []) × (session.cleaner.deleted ≡ 1 ∷ [])
unfolding run add_play_item after_added drop_gops out_of_gop_duration
    find_second_key_frame_play_item find_second_from remove_first_gop_play_items remove_gop_of
    on_remove_playitems on_remove_playitem first_gop after_first_gop on_update_header
    on_add_playitem on_begin erase find_media useless_headers remove_useless_headers
    Writer.on_add_playitem Writer.on_remove_playitem Writer.on_update_header Cleaner.on_add_playitem
    Cleaner.on_remove_playitem Cleaner.on_update_header Cleaner.remove_useless_headers ◌+ℤ◌ ◌-ℤ◌
left_over = (refl, refl)

run-listed_not_deleted_example : count 3 session.cleaner.deleted ≡ 0
unfolding well_typed count handed
run-listed_not_deleted_example =
    run-listed_not_deleted frag fine fine late 2 (λ p. refl) (λ p. refl) 0 events 3 refl refl
      (omega arith) (rw left_over.0 (omega arith))

add_play_item_ends_example :
    out_of_gop_duration frag late 2
      (add_play_item frag fine fine late 2 session 4 1).playlist
      ((frag 4).pts +ℤ (frag 4).duration)
      1
    ≡ false
add_play_item_ends_example = add_play_item_ends frag fine fine late 2 session 4 1 refl

length-add_play_item_example :
    length (add_play_item frag fine fine late 2 session 4 1).playlist ≤ 2 + (1 - 2)
length-add_play_item_example = length-add_play_item frag fine fine late 2 session 4 1 refl

-- A playlist that starts with a media fragment loses it when headers are removed.
lost : remove_useless_headers frag (1 ∷ 10 ∷ 2 ∷ 0 ∷ []) ≡ 10 ∷ 2 ∷ 0 ∷ []
unfolding remove_useless_headers useless_headers find_media
lost = refl

-- A number as one character, and a path as its own file name.
abbrev digit : ℤ → List ℕ
digit v = b'0' ∷ []

abbrev whole : List ℕ → List ℕ
whole path = path

uris-make_content_example :
    uris
      (make_content frag digit digit digit whole (0 ∷ 1 ∷ 10 ∷ 2 ∷ []) (codes "#EXT-X-ENDLIST\n"))
    ≡ map (λ p. whole (frag p).filepath) (media_items frag (0 ∷ 1 ∷ 10 ∷ 2 ∷ []))
unfolding one_line nameable is_uri uris lines uris_of
uris-make_content_example =
    uris-make_content frag digit digit digit whole (λ v. refl) (λ v. refl) (λ v. refl) 0
      (1 ∷ 10 ∷ 2 ∷ []) (codes "#EXT-X-ENDLIST\n") refl refl

-- The seconds from `a` to `b`, without `b`.
abbrev seconds : ℕ → ℕ → List ℤ
seconds a zero = []
seconds a (suc n) = pos a ∷ seconds (a + 1) n

abbrev irange : ℤ → ℤ → List ℤ
irange (pos a) (pos b) = seconds a (b - a)
irange (pos a) (negsuc b) = []
irange (negsuc a) b = []
