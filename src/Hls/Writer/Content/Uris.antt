-- ===== src/Hls/Writer/Content/Uris.antt =====
-- What a client reads in a playlist file of src/hls/m3u8.cc: the lines that are not empty and start
-- with no `#` name the fragments.
use seastar_live.Prelude.{
  ℕ, ◌+◌, ◌-◌, ◌≡◌, refl, sym, ap, ◌∙◌, inl, inr, Bool, true, false, ◌&&◌, not, List, [], ◌∷◌, ◌++◌,
  map, append-nil, append_assoc, arith, ◌==◌, if◌then◌else◌, Bool-cases, length,
}
use seastar_live.Prelude.Int.{ℤ, pos}
use seastar_live.Hls.Playlist.{Fragment, is_header}
use seastar_live.Hls.Playlist.Headers.{media_items}
use seastar_live.Hls.Writer.Content.{
  codes, rem, media_sequence, max_duration, make_playitem_content, items_content, make_content,
}

-- `line` is what was read of the line.
unfoldable pub lines : List ℕ → List ℕ → List (List ℕ)
lines line [] = line ∷ []
lines line (c ∷ cs) =
    let next = lines [] cs in
    let same = lines (line ++ c ∷ []) cs in if c == 10 then line ∷ next else same

unfoldable pub is_uri : List ℕ → Bool
is_uri [] = false
is_uri (c ∷ cs) = not (c == 35)

unfoldable pub uris_of : List (List ℕ) → List (List ℕ)
unfolding is_uri
uris_of [] = []
uris_of (l ∷ ls) = let rest = uris_of ls in if is_uri l then l ∷ rest else rest

unfoldable pub uris : List ℕ → List (List ℕ)
unfolding lines uris_of
uris text = uris_of (lines [] text)

unfoldable pub one_line : List ℕ → Bool
one_line [] = true
one_line (c ∷ cs) = not (c == 10) && one_line cs

one_line-append :
    (xs ys : List ℕ) → one_line xs ≡ true → one_line ys ≡ true → one_line (xs ++ ys) ≡ true
unfolding one_line
one_line-append [] ys a b = b
one_line-append (x ∷ xs) ys a b = ground (arith, one_line-append xs ys (ground arith) b)

lines-line :
    (l seen rest : List ℕ)
    → one_line l ≡ true
    → lines seen (l ++ 10 ∷ rest) ≡ (seen ++ l) ∷ lines [] rest
unfolding lines one_line
lines-line [] seen rest a = ap (λ s. s ∷ lines [] rest) (sym (append-nil seen))
lines-line (c ∷ cs) seen rest a =
    ground
      (arith, lines-line cs (seen ++ c ∷ []) rest (ground arith), append_assoc seen (c ∷ []) cs)

-- A line that names no fragment, and one that does.
uris-comment :
    (l rest : List ℕ) → one_line l ≡ true → is_uri l ≡ false → uris (l ++ 10 ∷ rest) ≡ uris rest
unfolding uris uris_of
uris-comment l rest a b = rw (lines-line l [] rest a, b) refl

uris-uri :
    (l rest : List ℕ) → one_line l ≡ true → is_uri l ≡ true → uris (l ++ 10 ∷ rest) ≡ l ∷ uris rest
unfolding uris uris_of
uris-uri l rest a b = rw (lines-line l [] rest a, b) refl

module _ (heap : ℕ → Fragment) (decimal target_seconds item_seconds : ℤ → List ℕ)
    (file_name : List ℕ → List ℕ) (decimal_one_line : (v : ℤ) → one_line (decimal v) ≡ true)
    (target_one_line : (v : ℤ) → one_line (target_seconds v) ≡ true)
    (seconds_one_line : (v : ℤ) → one_line (item_seconds v) ≡ true) where
  -- The names of the fragments are names of files that a playlist can list.
  unfoldable pub nameable : List ℕ → Bool
  unfolding is_uri one_line
  nameable [] = true
  nameable (x ∷ xs) =
      is_uri (file_name (heap x).filepath) && one_line (file_name (heap x).filepath) && nameable xs

  uris-playitem :
      (x : ℕ) (rest : List ℕ)
      → one_line (file_name (heap x).filepath) ≡ true
      → is_uri (file_name (heap x).filepath) ≡ true
      → uris (make_playitem_content heap decimal target_seconds item_seconds file_name x ++ rest)
        ≡ file_name (heap x).filepath ∷ uris rest
  unfolding make_playitem_content one_line is_uri
  uris-playitem x rest a b =
      let name = file_name (heap x).filepath in
      let tag = codes "#EXTINF:" ++ item_seconds (heap x).duration in
      let text : make_playitem_content heap decimal target_seconds item_seconds file_name x ++ rest
          ≡ tag ++ 10 ∷ (name ++ 10 ∷ rest) =
        simp append_assoc in
      ap uris text
      ∙ uris-comment tag (name ++ 10 ∷ rest)
          (one_line-append (codes "#EXTINF:") (item_seconds (heap x).duration) refl
            (seconds_one_line (heap x).duration))
          refl
      ∙ uris-uri name rest a b

  uris-items :
      (size i : ℕ) (xs rest : List ℕ)
      → nameable xs ≡ true
      → uris (items_content heap decimal target_seconds item_seconds file_name size i xs ++ rest)
        ≡ map (λ p. file_name (heap p).filepath) (media_items heap xs) ++ uris rest
  unfolding items_content nameable media_items one_line is_uri
  uris-items size i [] rest n = refl
  uris-items size i (x ∷ xs) rest n =
      let items =
        items_content heap decimal target_seconds item_seconds file_name size (i + 1) xs in
      let next = uris-items size (i + 1) xs rest (ground arith) in
      elim (Bool-cases (is_header heap x)) [
        | inl b ↦ elim (Bool-cases (not (i == 0) && not (i == size - 1))) [
          | inl d ↦
              rw (b, d)
                (uris-comment (codes "#EXT-X-DISCONTINUITY") (items ++ rest) refl refl ∙ next)
          | inr d ↦ rw (b, d) next
        ]
        | inr b ↦
            rw
              (
                b,
                append_assoc
                    (make_playitem_content heap decimal target_seconds item_seconds file_name x)
                    items rest,
              )
              (uris-playitem x (items ++ rest) (ground arith) (ground arith)
                ∙ ap (λ l. file_name (heap x).filepath ∷ l) next)
      ]

  -- Of a playlist with an item, whose fragments have file names of one line that do not start with
  -- `#`, the file names, in order, the fragments that are not headers, if the text appended at the
  -- end names none and the texts made of numbers have no line break.
  pub uris-make_content :
      (x : ℕ) (xs last : List ℕ)
      → nameable (x ∷ xs) ≡ true
      → uris last ≡ []
      → uris (make_content heap decimal target_seconds item_seconds file_name (x ∷ xs) last)
        ≡ map (λ p. file_name (heap p).filepath) (media_items heap (x ∷ xs))
  unfolding make_content one_line is_uri
  uris-make_content x xs last n e =
      let number = rem (media_sequence heap (pos 0) (x ∷ xs)) 100000000 in
      let longest = max_duration heap (pos 0) (x ∷ xs) in
      let items =
        items_content heap decimal target_seconds item_seconds file_name (length (x ∷ xs)) 0
          (x ∷ xs)
        ++ last in
      let tag1 = codes "#EXT-X-MEDIA-SEQUENCE:" ++ decimal number in
      let tag2 = codes "#EXT-X-TARGETDURATION:" ++ target_seconds longest in
      let text : make_content heap decimal target_seconds item_seconds file_name (x ∷ xs) last
          ≡ codes "#EXTM3U"
            ++ 10
              ∷ (codes "#EXT-X-VERSION:3"
                  ++ 10
                    ∷ (codes "#EXT-X-START:TIME-OFFSET=0"
                        ++ 10 ∷ (tag1 ++ 10 ∷ (tag2 ++ 10 ∷ items)))) =
        simp append_assoc in
      ap uris text
      ∙ uris-comment (codes "#EXTM3U") _ refl refl
      ∙ uris-comment (codes "#EXT-X-VERSION:3") _ refl refl
      ∙ uris-comment (codes "#EXT-X-START:TIME-OFFSET=0") _ refl refl
      ∙ uris-comment tag1 (tag2 ++ 10 ∷ items)
          (one_line-append (codes "#EXT-X-MEDIA-SEQUENCE:") (decimal number) refl
            (decimal_one_line number))
          refl
      ∙ uris-comment tag2 items
          (one_line-append (codes "#EXT-X-TARGETDURATION:") (target_seconds longest) refl
            (target_one_line longest))
          refl
      ∙ uris-items (length (x ∷ xs)) 0 (x ∷ xs) last n
      ∙ rw (e, append-nil (map (λ p. file_name (heap p).filepath) (media_items heap (x ∷ xs)))) refl
