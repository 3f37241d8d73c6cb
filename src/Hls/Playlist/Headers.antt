-- ===== src/Hls/Playlist/Headers.antt =====
-- What `remove_useless_headers` of src/hls/m3u8.cc and src/hls/file_clean.cc erases: of a playlist that
-- starts with a header only headers, and never the last one before a media fragment.
use seastar_live.Prelude.{
  ℕ, zero, suc, ◌+◌, ◌<◌, ◌≡◌, refl, ap, ◌⊎◌, inl, inr, Bool, true, false, ◌&&◌, some, List, [],
  ◌∷◌, ◌++◌, arith, leb, ◌==◌, if◌then◌else◌, ==_iff, Bool-cases, Option-cases, length, take, drop,
}
use seastar_live.Hls.Playlist.{
  Fragment, erase, is_header, find_media, useless_headers, remove_useless_headers,
}

module _ (heap : ℕ → Fragment) where
  -- The fragments that are not headers.
  unfoldable pub media_items : List ℕ → List ℕ
  media_items [] = []
  media_items (x ∷ xs) = let rest = media_items xs in if is_header heap x then rest else x ∷ rest

  unfoldable pub starts_with_header : List ℕ → Bool
  starts_with_header [] = false
  starts_with_header (x ∷ xs) = is_header heap x

  unfoldable pub all_headers : List ℕ → Bool
  all_headers [] = true
  all_headers (x ∷ xs) = is_header heap x && all_headers xs

  pub media_items-append :
      (xs ys : List ℕ) → media_items (xs ++ ys) ≡ media_items xs ++ media_items ys
  unfolding media_items
  media_items-append [] ys = refl
  media_items-append (x ∷ xs) ys = ground (arith, media_items-append xs ys)

  pub media_items-headers : (xs : List ℕ) → all_headers xs ≡ true → media_items xs ≡ []
  unfolding media_items all_headers
  media_items-headers [] h = refl
  media_items-headers (x ∷ xs) h = ground (arith, media_items-headers xs)

  pub media_items-drop :
      (n : ℕ) (xs : List ℕ)
      → all_headers (take n xs) ≡ true
      → media_items (drop n xs) ≡ media_items xs
  unfolding media_items all_headers
  media_items-drop zero xs h = refl
  media_items-drop (suc n) [] h = refl
  media_items-drop (suc n) (x ∷ xs) h = ground (arith, media_items-drop n xs (ground arith))

  pub media_items-erase :
      (item : ℕ) (xs : List ℕ)
      → is_header heap item ≡ false
      → media_items (erase item xs) ≡ erase item (media_items xs)
  unfolding media_items erase
  media_items-erase item [] m = refl
  media_items-erase item (x ∷ xs) m = elim (Bool-cases (is_header heap x)) [
    | inl b ↦ elim (Bool-cases (x == item)) [
      | inl e ↦ absurd (ground (arith, ap (is_header heap) ((==_iff x item).0 e)))
      | inr e ↦ ground (arith, media_items-erase item xs m)
    ]
    | inr b ↦ elim (Bool-cases (x == item)) [
      | inl e ↦ ground arith
      | inr e ↦ ground (arith, media_items-erase item xs m)
    ]
  ]

  pub find_media_skips :
      (offset : ℕ) (xs : List ℕ) (n : ℕ)
      → find_media heap offset xs ≡ some n
      → (j : ℕ) × (n ≡ offset + j) × (j < length xs) × (all_headers (take j xs) ≡ true)
  unfolding find_media all_headers
  find_media_skips offset [] n h = absurd (ground arith)
  find_media_skips offset (x ∷ xs) n h = elim (Bool-cases (is_header heap x)) [
    | inl b ↦
        let (j, e, l, a) = find_media_skips (offset + 1) xs n (ground arith) in
        (suc j, omega arith, omega arith, ground arith)
    | inr b ↦ (0, ground arith, omega arith, refl)
  ]

  all_headers-take :
      (j x : ℕ) (xs : List ℕ)
      → is_header heap x ≡ true
      → all_headers (take j xs) ≡ true
      → all_headers (take j (x ∷ xs)) ≡ true
  unfolding all_headers
  all_headers-take zero x xs b a = refl
  all_headers-take (suc zero) x [] b a = ground arith
  all_headers-take (suc (suc j)) x [] b a = ground arith
  all_headers-take (suc j) x (y ∷ ys) b a =
      ground (arith, all_headers-take j y ys (ground arith) (ground arith))

  drop-starts_with_header :
      (j x : ℕ) (xs : List ℕ)
      → is_header heap x ≡ true
      → j < length xs
      → all_headers (take j xs) ≡ true
      → starts_with_header (drop j (x ∷ xs)) ≡ true
  unfolding starts_with_header all_headers
  drop-starts_with_header zero x xs b h a = b
  drop-starts_with_header (suc j) x [] b h a = absurd (omega arith)
  drop-starts_with_header (suc j) x (y ∷ ys) b h a =
      drop-starts_with_header j y ys (ground arith) (omega arith) (ground arith)

  -- Nothing is erased, or `j` items with as many headers after the first item.
  useless_headers-cases :
      (x : ℕ) (xs : List ℕ)
      → (useless_headers heap (x ∷ xs) ≡ 0)
        ⊎ ((j : ℕ) × (useless_headers heap (x ∷ xs) ≡ j)
            × (j < length xs)
            × (all_headers (take j xs) ≡ true))
  unfolding useless_headers
  useless_headers-cases x xs = elim (Bool-cases (leb (suc (length xs)) 1)) [
    | inl e ↦ inl (rw e refl)
    | inr e ↦ elim (Option-cases (find_media heap 0 xs)) [
      | inl n ↦ inl (rw e (rw n refl))
      | inr p ↦
          let (n, f) = p in
          let (j, k, l, a) = find_media_skips 0 xs n f in inr (j, rw e (rw f (ground arith)), l, a)
    ]
  ]

  -- The headers before the new first item; it is a header too.
  pub useless_headers_skips :
      (x : ℕ) (xs : List ℕ)
      → is_header heap x ≡ true
      → (all_headers (take (useless_headers heap (x ∷ xs)) (x ∷ xs)) ≡ true)
        × (starts_with_header (drop (useless_headers heap (x ∷ xs)) (x ∷ xs)) ≡ true)
  unfolding all_headers starts_with_header
  useless_headers_skips x xs b = elim (useless_headers-cases x xs) [
    | inl e ↦ rw e (refl, b)
    | inr p ↦
        let (j, e, l, a) = p in
        rw e (all_headers-take j x xs b a, drop-starts_with_header j x xs b l a)
  ]

  -- On a playlist that starts with a header, removing the useless ones keeps every media fragment.
  pub remove_useless_headers-media_items :
      (xs : List ℕ)
      → starts_with_header xs ≡ true
      → (media_items (remove_useless_headers heap xs) ≡ media_items xs)
        × (starts_with_header (remove_useless_headers heap xs) ≡ true)
  unfolding remove_useless_headers starts_with_header
  remove_useless_headers-media_items [] s = absurd (ground arith)
  remove_useless_headers-media_items (x ∷ xs) s =
      let n = useless_headers heap (x ∷ xs) in
      let (a, h) = useless_headers_skips x xs s in (media_items-drop n (x ∷ xs) a, h)

  pub starts_with_header-append :
      (xs ys : List ℕ) → starts_with_header xs ≡ true → starts_with_header (xs ++ ys) ≡ true
  unfolding starts_with_header
  starts_with_header-append [] ys s = absurd (ground arith)
  starts_with_header-append (x ∷ xs) ys s = s

  pub starts_with_header-erase :
      (item : ℕ) (xs : List ℕ)
      → is_header heap item ≡ false
      → starts_with_header xs ≡ true
      → starts_with_header (erase item xs) ≡ true
  unfolding starts_with_header erase
  starts_with_header-erase item [] m s = s
  starts_with_header-erase item (x ∷ xs) m s = elim (Bool-cases (x == item)) [
    | inl e ↦ absurd (ground (arith, ap (is_header heap) ((==_iff x item).0 e)))
    | inr e ↦ rw e s
  ]

  pub is_header-media_items :
      (xs : List ℕ) (y : ℕ) (ys : List ℕ) → media_items xs ≡ y ∷ ys → is_header heap y ≡ false
  unfolding media_items
  is_header-media_items [] y ys e = absurd (ground arith)
  is_header-media_items (x ∷ xs) y ys e = ground (arith, is_header-media_items xs y ys)
