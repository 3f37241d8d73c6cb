-- ===== src/Hls/Counts.antt =====
-- How often an object stands on a playlist (src/hls/object.hh), and what appending, splitting and
-- erasing do to that.
use seastar_live.Prelude.{
  ℕ, ◌+◌, ◌<◌, ◌≡◌, refl, sym, ap, ◌∙◌, inl, inr, List, [], ◌∷◌, ◌++◌, arith, ◌==◌, if◌then◌else◌,
  ==_iff, Bool-cases, take, drop, take-append-drop,
}
use seastar_live.Hls.Playlist.{erase}

unfoldable pub count : ℕ → List ℕ → ℕ
count p [] = 0
count p (x ∷ xs) = (if x == p then 1 else 0) + count p xs

pub count-append : (p : ℕ) (xs ys : List ℕ) → count p (xs ++ ys) ≡ count p xs + count p ys
unfolding count
count-append p [] ys = omega arith
count-append p (x ∷ xs) ys = omega (arith, count-append p xs ys)

pub count-take-drop :
    (p n : ℕ) (xs : List ℕ) → count p (take n xs) + count p (drop n xs) ≡ count p xs
count-take-drop p n xs =
    sym (count-append p (take n xs) (drop n xs)) ∙ ap (count p) (take-append-drop n xs)

pub count-erase : (p x : ℕ) (xs : List ℕ) → 0 < count x xs → count p (x ∷ erase x xs) ≡ count p xs
unfolding count erase
count-erase p x [] m = absurd (omega arith)
count-erase p x (y ∷ ys) m = elim (Bool-cases (y == x)) [
  | inl e ↦ rw (e, (==_iff y x).0 e) refl
  | inr e ↦ ground (arith, e, count-erase p x ys (ground arith))
]
