-- ===== src/Server/SessionList/Queries.antt =====
-- The queries of session_list (src/server/transmition.cc) agree with one another, and removing and
-- adding with them.
use seastar_live.Prelude.{
  ℕ, ◌+◌, ◌≤◌, ◌≡◌, refl, sym, ap, ◌∙◌, inl, inr, Bool, true, false, ◌&&◌, Option, none, some, List,
  [], ◌∷◌, ◌++◌, append-nil, append_assoc, arith, ◌==◌, if◌then◌else◌, Bool-cases, length,
}
use seastar_live.Server.SessionList.{
  remove_when, size_from, size_when, find_any_when, find_all_from, find_all_when, is_exist_when,
  for_each_when,
}

abbrev pub first : List ℕ → Option ℕ
first [] = none
first (x ∷ xs) = some x

abbrev pub is_nonempty : List ℕ → Bool
is_nonempty [] = false
is_nonempty (x ∷ xs) = true

unfoldable pub count_session : ℕ → List ℕ → ℕ
count_session s [] = 0
count_session s (x ∷ xs) = (if x == s then 1 else 0) + count_session s xs

module _ (cast condition : ℕ → Bool) where
  find_all_from-append :
      (ys xs : List ℕ) → find_all_from cast ys condition xs ≡ ys ++ for_each_when cast condition xs
  unfolding find_all_from for_each_when
  find_all_from-append ys [] = sym (append-nil ys)
  find_all_from-append ys (x ∷ xs) = elim (Bool-cases (cast x && condition x)) [
    | inl b ↦ rw b (
        find_all_from-append (ys ++ x ∷ []) xs
        ∙ append_assoc ys (x ∷ []) (for_each_when cast condition xs))
    | inr b ↦ rw b (find_all_from-append ys xs)
  ]

  size_from-length :
      (n : ℕ) (xs : List ℕ)
      → size_from cast n condition xs ≡ n + length (for_each_when cast condition xs)
  unfolding size_from for_each_when
  size_from-length n [] = omega arith
  size_from-length n (x ∷ xs) = elim (Bool-cases (cast x && condition x)) [
    | inl b ↦ rw b (omega (arith, size_from-length (n + 1) xs))
    | inr b ↦ rw b (size_from-length n xs)
  ]

  find_any_when-first :
      (xs : List ℕ) → find_any_when cast condition xs ≡ first (for_each_when cast condition xs)
  unfolding find_any_when for_each_when
  find_any_when-first [] = refl
  find_any_when-first (x ∷ xs) = ground (arith, find_any_when-first xs)

  is_exist_when-nonempty :
      (xs : List ℕ)
      → is_exist_when cast condition xs ≡ is_nonempty (for_each_when cast condition xs)
  unfolding is_exist_when for_each_when
  is_exist_when-nonempty [] = refl
  is_exist_when-nonempty (x ∷ xs) = ground (arith, is_exist_when-nonempty xs)

  -- The queries with one condition agree: `find_all_when` gives the sessions that `for_each_when` acts on, in
  -- order, `find_any_when` the first of them, `size_when` their number, and `is_exist_when` whether
  -- there is one.
  pub find_all_when-agrees :
      (xs : List ℕ)
      → let found = find_all_when cast condition xs in
        (found ≡ for_each_when cast condition xs)
        × (find_any_when cast condition xs ≡ first found)
        × (size_when cast condition xs ≡ length found)
        × (is_exist_when cast condition xs ≡ is_nonempty found)
  unfolding find_all_when size_when
  find_all_when-agrees xs =
      let e = find_all_from-append [] xs in
      (
        e,
        find_any_when-first xs ∙ ap first (sym e),
        omega (arith, size_from-length 0 xs, ap length e),
        is_exist_when-nonempty xs ∙ ap is_nonempty (sym e),
      )

  removed_none : (xs : List ℕ) → for_each_when cast condition (remove_when cast condition xs).1 ≡ []
  unfolding for_each_when remove_when
  removed_none [] = refl
  removed_none (x ∷ xs) = elim (Bool-cases (cast x && condition x)) [
    | inl b ↦ rw b (removed_none xs)
    | inr b ↦ rw (b, b) (removed_none xs)
  ]

  removed_count :
      (s : ℕ) (xs : List ℕ)
      → count_session s (remove_when cast condition xs).1
          + count_session s (for_each_when cast condition xs)
        ≡ count_session s xs
  unfolding for_each_when remove_when count_session
  removed_count s [] = omega arith
  removed_count s (x ∷ xs) = elim (Bool-cases (cast x && condition x)) [
    | inl b ↦ rw b (omega (arith, removed_count s xs))
    | inr b ↦ rw b (omega (arith, removed_count s xs))
  ]

  removed_any : (xs : List ℕ) → (remove_when cast condition xs).0 ≡ is_exist_when cast condition xs
  unfolding remove_when is_exist_when
  removed_any [] = refl
  removed_any (x ∷ xs) = elim (Bool-cases (cast x && condition x)) [
    | inl b ↦ rw b refl
    | inr b ↦ rw b (removed_any xs)
  ]

  -- `remove_when` removes just what `find_all_when` finds: nothing is found afterwards, each session is
  -- found or left as often as it was there, and the result says whether something was found.
  pub remove_when-finds :
      (xs : List ℕ)
      → let left = (remove_when cast condition xs).1 in
        (find_all_when cast condition left ≡ [])
        × ((s : ℕ)
            → count_session s left + count_session s (find_all_when cast condition xs)
              ≡ count_session s xs)
        × ((remove_when cast condition xs).0 ≡ is_exist_when cast condition xs)
  unfolding find_all_when
  remove_when-finds xs = (
    find_all_from-append [] (remove_when cast condition xs).1 ∙ removed_none xs,
    λ s. omega (arith, removed_count s xs, ap (count_session s) (find_all_from-append [] xs)),
    removed_any xs,
  )

-- Every session stands at most once in the list.
unfoldable pub Unique : List ℕ → Type 0
unfolding count_session
Unique xs = (s : ℕ) → count_session s xs ≤ 1
