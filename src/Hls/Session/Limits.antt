-- ===== src/Hls/Session/Limits.antt =====
-- The loop of `add_play_item` in src/session/hls/play_session.cc ends, and what it leaves is in bounds.
use seastar_live.Prelude.{
  ℕ, zero, suc, ◌+◌, ◌-◌, ◌≤◌, ◌≡◌, refl, inl, inr, Bool, true, false, List, [], ◌∷◌, ◌++◌, arith,
  Bool-cases, length,
}
use seastar_live.Prelude.Int.{ℤ, ◌+ℤ◌}
use seastar_live.Hls.Playlist.{Fragment}
use seastar_live.Hls.Session.{
  Session, on_add_playitem, on_remove_playitem, on_remove_playitems, after_first_gop, first_gop,
  remove_gop_of, remove_first_gop_play_items, out_of_gop_duration, drop_gops, after_added,
  add_play_item,
}

module _ (heap : ℕ → Fragment) where
  length-after_first_gop :
      (first : ℕ) (xs : List ℕ) → length (after_first_gop heap first xs) ≤ length xs
  unfolding after_first_gop
  length-after_first_gop first [] = omega arith
  length-after_first_gop first (x ∷ xs) = ground (arith, length-after_first_gop first xs)

  module _ (added_ok removed_ok : ℕ → Bool) where
    pub on_remove_playitems-playlist :
        (s : Session) (xs : List ℕ)
        → (on_remove_playitems heap added_ok removed_ok s xs).playlist ≡ s.playlist
    unfolding on_remove_playitems on_remove_playitem
    on_remove_playitems-playlist s [] = refl
    on_remove_playitems-playlist s (x ∷ xs) =
        on_remove_playitems-playlist (on_remove_playitem heap added_ok removed_ok s x) xs

    length-remove_gop_of :
        (s : Session) (xs : List ℕ)
        → s.playlist ≡ xs
        → length (remove_gop_of heap added_ok removed_ok s xs).playlist ≤ length s.playlist - 1
    unfolding remove_gop_of after_first_gop
    length-remove_gop_of s [] e = rw e (omega arith)
    length-remove_gop_of s (x ∷ xs) e =
        rw
          (
            e,
            on_remove_playitems-playlist (record s { playlist = after_first_gop heap x (x ∷ xs) })
                (first_gop heap x (x ∷ xs)),
          )
          (ground (arith, length-after_first_gop x xs))

    module _ {F : Type 0} (exceeds : ℤ → F → Bool) (max_fragments : ℕ) where
      -- Enough fuel: the playlist's length.
      drop_gops_ends :
          (fuel : ℕ) (s : Session) (pts : ℤ) (d : F)
          → length s.playlist ≤ fuel
          → out_of_gop_duration heap exceeds max_fragments
              (drop_gops heap added_ok removed_ok exceeds max_fragments fuel s pts d).playlist
              pts
              d
            ≡ false
      unfolding drop_gops out_of_gop_duration remove_first_gop_play_items
      drop_gops_ends zero s pts d l = ground arith
      drop_gops_ends (suc fuel) s pts d l =
          elim (Bool-cases (out_of_gop_duration heap exceeds max_fragments s.playlist pts d)) [
            | inl b ↦ rw b (
                drop_gops_ends fuel (remove_first_gop_play_items heap added_ok removed_ok s) pts d
                  (omega (arith, length-remove_gop_of s s.playlist refl)))
            | inr b ↦ rw b b
          ]

      after_added_ends :
          (ok : Bool) (s : Session) (pts : ℤ) (d : F)
          → ok ≡ true
          → out_of_gop_duration heap exceeds max_fragments
              (after_added heap added_ok removed_ok exceeds max_fragments ok s pts d).playlist
              pts
              d
            ≡ false
      unfolding after_added
      after_added_ends true s pts d e = drop_gops_ends (length s.playlist) s pts d (omega arith)
      after_added_ends false s pts d e = absurd (ground arith)

      -- The loop of `add_play_item`, where it is reached, ends: its condition to go on is false of
      -- the playlist that is left.
      pub add_play_item_ends :
          (s : Session) (item : ℕ) (d : F)
          → added_ok item ≡ true
          → out_of_gop_duration heap exceeds max_fragments
              (add_play_item heap added_ok removed_ok exceeds max_fragments s item d).playlist
              ((heap item).pts +ℤ (heap item).duration)
              d
            ≡ false
      unfolding add_play_item
      add_play_item_ends s item d ok =
          after_added_ends (added_ok item)
            (on_add_playitem heap added_ok removed_ok
              (record s { playlist = s.playlist ++ item ∷ [] }) item)
            ((heap item).pts +ℤ (heap item).duration) d ok

      -- After an item is added, and the rewrite of the playlist file did not fail, the session lists
      -- at most `max_fragments` fragments, or one if the setting is 0.
      pub length-add_play_item :
          (s : Session) (item : ℕ) (d : F)
          → added_ok item ≡ true
          → length (add_play_item heap added_ok removed_ok exceeds max_fragments s item d).playlist
            ≤ max_fragments + (1 - max_fragments)
      unfolding out_of_gop_duration
      length-add_play_item s item d ok = ground (arith, add_play_item_ends s item d ok)
