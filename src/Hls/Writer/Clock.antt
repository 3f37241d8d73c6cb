-- ===== src/Hls/Writer/Clock.antt =====
-- src/hls/m3u8.cc: write_playlist_files, which also keeps a copy of the playlist for each second of the
-- clock. boost::irange is a parameter. A call's clock reads whole seconds, and its outcome is what the
-- file system did; of a second's file, `copied` records that the call which wrote it succeeded. That
-- the copies are deleted later (`remove_file_delay`) is left out.
use seastar_live.Prelude.{
  ℕ, ◌+◌, ◌≤◌, ◌≡◌, ◌⊎◌, Bool, true, ◌&&◌, List, [], ◌∷◌, ◌++◌, leb, if◌then◌else◌,
}
use seastar_live.Prelude.Int.{ℤ, pos, negsuc, eqb_ℤ}

pub data Outcome : Type 0 where
  index_failed : Outcome
  seconds_failed : Outcome
  written : Outcome

pub record Copies : Type 0 where
  pub next_timstamp : ℤ
  pub copied : List ℤ

abbrev pub no_copies : Copies
no_copies = record { next_timstamp = negsuc 0; copied = [] }

module _ (irange : ℤ → ℤ → List ℤ) (save_timestamp : Bool) where
  -- `if (_next_timstamp == -1) _next_timstamp = current_ts;`
  unfoldable pub first_timstamp : Copies → ℕ → ℤ
  first_timstamp c now = if eqb_ℤ c.next_timstamp (negsuc 0) then pos now else c.next_timstamp

  unfoldable pub write_playlist_files : Copies → ℕ → Outcome → Copies
  unfolding first_timstamp
  write_playlist_files c now index_failed = c
  write_playlist_files c now seconds_failed =
      if save_timestamp then record c { next_timstamp = first_timstamp c now } else c
  write_playlist_files c now written =
      if save_timestamp
      then record {
        next_timstamp = pos (now + 1);
        copied = c.copied ++ irange (first_timstamp c now) (pos (now + 1));
      }
      else c

  unfoldable pub write_all : Copies → List (ℕ × Outcome) → Copies
  unfolding write_playlist_files
  write_all c [] = c
  write_all c ((now, o) ∷ cs) = write_all (write_playlist_files c now o) cs

-- The clock of the calls does not go back, from `t` on.
unfoldable pub ordered : ℕ → List (ℕ × Outcome) → Bool
ordered t [] = true
ordered t ((now, o) ∷ cs) = leb t now && ordered now cs

-- What was copied is a stretch of seconds that ends where the next one starts, by `t` at the latest.
unfoldable pub Contiguous : (ℤ → ℤ → List ℤ) → ℕ → Copies → Type 0
Contiguous irange t c =
    ((c.next_timstamp ≡ negsuc 0) × (c.copied ≡ []))
    ⊎ ((a b : ℕ) × (c.next_timstamp ≡ pos b)
        × (a ≤ b)
        × (a ≤ t)
        × (b ≤ t + 1)
        × (c.copied ≡ irange (pos a) (pos b)))
