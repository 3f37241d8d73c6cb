-- ===== src/Frame/Gop/Trim.antt =====
-- How far `update_gop` of src/frame/gop_queue.hh trims the cache.
use seastar_live.Prelude.{◌≡◌, ◌∙◌, [], some, Bool, true, false, arith, ◌⊎◌}
use seastar_live.Prelude.Int.{ℤ, ◌-ℤ◌}
use seastar_live.Frame.{Media, Metadata, metadata}
use seastar_live.Frame.Queue.{push_back, end_with_metadata, is_empty}
use seastar_live.Frame.Gop.{GopQueue, push_frame, may_pop, first_gop, second_gop}
use seastar_live.Frame.Gop.Safe.{latest-push_frame}

module _ {F : Type 0} (reaches : ℤ → F → Bool) where
  -- From the first media frame of the first gop to the latest one, the cache reaches the minimum.
  pub record Retains (t : GopQueue F) : Type 0 where
    pub oldest : Media
    pub newest : Media
    pub oldest_is : (first_gop t.gops t.current).first_media_frame ≡ some oldest
    pub newest_is : t.latest_media_frame ≡ some newest
    pub long : reaches (newest.dts -ℤ oldest.dts) t.min_cache_duration ≡ true

  -- What the search leaves: it went on while the second gop alone was long enough.
  abbrev pub Exhausted : GopQueue F → Type 0
  Exhausted t = (t.gops ≡ []) ⊎ (may_pop reaches t (second_gop t.gops t.current) ≡ false)

module _ {F : Type 0} where
  -- While no gop is closed, a metadata frame `b` pushed behind a current gop that is not empty, does not
  -- end with metadata and has the first metadata frame `a` does not become the latest metadata
  -- frame of the cache: that is `a` afterwards.
  push_frame_stale_metadata :
      (s : GopQueue F) (a b : Metadata)
      → s.gops ≡ []
      → end_with_metadata s.current ≡ false
      → is_empty s.current ≡ false
      → s.current.first_metadata_frame ≡ some a
      → (push_frame s (metadata b)).latest_metadata_frame ≡ some a
  unfolding push_back
  push_frame_stale_metadata s a b e w n p = latest-push_frame s (metadata b) e ∙ ground arith
