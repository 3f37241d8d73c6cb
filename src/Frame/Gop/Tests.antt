-- ===== src/Frame/Gop/Tests.antt =====
-- The GOP cache of src/frame/gop_queue.hh at concrete frames, with durations in whole seconds.
use seastar_live.Prelude.{
  ℕ, ◌*◌, ◌≡◌, refl, List, [], ◌∷◌, Option, none, some, Bool, true, false, not, ◌==◌,
}
use seastar_live.Prelude.Int.{ℤ, pos, ltb_ℤ, ◌-ℤ◌}
use seastar_live.Frame.{Media, Metadata, media, metadata, is_enabled_type}
use seastar_live.Frame.Queue.{FrameQueue, empty_queue, push_back, push_front}
use seastar_live.Frame.Gop.{
  GopQueue, add_frame, add_valid, close_gop, push_frame, on_frame, validate_frame, validate_media,
  allow_media_type, require_new_gop, update_gop, update_from, may_pop, on_pop_gop, lead_with,
}
use seastar_live.Frame.Gop.Kept.{Keeps, add_frame-Keeps}
use seastar_live.Frame.Gop.Safe.{Safe, add_frame-Safe}

abbrev positive : ℕ → Bool
positive d = not (d == 0)

abbrev long_enough : ℤ → ℕ → Bool
long_enough t d = not (ltb_ℤ t (pos (d * 1000)))

abbrev keyframe : ℕ → Media
keyframe t = record { is_video = true; is_keyframe = true; dts = pos t; payload = 7 ∷ t ∷ [] }

abbrev both : Metadata
both = record {
  video = record { codecid = pos 7; valid = true };
  audio = record { codecid = pos 10; valid = true };
}

abbrev video_only : Metadata
video_only = record {
  video = record { codecid = pos 7; valid = true };
  audio = record { codecid = pos 0; valid = false };
}

-- A gop of a metadata frame and a keyframe.
abbrev gop_at : ℕ → FrameQueue
unfolding push_back
gop_at t = push_back (push_back empty_queue (metadata both)) (media (keyframe t))

-- A cache with that gop as the current one.
abbrev cache : GopQueue ℕ
cache = record {
  min_cache_duration = 1;
  first_metadata_frame = some both;
  latest_metadata_frame = some both;
  first_media_frame = some (keyframe 0);
  latest_media_frame = some (keyframe 0);
  current = gop_at 0;
  gops = [];
}

abbrev result_of : Option (Bool × GopQueue ℕ) → GopQueue ℕ
result_of none = cache
result_of (some (b, s)) = s

abbrev after : GopQueue ℕ
after = result_of (add_frame positive long_enough cache (media (keyframe 2000)))

cache-Safe : Safe cache
unfolding gop_at push_back
cache-Safe = record {
  held = λ h. refl;
  gops_paired = tt;
  current_paired = record { leading = λ h. refl; known = λ h. refl };
}

add_frame-Keeps_example :
    (old : List Media) × (rest : List Media) × Keeps cache (keyframe 2000) old rest after
unfolding add_frame add_valid close_gop push_frame on_frame validate_frame validate_media
    allow_media_type require_new_gop update_gop update_from may_pop on_pop_gop lead_with push_back
    push_front is_enabled_type gop_at ◌-ℤ◌
add_frame-Keeps_example = add_frame-Keeps positive long_enough cache (keyframe 2000) refl

add_frame-Safe_example :
    (ok : Bool) × (t : GopQueue ℕ) × (add_frame positive long_enough cache (media (keyframe 2000))
      ≡ some (ok, t))
    × Safe t
add_frame-Safe_example =
    add_frame-Safe positive long_enough cache (media (keyframe 2000)) (λ e. cc) cache-Safe

-- Three gops, of which the first is long past.
abbrev long_cache : GopQueue ℕ
long_cache = record {
  min_cache_duration = 1;
  first_metadata_frame = some both;
  latest_metadata_frame = some both;
  first_media_frame = some (keyframe 0);
  latest_media_frame = some (keyframe 9000);
  current = gop_at 9000;
  gops = gop_at 0 ∷ gop_at 3000 ∷ [];
}

abbrev long_after : GopQueue ℕ
long_after = record long_cache { gops = gop_at 3000 ∷ []; first_media_frame = some (keyframe 3000) }
