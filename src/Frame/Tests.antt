-- ===== src/Frame/Tests.antt =====
-- The frame queue of src/frame/frame_queue.hh at concrete frames.
use seastar_live.Prelude.{◌≡◌, refl, [], ◌∷◌, some, true, false}
use seastar_live.Prelude.Int.{pos}
use seastar_live.Frame.{Media, Metadata, media, metadata}
use seastar_live.Frame.Queue.{FrameQueue, empty_queue, push_back, push_front}
use seastar_live.Frame.Queue.Tracked.{Tracked, push_back-Tracked, push_front-Tracked}
use seastar_live.Frame.Queue.Spaced.{Settled, push_back-Settled}

abbrev picture : Media
picture = record { is_video = true; is_keyframe = true; dts = pos 40; payload = 1 ∷ 2 ∷ 3 ∷ [] }

abbrev with_video : Metadata
with_video = record {
  video = record { codecid = pos 7; valid = true };
  audio = record { codecid = pos 0; valid = false };
}

abbrev with_audio : Metadata
with_audio = record {
  video = record { codecid = pos 0; valid = false };
  audio = record { codecid = pos 10; valid = true };
}

-- A queue of one picture.
abbrev one : FrameQueue
one = record empty_queue {
  queue = media picture ∷ [];
  first_media_frame = some picture;
  latest_media_frame = some picture;
  start_dts = pos 40;
  end_dts = pos 40;
  bytes = 3;
}

-- The picture, and metadata behind it.
abbrev two : FrameQueue
two = record one {
  queue = media picture ∷ metadata with_video ∷ [];
  first_metadata_frame = some with_video;
  latest_metadata_frame = some with_video;
}

one-Tracked : Tracked one
one-Tracked = record {
  dated = (refl, tt);
  first_is = refl;
  latest_is = refl;
  start_is = refl;
  end_is = refl;
  bytes_is = refl;
}

push_back-Tracked_example : Tracked (push_back one (media picture))
push_back-Tracked_example = push_back-Tracked one (media picture) refl one-Tracked

push_front-Tracked_example : Tracked (push_front one (media picture))
push_front-Tracked_example = push_front-Tracked one (media picture) refl one-Tracked

two_is_pushed : push_back one (metadata with_video) ≡ two
unfolding push_back
two_is_pushed = refl

two-Settled : Settled two
two-Settled = record { spaced = ((λ h. cc), ((λ h. refl), tt)); latest_is = refl }

push_back-Settled_example : Settled (push_back two (metadata with_audio))
push_back-Settled_example = push_back-Settled two (metadata with_audio) two-Settled
