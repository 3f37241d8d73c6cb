-- ===== src/Frame/Queue.antt =====
-- src/frame/frame_queue.hh: frame_queue_t, a vector of frames with the first and the last frame of
-- each kind, the time span and the byte count of its media frames. The four frame pointers are only ever
-- set to frames with the flag, so a field holds the media or the metadata of the frame.
pub mod Tracked
pub mod Spaced
use seastar_live.Prelude.{
  ℕ, ◌+◌, ◌%◌, ◌^◌, List, [], ◌∷◌, ◌++◌, Option, none, some, Bool, true, false, ◌&&◌, ◌||◌, not,
  if◌then◌else◌, ◌==◌, length,
}
use seastar_live.Prelude.Int.{ℤ, negsuc, eqb_ℤ}
use seastar_live.Frame.{Frame, media, metadata, blank, is_metadata, size, Media, Metadata}

-- `-1`, the int64_t for "no media frame".
abbrev pub no_dts : ℤ
no_dts = negsuc 0

pub record FrameQueue : Type 0 where
  pub queue : List Frame
  pub first_metadata_frame : Option Metadata
  pub latest_metadata_frame : Option Metadata
  pub first_media_frame : Option Media
  pub latest_media_frame : Option Media
  pub start_dts : ℤ
  pub end_dts : ℤ
  pub bytes : ℕ

-- `frame_queue_t()`, and what `clear` and a move leave behind.
abbrev pub empty_queue : FrameQueue
empty_queue = record {
  queue = [];
  first_metadata_frame = none;
  latest_metadata_frame = none;
  first_media_frame = none;
  latest_media_frame = none;
  start_dts = no_dts;
  end_dts = no_dts;
  bytes = 0;
}

abbrev pub is_some {ℓ} : {A : Type ℓ} → Option A → Bool
is_some none = false
is_some (some a) = true

abbrev pub front : List Frame → Option Frame
front [] = none
front (f ∷ fs) = some f

abbrev pub back : List Frame → Option Frame
back [] = none
back (f ∷ []) = some f
back (f ∷ g ∷ fs) = back (g ∷ fs)

-- A test of the flag `is_metadata` through a pointer that is not null.
abbrev pub flagged_metadata : Option Frame → Bool
flagged_metadata none = false
flagged_metadata (some f) = is_metadata f

abbrev pub is_empty : FrameQueue → Bool
is_empty q = length q.queue == 0

abbrev pub has_media : FrameQueue → Bool
has_media q = is_some q.first_media_frame

abbrev pub has_metadata : FrameQueue → Bool
has_metadata q = is_some q.first_metadata_frame

abbrev pub only_metadata : FrameQueue → Bool
only_metadata q = length q.queue == 1 && flagged_metadata (front q.queue)

abbrev pub start_with_metadata : FrameQueue → Bool
start_with_metadata q = flagged_metadata (front q.queue)

abbrev pub end_with_metadata : FrameQueue → Bool
end_with_metadata q = flagged_metadata (back q.queue)

-- `_queue.pop_back()`
abbrev pub drop_back : List Frame → List Frame
drop_back [] = []
drop_back (f ∷ []) = []
drop_back (f ∷ g ∷ fs) = f ∷ drop_back (g ∷ fs)

-- `_queue.erase(_queue.begin())`
abbrev pub drop_front : List Frame → List Frame
drop_front [] = []
drop_front (f ∷ fs) = fs

-- `_queue.insert(_queue.begin() + 1, frame)`, on a vector that is not empty.
abbrev pub insert_second : Frame → List Frame → List Frame
insert_second g [] = g ∷ []
insert_second g (f ∷ fs) = f ∷ g ∷ fs

unfoldable pub push_back : FrameQueue → Frame → FrameQueue
push_back q (media m) = record q {
  queue = q.queue ++ (media m ∷ []);
  first_media_frame = if is_some q.first_media_frame then q.first_media_frame else some m;
  latest_media_frame = some m;
  start_dts = if eqb_ℤ q.start_dts no_dts then m.dts else q.start_dts;
  end_dts = m.dts;
  bytes = (q.bytes + size m) % 2 ^ 64;
}
push_back q (metadata m) =
    let kept = if end_with_metadata q then drop_back q.queue else q.queue in
    record q {
      queue = kept ++ (metadata m ∷ []);
      first_metadata_frame =
          if length kept == 0 || not (is_some q.first_metadata_frame)
          then some m
          else q.first_metadata_frame;
      latest_metadata_frame = some m;
    }
push_back q blank = record q { queue = q.queue ++ (blank ∷ []) }

unfoldable pub push_front : FrameQueue → Frame → FrameQueue
push_front q (media m) = record q {
  queue = if start_with_metadata q then insert_second (media m) q.queue else media m ∷ q.queue;
  first_media_frame = some m;
  latest_media_frame = if is_some q.latest_media_frame then q.latest_media_frame else some m;
  start_dts = m.dts;
  end_dts = if eqb_ℤ q.end_dts no_dts then m.dts else q.end_dts;
  bytes = (q.bytes + size m) % 2 ^ 64;
}
push_front q (metadata m) = record q {
  queue = metadata m ∷ (if start_with_metadata q then drop_front q.queue else q.queue);
  first_metadata_frame = some m;
  latest_metadata_frame =
      if is_some q.latest_metadata_frame then q.latest_metadata_frame else some m;
}
push_front q blank = q

-- `pop_all`: the frames, and the queue that is left.
unfoldable pub pop_all : FrameQueue → List Frame × FrameQueue
pop_all q = (q.queue, empty_queue)

unfoldable pub clear : FrameQueue → FrameQueue
clear q = empty_queue
