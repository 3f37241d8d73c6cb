-- ===== src/Frame/Gop.antt =====
-- src/frame/gop_queue.hh: gop_queue_t, the cache of groups of pictures that a new viewer starts from.
-- The mutex is left out: each method holds it from its first line to its return, so calls are
-- atomic. Floats are a type `F` with the two tests that the code makes on them. The methods that
-- only read floats out (duration, current_gop_duration) are not modelled.

pub mod Update
pub mod Kept
pub mod Safe
pub mod Trim
mod Tests
use seastar_live.Prelude.{
  ℕ, ◌+◌, ◌%◌, ◌^◌, List, [], ◌∷◌, ◌++◌, Option, none, some, Bool, true, false, ◌&&◌, ◌||◌, not,
  if◌then◌else◌,
}
use seastar_live.Prelude.Int.{ℤ, ◌-ℤ◌}
use seastar_live.Frame.{
  Frame, Media, Metadata, media, metadata, blank, is_media, media_type, is_enabled_type,
  media_video, media_audio, media_none, media_options,
}
use seastar_live.Frame.Queue.{
  FrameQueue, empty_queue, push_back, push_front, clear, has_media, has_metadata, is_empty,
  only_metadata, start_with_metadata,
}

pub record GopQueue (F : Type 0) : Type 0 where
  pub min_cache_duration : F
  pub first_metadata_frame : Option Metadata
  pub latest_metadata_frame : Option Metadata
  pub first_media_frame : Option Media
  pub latest_media_frame : Option Media
  pub current : FrameQueue
  pub gops : List FrameQueue

-- `static frame_queue_t empty` where no gop has media.
abbrev pub first_media_gop : List FrameQueue → FrameQueue → FrameQueue
first_media_gop [] current = current
first_media_gop (g ∷ gs) current = if has_media g then g else first_media_gop gs current

abbrev pub first_gop : List FrameQueue → FrameQueue → FrameQueue
first_gop [] current = current
first_gop (g ∷ gs) current = g

abbrev pub second_gop : List FrameQueue → FrameQueue → FrameQueue
second_gop [] current = empty_queue
second_gop (g ∷ []) current = current
second_gop (g ∷ h ∷ gs) current = h

-- The frames of all gops, then those of the current one.
abbrev pub frames_of : List FrameQueue → FrameQueue → List Frame
frames_of [] current = current.queue
frames_of (g ∷ gs) current = g.queue ++ frames_of gs current

abbrev pub bytes_of : List FrameQueue → FrameQueue → ℕ
bytes_of [] current = current.bytes
bytes_of (g ∷ gs) current = (g.bytes + bytes_of gs current) % 2 ^ 64

-- The two searches of `on_pop_gop`, which fall back to the current gop.
abbrev pub first_media_of : List FrameQueue → FrameQueue → Option Media
first_media_of [] current = current.first_media_frame
first_media_of (g ∷ gs) current =
    if has_media g then g.first_media_frame else first_media_of gs current

abbrev pub first_metadata_of : List FrameQueue → FrameQueue → Option Metadata
first_metadata_of [] current = current.first_metadata_frame
first_metadata_of (g ∷ gs) current =
    if has_metadata g then g.first_metadata_frame else first_metadata_of gs current

-- `if (!nfg.start_with_metadata()) nfg.push_front(flmf)`
unfoldable pub lead_with : FrameQueue → Metadata → FrameQueue
lead_with g m = if start_with_metadata g then g else push_front g (metadata m)

module _ {F : Type 0} where
  unfoldable pub all_frames : GopQueue F → List Frame
  all_frames s = frames_of s.gops s.current

  unfoldable pub total_bytes : GopQueue F → ℕ
  total_bytes s = bytes_of s.gops s.current

  unfoldable pub allow_media_type : GopQueue F → ℕ → Bool
  allow_media_type s type = elim s.latest_metadata_frame [
    | none ↦ false
    | some lmf ↦ is_enabled_type lmf type
  ]

  unfoldable pub cached_media_options : GopQueue F → ℕ
  cached_media_options s = elim s.latest_metadata_frame [
    | none ↦ media_none
    | some lmf ↦ media_options lmf
  ]

  unfoldable pub set_min_cache_duration : GopQueue F → F → GopQueue F
  set_min_cache_duration s d = record s { min_cache_duration = d }

  unfoldable pub clear_gops : GopQueue F → GopQueue F
  unfolding clear
  clear_gops s = record s {
    first_metadata_frame = none;
    latest_metadata_frame = none;
    first_media_frame = none;
    latest_media_frame = none;
    current = clear s.current;
    gops = [];
  }

  -- The part of `validate_frame` for a media frame.
  unfoldable pub validate_media : GopQueue F → Media → Bool
  validate_media s m =
      if not (allow_media_type s (media_type m))
      then false
      else if not m.is_video
      then allow_media_type s media_audio
      else if m.is_keyframe
      then true
      else if is_empty s.current
      then true
      else elim s.current.first_media_frame [ none ↦ false | some lf ↦ lf.is_keyframe ]

  -- `none` is a read through the null `media` pointer of a frame with neither flag.
  unfoldable pub validate_frame : GopQueue F → Frame → Option Bool
  validate_frame s (media m) = some (validate_media s m)
  validate_frame s (metadata m) = some true
  validate_frame s blank = none

  -- `on_frame`, run with the frame already in the current gop.
  unfoldable pub on_frame : GopQueue F → Frame → GopQueue F
  on_frame s f = elim s.gops [
    | [] ↦ record s {
      first_metadata_frame = s.current.first_metadata_frame;
      latest_metadata_frame = s.current.first_metadata_frame;
      first_media_frame = s.current.first_media_frame;
      latest_media_frame = s.current.latest_media_frame;
    }
    | g ∷ gs ↦ elim f [
      | metadata m ↦ record s {
        first_metadata_frame = elim s.first_metadata_frame [ none ↦ some m | some fm ↦ some fm ];
        latest_metadata_frame = some m;
      }
      | media m ↦ record s {
        first_media_frame = elim s.first_media_frame [ none ↦ some m | some fm ↦ some fm ];
        latest_media_frame = some m;
      }
      | blank ↦ s
    ]
  ]

  unfoldable pub push_frame : GopQueue F → Frame → GopQueue F
  push_frame s f = on_frame (record s { current = push_back s.current f }) f

  unfoldable pub on_pop_gop : GopQueue F → GopQueue F
  on_pop_gop s = record s {
    first_media_frame = first_media_of s.gops s.current;
    first_metadata_frame = first_metadata_of s.gops s.current;
  }

  unfoldable pub require_new_gop : GopQueue F → Frame → Bool
  require_new_gop s (media m) =
      let audio_only = allow_media_type s media_audio && not (allow_media_type s media_video) in
      (m.is_video && m.is_keyframe) || (not m.is_video && audio_only)
  require_new_gop s (metadata m) = false
  require_new_gop s blank = false

  -- `_gops.push_back(std::move(_current))`, if a new gop is due.
  unfoldable pub close_gop : GopQueue F → Frame → GopQueue F
  close_gop s f =
      if require_new_gop s f && has_media s.current
      then record s { gops = s.gops ++ (s.current ∷ []); current = empty_queue }
      else s

-- `reaches t d` is `!(t < d * 1000)` for a time offset `t` and a duration `d` in seconds.
module _ {F : Type 0} (reaches : ℤ → F → Bool) where
  -- The tests of `update_gop` on the second gop: whether the first one may go.
  unfoldable pub may_pop : GopQueue F → FrameQueue → Bool
  may_pop s sg = if is_empty sg then false else elim sg.first_media_frame [
    | none ↦ false
    | some sf ↦ elim s.latest_media_frame [
      | none ↦ false
      | some lf ↦ reaches (lf.dts -ℤ sf.dts) s.min_cache_duration
    ]
  ]

  -- `update_gop` with the first gop `g` and those behind it; `none` is the failed assertion on
  -- `flmf`. The recursion is the code's own call at its end.
  unfoldable pub update_from : GopQueue F → FrameQueue → List FrameQueue → Option (GopQueue F)
  update_from s g [] = elim (may_pop s s.current) [
    | false ↦ some (record s { gops = g ∷ [] })
    | true ↦ elim g.latest_metadata_frame [
      | none ↦ none
      | some flmf ↦ some (on_pop_gop (record s { gops = []; current = lead_with s.current flmf }))
    ]
  ]
  update_from s g (h ∷ hs) = elim (may_pop s h) [
    | false ↦ some (record s { gops = g ∷ h ∷ hs })
    | true ↦ elim g.latest_metadata_frame [
      | none ↦ none
      | some flmf ↦
          update_from (on_pop_gop (record s { gops = lead_with h flmf ∷ hs })) (lead_with h flmf) hs
    ]
  ]

  unfoldable pub update_gop : GopQueue F → Option (GopQueue F)
  update_gop s = elim s.gops [ [] ↦ some s | g ∷ gs ↦ update_from s g gs ]

-- `is_positive d` is `d > 0`.
module _ {F : Type 0} (is_positive : F → Bool) (reaches : ℤ → F → Bool) where
  -- The body of `add_frame` for a frame that is valid.
  unfoldable pub add_valid : GopQueue F → Frame → Option (GopQueue F)
  add_valid s f =
      if only_metadata s.current
      then some (push_frame s f)
      else if is_media f && is_positive s.min_cache_duration
      then update_gop reaches (push_frame (close_gop s f) f)
      else some (push_frame (close_gop s f) f)

  -- `add_frame`: the result and the cache afterwards.
  unfoldable pub add_frame : GopQueue F → Frame → Option (Bool × GopQueue F)
  add_frame s f = elim (validate_frame s f) [
    | none ↦ none
    | some false ↦ some (false, s)
    | some true ↦ elim (add_valid s f) [ none ↦ none | some s' ↦ some (true, s') ]
  ]
