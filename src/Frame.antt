-- ===== src/Frame.antt =====
-- src/frame/frame_base.hh, media_base.hh, metadata_base.hh and the media types of
-- src/util/enums.hh: what the frame and GOP queues read of a frame.
-- A frame pointer is the frame that it points to, and `nullptr` is `none`: the queues never write
-- through the pointer. The double fields bitrate and datarate are left out: no queue reads them.
pub mod Queue
pub mod Gop
mod Tests
use Prim.Native.Nat.{bit_and, bit_or}
use seastar_live.Prelude.{ℕ, List, Bool, true, false, ◌&&◌, ◌||◌, not, ◌==◌, if◌then◌else◌, length}
use seastar_live.Prelude.Int.{ℤ, pos, ltb_ℤ}

-- `media_type_t`: an unsigned int of flags.
abbrev pub media_none : ℕ
media_none = 0

abbrev pub media_video : ℕ
media_video = 1

abbrev pub media_audio : ℕ
media_audio = 4

-- `media_base`: `payload` is `_data`, and `dts` the int64_t that `dts()` returns.
pub record Media : Type 0 where
  pub is_video : Bool
  pub is_keyframe : Bool
  pub dts : ℤ
  pub payload : List ℕ

abbrev pub media_type : Media → ℕ
media_type m = if m.is_video then media_video else media_audio

abbrev pub size : Media → ℕ
size m = length m.payload

-- `meta_base`
pub record Meta : Type 0 where
  pub codecid : ℤ
  pub valid : Bool

abbrev pub is_enabled : Meta → Bool
is_enabled m = not (ltb_ℤ m.codecid (pos 0)) && m.valid

-- `metadata_base`
pub record Metadata : Type 0 where
  pub video : Meta
  pub audio : Meta

-- `is_enabled(type)`: every requested kind is enabled.
unfoldable pub is_enabled_type : Metadata → ℕ → Bool
is_enabled_type m type =
    not (not (bit_and type media_video == media_none) && not (is_enabled m.video))
    && not (not (bit_and type media_audio == media_none) && not (is_enabled m.audio))

pub media_options : Metadata → ℕ
media_options m =
    let options = if is_enabled m.video then bit_or media_none media_video else media_none in
    if is_enabled m.audio then bit_or options media_audio else options

-- `frame_base`: `blank` is the default constructor, with neither flag set.
pub data Frame : Type 0 where
  media : Media → Frame
  metadata : Metadata → Frame
  blank : Frame

abbrev pub is_media : Frame → Bool
is_media (media m) = true
is_media (metadata m) = false
is_media blank = false

abbrev pub is_metadata : Frame → Bool
is_metadata (media m) = false
is_metadata (metadata m) = true
is_metadata blank = false
