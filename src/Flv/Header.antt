-- ===== src/Flv/Header.antt =====
-- 3rd/libflv/source/flv-header.c, with the structs of flv-header.h and the numbers of flv-proto.h.
-- `buf` with its `len` is the list of the bytes; `none` is a negative result. A reader gives the
-- struct and the count, a writer the bytes that it writes and the count.
pub mod RoundTrip
use Prim.Native.Nat.{bit_or}
use seastar_live.Prelude.{
  ℕ, ◌+◌, ◌-◌, ◌*◌, ◌/◌, ◌%◌, ◌^◌, List, [], ◌∷◌, ◌++◌, Option, none, some, Bool, true, false, ◌&&◌,
  ◌||◌, not, ltb, leb, ◌==◌, if◌then◌else◌, length,
}
use seastar_live.Prelude.Bytes.{be_read_uint32, be_write_uint32, ◌>>=◌}

abbrev pub flv_type_audio : ℕ
flv_type_audio = 8

abbrev pub flv_type_video : ℕ
flv_type_video = 9

abbrev pub flv_type_script : ℕ
flv_type_script = 18

abbrev pub flv_audio_aac : ℕ
flv_audio_aac = 160

abbrev pub flv_audio_opus : ℕ
flv_audio_opus = 208

abbrev pub flv_video_h264 : ℕ
flv_video_h264 = 7

abbrev pub flv_video_h265 : ℕ
flv_video_h265 = 12

abbrev pub flv_video_av1 : ℕ
flv_video_av1 = 13

abbrev pub flv_sequence_header : ℕ
flv_sequence_header = 0

abbrev pub flv_avpacket : ℕ
flv_avpacket = 1

abbrev pub flv_end_of_sequence : ℕ
flv_end_of_sequence = 2

pub record FlvHeader : Type 0 where
  pub version : ℕ
  pub audio : ℕ
  pub video : ℕ
  pub offset : ℕ

pub record TagHeader : Type 0 where
  pub filter : ℕ
  pub type : ℕ
  pub size : ℕ
  pub timestamp : ℕ
  pub stream_id : ℕ

pub record AudioTagHeader : Type 0 where
  pub codecid : ℕ
  pub rate : ℕ
  pub bits : ℕ
  pub channels : ℕ
  pub avpacket : ℕ

-- `cts` is the bit pattern of the int32_t.
pub record VideoTagHeader : Type 0 where
  pub codecid : ℕ
  pub keyframe : ℕ
  pub avpacket : ℕ
  pub cts : ℕ

unfoldable pub header_read : List ℕ → Option (FlvHeader × ℕ)
header_read (f ∷ l ∷ v ∷ version ∷ flags ∷ o1 ∷ o2 ∷ o3 ∷ o4 ∷ _) =
    if not (f == b'F') || (not (l == b'L') || not (v == b'V'))
    then none
    else some (
      record {
        version = version;
        audio = flags / 2 ^ 2 % 2;
        video = flags % 2;
        offset = o1 * 2 ^ 24 + o2 * 2 ^ 16 + o3 * 2 ^ 8 + o4;
      },
      9,
    )
header_read _ = none

-- `len` is the room in `buf`.
unfoldable pub header_write : Bool → Bool → ℕ → Option (List ℕ × ℕ)
unfolding be_write_uint32
header_write audio video len =
    if ltb len 9
    then none
    else some (
      b'F'
          ∷ b'L'
          ∷ b'V'
          ∷ 1
          ∷ ((if audio then 1 else 0) * 2 ^ 2 + (if video then 1 else 0))
          ∷ be_write_uint32 9,
      9,
    )

abbrev pub is_tag_type : ℕ → Bool
is_tag_type t = flv_type_video == t || (flv_type_audio == t || flv_type_script == t)

unfoldable pub tag_header_read : List ℕ → Option (TagHeader × ℕ)
tag_header_read (t ∷ s1 ∷ s2 ∷ s3 ∷ t1 ∷ t2 ∷ t3 ∷ t4 ∷ i1 ∷ i2 ∷ i3 ∷ _) =
    if not (is_tag_type (t % 32))
    then none
    else some (
      record {
        type = t % 32;
        filter = t / 2 ^ 5 % 2;
        size = s1 * 2 ^ 16 + s2 * 2 ^ 8 + s3;
        timestamp = t1 * 2 ^ 16 + t2 * 2 ^ 8 + t3 + t4 * 2 ^ 24;
        stream_id = i1 * 2 ^ 16 + i2 * 2 ^ 8 + i3;
      },
      11,
    )
tag_header_read _ = none

-- The bytes that `flv_tag_header_write` puts into `buf`.
abbrev pub tag_bytes : TagHeader → List ℕ
tag_bytes tag =
    (tag.type % 32 + tag.filter % 2 * 2 ^ 5)
    ∷ (tag.size / 2 ^ 16 % 256)
    ∷ (tag.size / 2 ^ 8 % 256)
    ∷ (tag.size % 256)
    ∷ (tag.timestamp / 2 ^ 16 % 256)
    ∷ (tag.timestamp / 2 ^ 8 % 256)
    ∷ (tag.timestamp % 256)
    ∷ (tag.timestamp / 2 ^ 24 % 256)
    ∷ (tag.stream_id / 2 ^ 16 % 256)
    ∷ (tag.stream_id / 2 ^ 8 % 256)
    ∷ (tag.stream_id % 256)
    ∷ []

unfoldable pub tag_header_write : TagHeader → ℕ → Option (List ℕ × ℕ)
tag_header_write tag len =
    if ltb len 11
    then none
    else if not (is_tag_type tag.type)
    then none
    else some (tag_bytes tag, 11)

abbrev pub has_aac_packet : ℕ → Bool
has_aac_packet codecid = flv_audio_aac == codecid || flv_audio_opus == codecid

-- The fields from the first byte. `old`, below, is the `avpacket` that `*audio` had before: a codec
-- with no packet type keeps it.
abbrev pub audio_fields : ℕ → ℕ → AudioTagHeader
audio_fields b packet = record {
  codecid = b / 16 * 16;
  rate = b / 2 ^ 2 % 4;
  bits = b / 2 % 2;
  channels = b % 2;
  avpacket = packet;
}

abbrev pub is_aac_packet : ℕ → Bool
is_aac_packet p = flv_sequence_header == p || flv_avpacket == p

unfoldable pub audio_tag_header_read : ℕ → List ℕ → Option (AudioTagHeader × ℕ)
audio_tag_header_read old [] = none
audio_tag_header_read old (b ∷ []) =
    if has_aac_packet (b / 16 * 16) then none else some (audio_fields b old, 1)
audio_tag_header_read old (b ∷ p ∷ _) =
    if has_aac_packet (b / 16 * 16)
    then (if is_aac_packet p then some (audio_fields b p, 2) else none)
    else some (audio_fields b old, 1)

-- The bytes that `flv_audio_tag_header_write` puts into `buf`, and their number.
abbrev pub audio_bytes : AudioTagHeader → List ℕ × ℕ
audio_bytes audio =
    if has_aac_packet audio.codecid then ((audio.codecid + 15) ∷ audio.avpacket ∷ [], 2) else (
      bit_or audio.codecid (audio.rate % 4 * 2 ^ 2 + audio.bits % 2 * 2 + audio.channels % 2) ∷ [],
      1,
    )

unfoldable pub audio_tag_header_write : AudioTagHeader → ℕ → Option (List ℕ × ℕ)
audio_tag_header_write audio len =
    if ltb len (1 + (if has_aac_packet audio.codecid then 1 else 0))
    then none
    else if has_aac_packet audio.codecid && not (is_aac_packet audio.avpacket)
    then none
    else some (audio_bytes audio)

abbrev pub has_avc_packet : ℕ → Bool
has_avc_packet codecid =
    flv_video_h264 == codecid || (flv_video_h265 == codecid || flv_video_av1 == codecid)

abbrev pub is_avc_packet : ℕ → Bool
is_avc_packet p = flv_sequence_header == p || (flv_avpacket == p || flv_end_of_sequence == p)

-- `(cts + 0xFF800000) ^ 0xFF800000`, modulo 2^32: a 24-bit number with its sign extended.
unfoldable pub sign_extend24 : ℕ → ℕ
sign_extend24 v = if ltb v (2 ^ 23) then v else v + (2 ^ 32 - 2 ^ 24)

-- `old` is what `*video` was: a codec with no packet type keeps its `avpacket` and `cts`.
unfoldable pub video_tag_header_read : VideoTagHeader → List ℕ → Option (VideoTagHeader × ℕ)
unfolding sign_extend24
video_tag_header_read old [] = none
video_tag_header_read old (b ∷ p ∷ c1 ∷ c2 ∷ c3 ∷ _) =
    if has_avc_packet (b % 16)
    then (if is_avc_packet p
        then some (
          record {
            codecid = b % 16;
            keyframe = b / 16;
            avpacket = p;
            cts = sign_extend24 (c1 * 2 ^ 16 + c2 * 2 ^ 8 + c3);
          },
          5,
        )
        else none)
    else some (record old { codecid = b % 16; keyframe = b / 16 }, 1)
video_tag_header_read old (b ∷ _) =
    if has_avc_packet (b % 16)
    then none
    else some (record old { codecid = b % 16; keyframe = b / 16 }, 1)

-- The bytes that `flv_video_tag_header_write` puts into `buf`, and their number.
abbrev pub video_bytes : VideoTagHeader → List ℕ × ℕ
video_bytes video =
    if has_avc_packet video.codecid
    then (
      (video.keyframe * 16 % 256 + video.codecid % 16)
          ∷ video.avpacket
          ∷ (video.cts / 2 ^ 16 % 256)
          ∷ (video.cts / 2 ^ 8 % 256)
          ∷ (video.cts % 256)
          ∷ [],
      5,
    )
    else ((video.keyframe * 16 % 256 + video.codecid % 16) ∷ [], 1)

unfoldable pub video_tag_header_write : VideoTagHeader → ℕ → Option (List ℕ × ℕ)
video_tag_header_write video len =
    if ltb len 1
    then none
    else if has_avc_packet video.codecid && (not (is_avc_packet video.avpacket) || ltb len 5)
    then none
    else some (video_bytes video)

-- `flv_data_tag_header_read` takes the whole buffer for the header.
unfoldable pub data_tag_header_read : List ℕ → ℕ
data_tag_header_read buf = length buf

unfoldable pub tag_size_read : List ℕ → Option (ℕ × ℕ)
tag_size_read buf = be_read_uint32 buf >>= λ size. some (size, 4)

unfoldable pub tag_size_write : ℕ → ℕ → Option (List ℕ × ℕ)
tag_size_write len size = if ltb len 4 then none else some (be_write_uint32 size, 4)
