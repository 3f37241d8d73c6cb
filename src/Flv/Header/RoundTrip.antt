-- ===== src/Flv/Header/RoundTrip.antt =====
-- What the readers of 3rd/libflv/source/flv-header.c make of what its writers wrote.
use Prim.Native.Nat.{bit_or}
use seastar_live.Prelude.{
  ℕ, zero, suc, ◌+◌, ◌-◌, ◌*◌, ◌%◌, ◌^◌, ◌≤◌, ◌<◌, ◌≡◌, refl, List, [], ◌∷◌, ◌++◌, some, Bool, true,
  false, ◌⊎◌, arith, length, ◌==◌, ==_iff, if◌then◌else◌,
}
use seastar_live.Prelude.Bytes.{IsU24, IsU32, be_write_uint32}
use seastar_live.Flv.Header.{
  tag_bytes, audio_bytes, video_bytes, TagHeader, AudioTagHeader, VideoTagHeader, header_read,
  header_write, tag_header_read, tag_header_write, audio_tag_header_read, audio_tag_header_write,
  video_tag_header_read, video_tag_header_write, is_tag_type, has_aac_packet, has_avc_packet,
  is_aac_packet, is_avc_packet,
}

-- The file header: the flags come back, and the data starts right behind it.
pub header_read-header_write :
    (a v : Bool) (len : ℕ) (rest : List ℕ)
    → 9 ≤ len
    → (bytes : List ℕ) × (header_write a v len ≡ some (bytes, 9))
      × (length bytes ≡ 9)
      × (header_read (bytes ++ rest)
          ≡ some (
            record {
              version = 1;
              audio = if a then 1 else 0;
              video = if v then 1 else 0;
              offset = 9;
            },
            9,
          ))
unfolding header_write header_read be_write_uint32
header_read-header_write a v len rest h = (
  b'F'
      ∷ b'L'
      ∷ b'V'
      ∷ 1
      ∷ ((if a then 1 else 0) * 2 ^ 2 + (if v then 1 else 0))
      ∷ be_write_uint32 9,
  ground arith,
  refl,
  ground arith,
)

-- A tag header with fields of the widths that the format has, and one of the three types.
pub record IsTag (t : TagHeader) : Type 0 where
  pub type_ok : is_tag_type t.type ≡ true
  pub filter_ok : t.filter < 2
  pub size_ok : IsU24 t.size
  pub timestamp_ok : IsU32 t.timestamp
  pub stream_id_ok : IsU24 t.stream_id

tag_written :
    (t : TagHeader) (len : ℕ) → IsTag t → 11 ≤ len → tag_header_write t len ≡ some (tag_bytes t, 11)
unfolding tag_header_write
tag_written t len v h = ground arith

tag_read :
    (t : TagHeader) (rest : List ℕ) → IsTag t → tag_header_read (tag_bytes t ++ rest) ≡ some (t, 11)
unfolding tag_header_read
tag_read t rest v = ground arith

-- A tag header is written whenever there is room for its 11 bytes, and reads back the same.
pub tag_header_read-tag_header_write :
    (t : TagHeader) (len : ℕ) (rest : List ℕ)
    → IsTag t
    → 11 ≤ len
    → (tag_header_write t len ≡ some (tag_bytes t, 11))
      × (length (tag_bytes t) ≡ 11)
      × (tag_header_read (tag_bytes t ++ rest) ≡ some (t, 11))
unfolding tag_header_read tag_header_write
tag_header_read-tag_header_write t len rest v h = (tag_written t len v h, refl, tag_read t rest v)

-- `bit_or` of a codec in the high four bits and fields in the low four is their sum: the grid of all
-- 16 times 16 cases.
joins : ℕ → ℕ → Bool
joins codec low = bit_or (codec * 16) low == codec * 16 + low

row : ℕ → ℕ → Bool
row codec zero = true
row codec (suc low) = if joins codec low then row codec low else false

grid : ℕ → Bool
grid zero = true
grid (suc codec) = if row codec 16 then grid codec else false

joins-row : (codec n low : ℕ) → row codec n ≡ true → low < n → joins codec low ≡ true
unfolding row
joins-row codec zero low h l = absurd (omega arith)
joins-row codec (suc n) low h l = ground (arith, joins-row codec n low)

row-grid : (n codec : ℕ) → grid n ≡ true → codec < n → row codec 16 ≡ true
unfolding grid
row-grid zero codec h l = absurd (omega arith)
row-grid (suc n) codec h l = ground (arith, row-grid n codec)

whole_grid : grid 16 ≡ true
unfolding grid row joins
whole_grid = refl

bit_or_parts : (k l : ℕ) → k < 16 → l < 16 → bit_or (k * 16) l ≡ k * 16 + l
unfolding joins
bit_or_parts k l hk hl =
    (==_iff _ (k * 16 + l)).0 (joins-row k 16 l (row-grid 16 k whole_grid hk) hl)

-- An audio tag header as the writer leaves it: an AAC or Opus one is always 44 kHz, 16 bits, stereo.
pub record IsAudioTag (a : AudioTagHeader) : Type 0 where
  pub codec : ℕ
  pub codec_ok : codec < 16
  pub codecid_is : a.codecid ≡ codec * 16
  pub rate_ok : a.rate < 4
  pub bits_ok : a.bits < 2
  pub channels_ok : a.channels < 2
  pub packet_ok :
      has_aac_packet a.codecid ≡ true
      → (is_aac_packet a.avpacket ≡ true) × (a.rate ≡ 3) × (a.bits ≡ 1) × (a.channels ≡ 1)

audio_written :
    (a : AudioTagHeader) (len : ℕ)
    → IsAudioTag a
    → 2 ≤ len
    → audio_tag_header_write a len ≡ some (audio_bytes a)
unfolding audio_tag_header_write
audio_written a len v h = ground arith

joined :
    (a : AudioTagHeader)
    → IsAudioTag a
    → let low = a.rate % 4 * 2 ^ 2 + a.bits % 2 * 2 + a.channels % 2 in
      bit_or a.codecid low ≡ a.codecid + low
joined a v = rw v.codecid_is (
    bit_or_parts v.codec (a.rate % 4 * 2 ^ 2 + a.bits % 2 * 2 + a.channels % 2) v.codec_ok
      (omega arith))

audio_read :
    (a : AudioTagHeader) (old : ℕ) (rest : List ℕ)
    → IsAudioTag a
    → audio_tag_header_read old ((audio_bytes a).0 ++ rest)
      ≡ some
          ((if has_aac_packet a.codecid then a else record a { avpacket = old }), (audio_bytes a).1)
unfolding audio_tag_header_read
audio_read a old [] v = ground (arith, joined a v)
audio_read a old (r ∷ rest) v = ground (arith, joined a v)

-- A video tag header with fields of the widths that the format has.
pub record IsVideoTag (v : VideoTagHeader) : Type 0 where
  pub codecid_ok : v.codecid < 16
  pub keyframe_ok : v.keyframe < 16
  pub packet_ok : has_avc_packet v.codecid ≡ true → is_avc_packet v.avpacket ≡ true
  pub cts_ok : (v.cts < 2 ^ 23) ⊎ ((2 ^ 32 - 2 ^ 23 ≤ v.cts) × (v.cts < 2 ^ 32))

video_written :
    (v : VideoTagHeader) (len : ℕ)
    → IsVideoTag v
    → 5 ≤ len
    → video_tag_header_write v len ≡ some (video_bytes v)
unfolding video_tag_header_write
video_written v len i h = ground arith

video_read :
    (v old : VideoTagHeader) (rest : List ℕ)
    → IsVideoTag v
    → video_tag_header_read old ((video_bytes v).0 ++ rest)
      ≡ some (
        (if has_avc_packet v.codecid
            then v
            else record old { codecid = v.codecid; keyframe = v.keyframe }),
        (video_bytes v).1,
      )
unfolding video_tag_header_read
video_read v old rest i = ground arith

-- An audio tag header reads back as it was written, but for the packet type of a codec that has
-- none: that keeps the value it had in `*audio`.
pub audio_tag_header_read-audio_tag_header_write :
    (a : AudioTagHeader) (len old : ℕ) (rest : List ℕ)
    → IsAudioTag a
    → 2 ≤ len
    → let (bytes, n) = audio_bytes a in
      (audio_tag_header_write a len ≡ some (bytes, n))
      × (length bytes ≡ n)
      × (audio_tag_header_read old (bytes ++ rest)
          ≡ some ((if has_aac_packet a.codecid then a else record a { avpacket = old }), n))
audio_tag_header_read-audio_tag_header_write a len old rest v h =
    (audio_written a len v h, ground arith, audio_read a old rest v)

-- A video tag header reads back as it was written, its composition time with the sign; a codec with
-- no packet type leaves the packet type and the composition time of `*video` as they were.
pub video_tag_header_read-video_tag_header_write :
    (v old : VideoTagHeader) (len : ℕ) (rest : List ℕ)
    → IsVideoTag v
    → 5 ≤ len
    → let (bytes, n) = video_bytes v in
      (video_tag_header_write v len ≡ some (bytes, n))
      × (length bytes ≡ n)
      × (video_tag_header_read old (bytes ++ rest)
          ≡ some (
            (if has_avc_packet v.codecid
                then v
                else record old { codecid = v.codecid; keyframe = v.keyframe }),
            n,
          ))
video_tag_header_read-video_tag_header_write v old len rest i h =
    (video_written v len i h, ground arith, video_read v old rest i)
