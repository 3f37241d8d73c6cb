-- ===== src/Rtmp/ChunkHeader.antt =====
-- 3rd/librtmp/source/rtmp-chunk-header.c and the struct of rtmp-chunk-header.h: the basic header, the
-- message header and the extended timestamp of an RTMP chunk. A writer gives the bytes from `out`
-- on and the count that it returns.
pub mod RoundTrip
use seastar_live.Prelude.{
  ℕ, ◌+◌, ◌-◌, ◌*◌, ◌/◌, ◌%◌, ◌^◌, ◌≤◌, ◌<◌, ◌≡◌, refl, List, [], ◌∷◌, ◌++◌, Option, none, some,
  arith, ltb, leb, ◌==◌, if◌then◌else◌, drop, get_elem?, length, min,
}
use seastar_live.Prelude.Bytes.{
  ◌>>=◌, IsU24, IsU32, be_read_uint24, be_read_uint32, le_read_uint32, be_write_uint24,
  be_write_uint32, le_write_uint32,
}

pub record ChunkHeader : Type 0 where
  pub fmt : ℕ
  pub cid : ℕ
  pub timestamp : ℕ
  pub length : ℕ
  pub type : ℕ
  pub stream_id : ℕ

-- The bytes read, `*fmt` and `*cid`.
unfoldable pub basic_header_read : List ℕ → Option (ℕ × ℕ × ℕ)
basic_header_read [] = none
basic_header_read (b ∷ bs) =
    let fmt = b / 2 ^ 6 in
    let cid = b % 64 in
    if cid == 0
    then (get_elem? bs 0 >>= λ c. some (2, fmt, 64 + c))
    else if cid == 1
    then (get_elem? bs 0 >>= λ c. get_elem? bs 1 >>= λ d. some (3, fmt, 64 + c + d * 2 ^ 8))
    else some (1, fmt, cid)

unfoldable pub basic_header_write : ℕ → ℕ → List ℕ × ℕ
basic_header_write fmt id =
    if leb (64 + 256) id
    then ((fmt * 2 ^ 6 % 256 + 1) ∷ ((id - 64) % 256) ∷ ((id - 64) / 2 ^ 8 % 256) ∷ [], 3)
    else if leb 64 id
    then ((fmt * 2 ^ 6 % 256) ∷ ((id - 64) % 256) ∷ [], 2)
    else ((fmt * 2 ^ 6 % 256 + id) ∷ [], 1)

-- The three parts of the message header; each gives the bytes that follow it as well.
unfoldable pub read_timestamp : List ℕ → ChunkHeader → Option (ℕ × List ℕ × ChunkHeader)
read_timestamp bs h =
    if leb h.fmt 2
    then (be_read_uint24 bs >>= λ t. some (3, drop 3 bs, record h { timestamp = t }))
    else some (0, bs, h)

unfoldable pub read_length_type : List ℕ → ChunkHeader → Option (ℕ × List ℕ × ChunkHeader)
read_length_type bs h =
    if leb h.fmt 1
    then (be_read_uint24 bs >>= λ n.
        get_elem? bs 3 >>= λ t. some (4, drop 4 bs, record h { length = n; type = t }))
    else some (0, bs, h)

unfoldable pub read_stream_id : List ℕ → ChunkHeader → Option (ℕ × List ℕ × ChunkHeader)
read_stream_id bs h =
    if h.fmt == 0
    then (le_read_uint32 bs >>= λ i. some (4, drop 4 bs, record h { stream_id = i }))
    else some (0, bs, h)

-- The offset that is returned, the bytes behind it, and `*header` afterwards.
unfoldable pub message_header_read : List ℕ → ChunkHeader → Option (ℕ × List ℕ × ChunkHeader)
message_header_read bs h = do
  (a, bs₁, h₁) ← read_timestamp bs h
  (b, bs₂, h₂) ← read_length_type bs₁ h₁
  (c, bs₃, h₃) ← read_stream_id bs₂ h₂
  some (a + b + c, bs₃, h₃)

-- `s_header_size[fmt]`
unfoldable pub header_size : ℕ → ℕ
header_size fmt = if fmt == 0 then 11 else if fmt == 1 then 7 else if fmt == 2 then 3 else 0

-- `timestamp >= 0xFFFFFF ? 0xFFFFFF : timestamp`
abbrev pub capped : ℕ → ℕ
capped t = if leb 0xffffff t then 0xffffff else t

unfoldable pub message_header_write : ChunkHeader → List ℕ × ℕ
unfolding header_size
message_header_write h = (
  (if leb h.fmt 2 then be_write_uint24 (capped h.timestamp) else [])
      ++ ((if leb h.fmt 1 then be_write_uint24 h.length ++ (h.type ∷ []) else [])
          ++ (if h.fmt == 0 then le_write_uint32 h.stream_id else [])),
  header_size (h.fmt % 4),
)

unfoldable pub extended_timestamp_read : List ℕ → Option (ℕ × ℕ)
extended_timestamp_read bs = be_read_uint32 bs >>= λ t. some (4, t)

unfoldable pub extended_timestamp_write : ℕ → List ℕ × ℕ
extended_timestamp_write t = (be_write_uint32 t, 4)
