-- ===== src/Flv/File/RoundTrip.antt =====
-- A tag that `flv_writer_input` wrote, read by `flv_reader_read` (3rd/libflv/source).
use seastar_live.Prelude.{
  take-append, drop-append, ℕ, ◌+◌, ◌%◌, ◌^◌, ◌≤◌, ◌≡◌, refl, ap, ◌∙◌, List, [], ◌∷◌, ◌++◌,
  append_assoc, some, true, arith, length, take, drop,
}
use seastar_live.Prelude.Int.{ℤ, pos}
use seastar_live.Prelude.Bytes.{IsU24, IsU32, be_write_uint32, be_read_uint32}
use seastar_live.Flv.Header.{TagHeader, tag_bytes, tag_size_write, tag_size_read, is_tag_type}
use seastar_live.Flv.Header.RoundTrip.{IsTag, tag_header_read-tag_header_write}
use seastar_live.Flv.File.{ReadResult, got, full, writer_input, read_body, reader_read}

-- A `write` that appends everything to a file, and a `read` that takes bytes from its front.
abbrev pub append_all : List (List ℕ) → List ℕ → ℤ × List ℕ
append_all [] file = (pos 0, file)
append_all (v ∷ vs) file = append_all vs (file ++ v)

abbrev pub take_front : ℕ → List ℕ → ReadResult × List ℕ
take_front n file = (got (take n file), drop n file)

full_own : (bs : List ℕ) → full (length bs) (got bs) ≡ some bs
full_own bs = ground arith

module _ (type timestamp : ℕ) (body : List ℕ) where
  abbrev written_tag : TagHeader
  written_tag = record {
    filter = 0;
    type = type;
    size = length body;
    timestamp = timestamp;
    stream_id = 0;
  }

  -- What stands in the file for the tag.
  abbrev pub stored : List ℕ
  stored = tag_bytes written_tag ++ (body ++ be_write_uint32 (length body + 11))

  written_tag-IsTag :
      is_tag_type type ≡ true → IsU24 (length body) → IsU32 timestamp → IsTag written_tag
  written_tag-IsTag t b s = record {
    type_ok = t;
    filter_ok = omega arith;
    size_ok = b;
    timestamp_ok = s;
    stream_id_ok = omega arith;
  }

  small_type : is_tag_type type ≡ true → type % 256 ≡ type
  small_type t = ground arith

  writer_input-stored :
      (garbage file : List ℕ)
      → is_tag_type type ≡ true
      → IsU24 (length body)
      → IsU32 timestamp
      → writer_input append_all garbage type body timestamp file ≡ (pos 0, file ++ stored)
  unfolding writer_input tag_size_write
  writer_input-stored garbage file t b s =
      let e : length body % 2 ^ 32 ≡ length body = omega arith in
      let f : (length body + 11) % 2 ^ 32 ≡ length body + 11 = omega arith in
      let (w, _, _) =
        tag_header_read-tag_header_write written_tag 11 [] (written_tag-IsTag t b s)
          (omega arith) in
      rw (small_type t, e, f, w)
        (ap (λ l. (pos 0, l))
          (append_assoc (file ++ tag_bytes written_tag) body (be_write_uint32 (length body + 11))
            ∙ append_assoc file (tag_bytes written_tag) _))

  read_body-stored :
      (rest : List ℕ)
      → IsU24 (length body)
      → read_body take_front written_tag (body ++ (be_write_uint32 (length body + 11) ++ rest))
        ≡ (pos 1, some (record { tagtype = type; timestamp = timestamp; body = body }), rest)
  unfolding read_body tag_size_read be_write_uint32 be_read_uint32
  read_body-stored rest b = ground (
    arith,
    take-append body (be_write_uint32 (length body + 11) ++ rest),
    drop-append body (be_write_uint32 (length body + 11) ++ rest),
  )

  reader_read-stored :
      (bytes : ℕ) (rest : List ℕ)
      → is_tag_type type ≡ true
      → IsU24 (length body)
      → IsU32 timestamp
      → length body ≤ bytes
      → reader_read take_front bytes (stored ++ rest)
        ≡ (pos 1, some (record { tagtype = type; timestamp = timestamp; body = body }), rest)
  unfolding reader_read
  reader_read-stored bytes rest t b s h =
      let (_, _, r) =
        tag_header_read-tag_header_write written_tag 11 [] (written_tag-IsTag t b s)
          (omega arith) in
      ground (
        arith,
        r,
        read_body-stored rest b,
        append_assoc body (be_write_uint32 (length body + 11)) rest,
      )

-- Of a tag of one of the three types, with a body that 24 bits count and a 32-bit timestamp:
-- `flv_writer_input` succeeds, and `flv_reader_read` with room for the body gives back the type, the
-- timestamp and the body, and leaves what stands in the file behind the tag.
reader_read-writer_input :
    (garbage : List ℕ) (type timestamp : ℕ) (body : List ℕ) (bytes : ℕ) (rest : List ℕ)
    → is_tag_type type ≡ true
    → IsU24 (length body)
    → IsU32 timestamp
    → length body ≤ bytes
    → let (r, file) = writer_input append_all garbage type body timestamp [] in
      (r ≡ pos 0)
      × (reader_read take_front bytes (file ++ rest)
          ≡ (pos 1, some (record { tagtype = type; timestamp = timestamp; body = body }), rest))
reader_read-writer_input garbage type timestamp body bytes rest t b s h =
    rw (writer_input-stored type timestamp body garbage [] t b s)
      (refl, reader_read-stored type timestamp body bytes rest t b s h)
