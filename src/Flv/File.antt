-- ===== src/Flv/File.antt =====
-- 3rd/libflv/source/flv-writer.c (`flv_writer_input`) and flv-reader.c (`flv_reader_read`): one tag
-- with its size behind it. The callbacks `write` and `read` are functions of a state `S`.
pub mod RoundTrip
use seastar_live.Prelude.{
  ℕ, ◌+◌, ◌%◌, ◌^◌, List, [], ◌∷◌, ◌++◌, Option, none, some, Bool, true, false, not, if◌then◌else◌,
  ◌==◌, ltb, length,
}
use seastar_live.Prelude.Int.{ℤ, pos, negsuc}
use seastar_live.Flv.Header.{
  TagHeader, tag_header_write, tag_header_read, tag_size_write, tag_size_read,
}

-- What a call of `read` gives: a negative result, or the bytes that it read, as many or fewer than
-- it was asked for.
pub data ReadResult : Type 0 where
  failed : ℕ → ReadResult
  got : List ℕ → ReadResult

module _ {S : Type 0} (write : List (List ℕ) → S → ℤ × S) where
  -- `garbage` is what the eleven bytes of `buf` hold before: they stay if the type is none of the
  -- three, since the result of `flv_tag_header_write` is not looked at.
  unfoldable pub writer_input : List ℕ → ℕ → List ℕ → ℕ → S → ℤ × S
  writer_input garbage type body timestamp s =
      let tag : TagHeader = record {
        filter = 0;
        type = type % 256;
        size = length body % 2 ^ 32;
        timestamp = timestamp;
        stream_id = 0;
      } in
      let head : List ℕ = elim (tag_header_write tag 11) [ none ↦ garbage | some (b, n) ↦ b ] in
      let tail : List ℕ = elim (tag_size_write 4 ((length body + 11) % 2 ^ 32)) [
        | none ↦ []
        | some (b, n) ↦ b
      ] in
      write (head ∷ body ∷ tail ∷ []) s

-- `*tagtype`, `*timestamp` and the `*taglen` bytes in `buffer`.
pub record Tag : Type 0 where
  pub tagtype : ℕ
  pub timestamp : ℕ
  pub body : List ℕ

-- `r < 0 ? r : 0`
abbrev pub short_read : ReadResult → ℤ
short_read (failed n) = negsuc n
short_read (got bs) = pos 0

-- The bytes of a full read.
abbrev pub full : ℕ → ReadResult → Option (List ℕ)
full n (failed c) = none
full n (got bs) = if length bs == n then some bs else none

module _ {S : Type 0} (read : ℕ → S → ReadResult × S) where
  -- The part behind the tag header.
  unfoldable pub read_body : TagHeader → S → ℤ × Option Tag × S
  read_body tag s =
      let (r, s₁) = read tag.size s in
      elim (full tag.size r) [
        | none ↦ (short_read r, none, s₁)
        | some body ↦
            let (q, s₂) = read 4 s₁ in
            elim (full 4 q) [
              | none ↦ (short_read q, none, s₂)
              | some size ↦
                  let out : Tag = record {
                    tagtype = tag.type;
                    timestamp = tag.timestamp;
                    body = body;
                  } in
                  elim (tag_size_read size) [
                    | none ↦ (negsuc 0, some out, s₂)
                    | some (sz, n) ↦
                        (if sz == (tag.size + 11) % 2 ^ 32 then pos 1 else negsuc 0, some out, s₂)
                  ]
            ]
      ]

  -- `flv_reader_read` with `bytes` bytes of room in `buffer`: its result, what it puts into the
  -- variables of the caller, if anything, and the state of `read`.
  unfoldable pub reader_read : ℕ → S → ℤ × Option Tag × S
  reader_read bytes s =
      let (r, s₁) = read 11 s in
      elim (full 11 r) [
        | none ↦ (short_read r, none, s₁)
        | some head ↦ elim (tag_header_read head) [
          | none ↦ (negsuc 0, none, s₁)
          | some (tag, n) ↦ if ltb bytes tag.size then (negsuc 0, none, s₁) else read_body tag s₁
        ]
      ]
