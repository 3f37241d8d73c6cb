-- ===== src/Flv/Amf0/RoundTrip.antt =====
-- What the readers of 3rd/libflv/source/amf0.c make of what its writers wrote, behind the byte that
-- names the type.
use seastar_live.Prelude.{
  ℕ, ◌+◌, ◌-◌, ◌%◌, ◌^◌, ◌≤◌, ◌<◌, ◌≡◌, refl, List, ◌∷◌, ◌++◌, none, some, Bool, true, false, ltb,
  arith, length, take, append_assoc, length-append, take-append, drop-append, if◌then◌else◌,
}
use seastar_live.Prelude.Bytes.{be_write_uint16, be_write_uint32}
use seastar_live.Flv.Amf0.{
  amf_string, amf_long_string, amf_number, amf_date, double_bytes, write_string, write_string16,
  write_double, write_date, write_named, write_named_string, read_string, read_double, read_date,
  read_int16, read_int32,
}

-- The type that `write_string` gives a string, and the body behind it.
abbrev pub is_long_string : List ℕ → Bool
is_long_string string = if ltb (length string) 65536 then false else true

abbrev pub string_head : List ℕ → List ℕ
unfolding be_write_uint16 be_write_uint32
string_head string =
    if ltb (length string) 65536
    then be_write_uint16 (length string)
    else be_write_uint32 (length string)

abbrev pub string_type : List ℕ → ℕ
string_type string = if ltb (length string) 65536 then amf_string else amf_long_string

pub write_string-bytes :
    (room : ℕ) (string : List ℕ)
    → length string < 2 ^ 32
    → length string + 5 ≤ room
    → write_string room string ≡ some (string_type string ∷ (string_head string ++ string))
unfolding write_string be_write_uint16 be_write_uint32
write_string-bytes room string h r = ground arith

pub read_string-string_head :
    (size : ℕ) (string rest : List ℕ)
    → length string < 2 ^ 32
    → length string < size
    → read_string (is_long_string string) size (string_head string ++ (string ++ rest))
      ≡ some (some string, rest)
unfolding read_string read_int16 read_int32 be_write_uint16 be_write_uint32
read_string-string_head size string rest h s =
    ground (arith, take-append string rest, drop-append string rest, length-append string rest)

-- A date is written, with room for 11 bytes, as its type and a body of 9 bytes, which is too short to
-- be read as a date, whatever the date.
write_date-read_date :
    (room milliseconds timezone : ℕ)
    → 11 ≤ room
    → (body : List ℕ) × (write_date room milliseconds timezone ≡ some (amf_date ∷ body))
      × (length body ≡ 9)
      × (read_date body ≡ none)
unfolding write_date read_date read_double read_int16 be_write_uint16
write_date-read_date room milliseconds timezone h =
    (take 7 (double_bytes milliseconds) ++ be_write_uint16 timezone, ground arith, refl, refl)

-- A double of 64 bits, written with room for its 9 bytes, reads back, behind the type byte, with what
-- follows it.
pub read_double-write_double :
    (room value : ℕ) (rest : List ℕ)
    → value < 2 ^ 64
    → 9 ≤ room
    → (body : List ℕ) × (write_double room value ≡ some (amf_number ∷ body))
      × (read_double (body ++ rest) ≡ some (value, rest))
unfolding write_double read_double
read_double-write_double room value rest h r = (double_bytes value, ground arith, ground arith)

-- A string of less than 2^32 bytes, written with room for it, has the type of a short or a long string
-- by its length, and the reader of that type, with a buffer that is larger than the string, gives it
-- back and stands behind it.
pub read_string-write_string :
    (room size : ℕ) (string rest : List ℕ)
    → length string < 2 ^ 32
    → length string + 5 ≤ room
    → length string < size
    → (body : List ℕ) × (write_string room string ≡ some (string_type string ∷ body))
      × (read_string (is_long_string string) size (body ++ rest) ≡ some (some string, rest))
read_string-write_string room size string rest h r s = (
  string_head string ++ string,
  write_string-bytes room string h r,
  rw (append_assoc (string_head string) string rest) (read_string-string_head size string rest h s),
)

write_named_string-bytes :
    (room : ℕ) (name value : List ℕ)
    → length name < 2 ^ 16
    → length value < 2 ^ 32
    → length name + length value + 7 ≤ room
    → write_named_string room name value
      ≡ some (
          (be_write_uint16 (length name) ++ name)
          ++ (string_type value ∷ (string_head value ++ value)))
unfolding write_named_string write_named write_string16 be_write_uint16
write_named_string-bytes room name value n v h =
    let e : length name % 2 ^ 16 ≡ length name = omega arith in
    let w = write_string-bytes (room - (2 + length name)) value v (omega arith) in
    ground (arith, e, w)

read_string-string16 :
    (size : ℕ) (string rest : List ℕ)
    → length string < 2 ^ 16
    → length string < size
    → read_string false size (be_write_uint16 (length string) ++ (string ++ rest))
      ≡ some (some string, rest)
unfolding read_string read_int16 be_write_uint16
read_string-string16 size string rest h s =
    ground (arith, take-append string rest, drop-append string rest, length-append string rest)

-- A named string with a name of less than 2^16 bytes and a value of less than 2^32, written with room
-- for it: what is written reads, with buffers that are large enough, as the name, and what follows as
-- the type byte and the value.
pub write_named_string-read_string :
    (room size : ℕ) (name value rest : List ℕ)
    → length name < 2 ^ 16
    → length value < 2 ^ 32
    → length name < size
    → length value < size
    → length name + length value + 7 ≤ room
    → (bytes : List ℕ) × (behind : List ℕ) × (write_named_string room name value ≡ some bytes)
      × (read_string false size (bytes ++ rest) ≡ some (some name, string_type value ∷ behind))
      × (read_string (is_long_string value) size behind ≡ some (some value, rest))
unfolding be_write_uint16
write_named_string-read_string room size name value rest n v ns vs h =
    let head = string_head value in
    let behind = string_type value ∷ (head ++ (value ++ rest)) in
    let a : head ++ value ++ rest ≡ head ++ (value ++ rest) = append_assoc head value rest in
    let b = append_assoc name (string_type value ∷ (head ++ value)) rest in
    (
      (be_write_uint16 (length name) ++ name) ++ (string_type value ∷ (head ++ value)),
      head ++ (value ++ rest),
      write_named_string-bytes room name value n v h,
      rw (b, a) (read_string-string16 size name behind n ns),
      read_string-string_head size value rest v vs,
    )
