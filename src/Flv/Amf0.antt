-- ===== src/Flv/Amf0.antt =====
-- 3rd/libflv/source/amf0.c: the writers and readers of single AMF0 values. A writer's `ptr` and `end`
-- are the room between them; it gives the bytes that it writes, or `none` for NULL. A reader takes
-- the bytes from `ptr` to `end` and gives the value and the bytes behind it. A double is its bit
-- pattern; the host is little-endian, so that the file has its bytes from the highest to the lowest.
pub mod RoundTrip
use seastar_live.Prelude.{
  ℕ, ◌+◌, ◌-◌, ◌*◌, ◌/◌, ◌%◌, ◌^◌, List, [], ◌∷◌, ◌++◌, Option, none, some, Bool, true, false, ◌||◌,
  ltb, ◌==◌, if◌then◌else◌, take, drop, length,
}
use seastar_live.Prelude.Bytes.{be_write_uint16, be_write_uint32, ◌>>=◌}

-- The members of `enum AMFDataType` that single values use.
abbrev pub amf_number : ℕ
amf_number = 0

abbrev pub amf_boolean : ℕ
amf_boolean = 1

abbrev pub amf_string : ℕ
amf_string = 2

abbrev pub amf_object : ℕ
amf_object = 3

abbrev pub amf_null : ℕ
amf_null = 5

abbrev pub amf_undefined : ℕ
amf_undefined = 6

abbrev pub amf_ecma_array : ℕ
amf_ecma_array = 8

abbrev pub amf_object_end : ℕ
amf_object_end = 9

abbrev pub amf_date : ℕ
amf_date = 11

abbrev pub amf_long_string : ℕ
amf_long_string = 12

abbrev pub amf_typed_object : ℕ
amf_typed_object = 16

-- `ptr + n > end` answers NULL.
abbrev pub need : ℕ → ℕ → List ℕ → Option (List ℕ)
need room n bytes = if ltb room n then none else some bytes

unfoldable pub write_int16 : ℕ → ℕ → Option (List ℕ)
unfolding be_write_uint16
write_int16 room value = need room 2 (be_write_uint16 value)

unfoldable pub write_int32 : ℕ → ℕ → Option (List ℕ)
unfolding be_write_uint32
write_int32 room value = need room 4 (be_write_uint32 value)

-- The length is cast to uint16_t, or to uint32_t.
unfoldable pub write_string16 : ℕ → List ℕ → Option (List ℕ)
unfolding be_write_uint16
write_string16 room string =
    need room (2 + length string) (be_write_uint16 (length string % 2 ^ 16) ++ string)

unfoldable pub write_string32 : ℕ → List ℕ → Option (List ℕ)
unfolding be_write_uint32
write_string32 room string =
    need room (4 + length string) (be_write_uint32 (length string % 2 ^ 32) ++ string)

unfoldable pub write_null : ℕ → Option (List ℕ)
write_null room = need room 1 (amf_null ∷ [])

unfoldable pub write_undefined : ℕ → Option (List ℕ)
write_undefined room = need room 1 (amf_undefined ∷ [])

unfoldable pub write_object : ℕ → Option (List ℕ)
write_object room = need room 1 (amf_object ∷ [])

unfoldable pub write_object_end : ℕ → Option (List ℕ)
write_object_end room = need room 3 (0 ∷ 0 ∷ amf_object_end ∷ [])

unfoldable pub write_typed_object : ℕ → Option (List ℕ)
write_typed_object room = need room 1 (amf_typed_object ∷ [])

unfoldable pub write_ecma_array : ℕ → Option (List ℕ)
unfolding write_int32
write_ecma_array room = need room 1 (amf_ecma_array ∷ []) >>= λ head.
    write_int32 (room - 1) 0 >>= λ count. some (head ++ count)

unfoldable pub write_boolean : ℕ → ℕ → Option (List ℕ)
write_boolean room value = need room 2 (amf_boolean ∷ (if value == 0 then 0 else 1) ∷ [])

-- The bytes of a double, from the highest.
abbrev pub double_bytes : ℕ → List ℕ
double_bytes value =
    (value / 2 ^ 56 % 256)
    ∷ (value / 2 ^ 48 % 256)
    ∷ (value / 2 ^ 40 % 256)
    ∷ (value / 2 ^ 32 % 256)
    ∷ (value / 2 ^ 24 % 256)
    ∷ (value / 2 ^ 16 % 256)
    ∷ (value / 2 ^ 8 % 256)
    ∷ (value % 256)
    ∷ []

unfoldable pub write_double : ℕ → ℕ → Option (List ℕ)
write_double room value = need room 9 (amf_number ∷ double_bytes value)

unfoldable pub write_string : ℕ → List ℕ → Option (List ℕ)
unfolding be_write_uint16 be_write_uint32
write_string room string =
    let n = length string in
    if ltb room (1 + (if ltb n 65536 then 2 else 4) + n) || ltb (2 ^ 32 - 1) n
    then none
    else if ltb n 65536
    then some (amf_string ∷ (be_write_uint16 n ++ string))
    else some (amf_long_string ∷ (be_write_uint32 n ++ string))

-- `AMFWriteDouble`, its first byte rewritten, and the time zone from the byte 8 on, which is the
-- last of the double.
unfoldable pub write_date : ℕ → ℕ → ℕ → Option (List ℕ)
unfolding be_write_uint16
write_date room milliseconds timezone =
    need room 11 (take 8 (amf_date ∷ double_bytes milliseconds) ++ be_write_uint16 timezone)

-- The named values: the name, and the value in the room that is left.
unfoldable pub write_named : ℕ → ℕ → List ℕ → (ℕ → Option (List ℕ)) → Option (List ℕ)
unfolding write_string16
write_named room rest name value =
    if ltb room (length name + 2 + rest)
    then none
    else (write_string16 room name >>= λ head.
        value (room - length head) >>= λ tail. some (head ++ tail))

unfoldable pub write_named_boolean : ℕ → List ℕ → ℕ → Option (List ℕ)
unfolding write_named write_boolean
write_named_boolean room name value = write_named room 2 name (λ r. write_boolean r value)

unfoldable pub write_named_double : ℕ → List ℕ → ℕ → Option (List ℕ)
unfolding write_named write_double
write_named_double room name value = write_named room 9 name (λ r. write_double r value)

unfoldable pub write_named_string : ℕ → List ℕ → List ℕ → Option (List ℕ)
unfolding write_named write_string
write_named_string room name value =
    write_named room (length value + 3) name (λ r. write_string r value)

unfoldable pub read_int16 : List ℕ → Option (ℕ × List ℕ)
read_int16 (a ∷ b ∷ rest) = some (a * 2 ^ 8 + b, rest)
read_int16 _ = none

unfoldable pub read_int32 : List ℕ → Option (ℕ × List ℕ)
read_int32 (a ∷ b ∷ c ∷ d ∷ rest) = some (a * 2 ^ 24 + b * 2 ^ 16 + c * 2 ^ 8 + d, rest)
read_int32 _ = none

unfoldable pub read_boolean : List ℕ → Option (ℕ × List ℕ)
read_boolean (a ∷ rest) = some (a, rest)
read_boolean [] = none

unfoldable pub read_double : List ℕ → Option (ℕ × List ℕ)
read_double (a ∷ b ∷ c ∷ d ∷ e ∷ f ∷ g ∷ h ∷ rest) = some (
  a * 2 ^ 56 + b * 2 ^ 48 + c * 2 ^ 40 + d * 2 ^ 32 + e * 2 ^ 24 + f * 2 ^ 16 + g * 2 ^ 8 + h,
  rest,
)
read_double _ = none

-- `AMFReadString` into a buffer of `size` bytes: what is put there with its final 0, if it fits.
unfoldable pub read_string : Bool → ℕ → List ℕ → Option (Option (List ℕ) × List ℕ)
unfolding read_int16 read_int32
read_string is_long size bs = (if is_long then read_int32 bs else read_int16 bs) >>= λ (len, body).
    if ltb (length body) len
    then none
    else some ((if ltb len size then some (take len body) else none), drop len body)

unfoldable pub read_date : List ℕ → Option (ℕ × ℕ × List ℕ)
unfolding read_double read_int16
read_date bs = read_double bs >>= λ (milliseconds, bs').
    read_int16 bs' >>= λ (timezone, rest). some (milliseconds, timezone, rest)
