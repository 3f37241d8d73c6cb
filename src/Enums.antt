-- ===== src/Enums.antt =====
-- src/util/enums.hh: the enumerations and their names. An enumerator is its number; a type
-- that is a template's argument is given by its enumerators' numbers.
pub mod Names
pub mod MimeTypes
mod Tests
use seastar_live.Prelude.{
  ℕ, zero, suc, ◌+◌, ◌-◌, ◌*◌, ◌/◌, ◌%◌, ◌^◌, ◌≤◌, ◌<◌, min, ◌≡◌, refl, sym, ap, ap₂, ◌∙◌, ◌≢◌, ◌↔◌,
  ◌⊎◌, inl, inr, Bool, true, false, ◌&&◌, ◌||◌, not, Option, none, some, List, [], ◌∷◌, ◌++◌, map,
  append-nil, append_assoc, arith, ltb, leb, ◌==◌, if◌then◌else◌, if_keeps, if_then, if_else,
  ltb→lt, lt→ltb, leb→le, ==_iff, tests, Bool-cases, Option-cases, length, get_elem?, set,
  length-append, get_or, take, drop, replicate, take-append-drop,
}
use seastar_live.Prelude.Bytes.{◌>>=◌}
use Prim.Native.String.{String}
use text.Mathlib.Text.{◌==◌ as str_eq}
use seastar_live.Frame.{media_none, media_video, media_audio}

abbrev pub media_all : ℕ
media_all = 5

abbrev pub type_none : ℕ
type_none = 0

abbrev pub type_play : ℕ
type_play = 1

abbrev pub type_publish : ℕ
type_publish = 2

abbrev pub type_all : ℕ
type_all = 3

abbrev pub format_unknown : ℕ
format_unknown = 0

abbrev pub format_flv : ℕ
format_flv = 1

abbrev pub format_hls : ℕ
format_hls = 2

abbrev pub protocol_none : ℕ
protocol_none = 0

abbrev pub protocol_tcp : ℕ
protocol_tcp = 1

abbrev pub protocol_rtmp : ℕ
protocol_rtmp = 2

abbrev pub protocol_srt : ℕ
protocol_srt = 4

abbrev pub protocol_file : ℕ
protocol_file = 8

abbrev pub protocol_http1 : ℕ
protocol_http1 = 16

abbrev pub protocol_http2 : ℕ
protocol_http2 = 32

abbrev pub protocol_http3 : ℕ
protocol_http3 = 128

abbrev pub ownership_internal : ℕ
ownership_internal = 1

abbrev pub ownership_user : ℕ
ownership_user = 2

abbrev pub ownership_invisible : ℕ
ownership_invisible = 3

-- A `switch` from numbers to values, with what stands behind `default`.
pub switch {ℓ} : {A : Type ℓ} → List (ℕ × A) → A → ℕ → A
switch [] last v = last
switch ((k, a) ∷ cs) last v = if v == k then a else switch cs last v

unfoldable pub media_type_to_string : ℕ → String
unfolding switch
media_type_to_string =
    switch ((media_audio, "audio") ∷ (media_video, "video") ∷ (media_all, "all") ∷ []) "none"

unfoldable pub media_type_to_short_string : ℕ → String
unfolding switch
media_type_to_short_string =
    switch ((media_audio, "a") ∷ (media_video, "v") ∷ (media_all, "av") ∷ []) "n"

unfoldable pub type_to_string : ℕ → String
unfolding switch
type_to_string =
    switch ((type_all, "all") ∷ (type_publish, "publish") ∷ (type_play, "play") ∷ []) "none"

unfoldable pub protocol_to_string : ℕ → String
unfolding switch
protocol_to_string =
    switch
      ((protocol_tcp, "TCP")
        ∷ (protocol_http1, "HTTP1")
        ∷ (protocol_http2, "HTTP2")
        ∷ (protocol_http3, "HTTP3")
        ∷ (protocol_rtmp, "RTMP")
        ∷ (protocol_srt, "SRT")
        ∷ (protocol_file, "FILE")
        ∷ [])
      ""

unfoldable pub protocol_to_default_format : ℕ → ℕ
unfolding switch
protocol_to_default_format =
    switch ((protocol_http1, format_flv) ∷ (protocol_rtmp, format_flv) ∷ []) format_unknown

unfoldable pub protocol_to_schema : ℕ → String
unfolding switch
protocol_to_schema =
    switch
      ((protocol_http1, "http")
        ∷ (protocol_http2, "https")
        ∷ (protocol_http3, "http3")
        ∷ (protocol_rtmp, "rtmp")
        ∷ [])
      ""

unfoldable pub session_type_to_string : ℕ → ℕ → String
session_type_to_string type owner =
    if type == type_publish
    then (if owner == ownership_user
        then "publish"
        else if owner == ownership_internal
        then "relay"
        else "unknown")
    else if type == type_play
    then (if owner == ownership_user
        then "play"
        else if owner == ownership_internal
        then "relay-player"
        else "unknown")
    else "unknown"

-- `to_lower` is boost's `to_lower_copy`.
unfoldable pub schema_to_protocol : (String → String) → String → ℕ
schema_to_protocol to_lower schema =
    let s = to_lower schema in
    if str_eq s "http"
    then protocol_http1
    else if str_eq s "https"
    then protocol_http2
    else if str_eq s "http3"
    then protocol_http3
    else if str_eq s "rtmp"
    then protocol_rtmp
    else if str_eq s "srt"
    then protocol_srt
    else if str_eq s "file"
    then protocol_file
    else protocol_none

unfoldable pub convert_to_protocol : ℕ → ℕ
unfolding switch
convert_to_protocol =
    switch
      ((0, protocol_tcp)
        ∷ (1, protocol_http1)
        ∷ (2, protocol_http2)
        ∷ (3, protocol_http3)
        ∷ (4, protocol_rtmp)
        ∷ (5, protocol_srt)
        ∷ (6, protocol_file)
        ∷ [])
      protocol_none

-- The loops' `i` where they stop, from `i` on.
unfoldable pub find_index : ℕ → List String → String → ℕ
find_index i [] str = i
find_index i (x ∷ xs) str = if str_eq x str then i else find_index (i + 1) xs str

unfoldable pub str2protocol : String → ℕ
unfolding find_index convert_to_protocol
str2protocol str =
    convert_to_protocol
      (find_index 0 ("TCP" ∷ "HTTP1" ∷ "HTTP2" ∷ "HTTP3" ∷ "RTMP" ∷ "SRT" ∷ "FILE" ∷ []) str)

unfoldable pub str2media : String → ℕ
unfolding switch find_index
str2media str =
    switch ((0, media_audio) ∷ (1, media_video) ∷ (2, media_all) ∷ []) media_none
      (find_index 0 ("audio" ∷ "video" ∷ "all" ∷ []) str)

-- The loop goes on to `i < 4` over an array of 3: `none` is the read of `arr[3]`.
unfoldable pub find_format : ℕ → List String → String → Option ℕ
find_format i [] str = if ltb i 4 then none else some i
find_format i (x ∷ xs) str = if str_eq x str then some i else find_format (i + 1) xs str

unfoldable pub str2format : String → Option ℕ
unfolding switch find_format
str2format str = find_format 0 ("flv" ∷ "hls" ∷ "ignored" ∷ []) str >>= λ i.
    some (switch ((0, format_flv) ∷ (1, format_hls) ∷ []) format_unknown i)

unfoldable pub format_to_string : ℕ → String
unfolding switch
format_to_string = switch ((format_flv, "FLV") ∷ (format_hls, "HLS") ∷ []) "unknown"

unfoldable pub format_to_schema : ℕ → String
unfolding switch
format_to_schema = switch ((format_flv, "flv") ∷ (format_hls, "hls") ∷ []) "unknown"

unfoldable pub format_to_extension : (String → String) → ℕ → String
unfolding format_to_string
format_to_extension to_lower fmt = to_lower (format_to_string fmt)

unfoldable pub format_to_mime_type : ℕ → String
unfolding switch
format_to_mime_type =
    switch
      ((format_hls, "application/x-mpegURL") ∷ (format_flv, "flv-application/octet-stream") ∷ [])
      "application/octet-stream"

unfoldable pub ownership_to_string : ℕ → String
unfolding switch
ownership_to_string =
    switch
      ((ownership_user, "user")
        ∷ (ownership_internal, "internal")
        ∷ (ownership_invisible, "invisible")
        ∷ (0, "ignored")
        ∷ [])
      "ignored"
