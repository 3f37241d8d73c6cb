-- ===== src/Rtmp/Handler.antt =====
-- 3rd/librtmp/source/rtmp-handler.c: what a complete message does. The function pointers of `struct
-- rtmp_t` and `rtmp_invoke_handler` act on a state `S`, which stands for all that they reach.
-- `none` is a read behind the payload's end. `assert` is empty, as in a release build.
pub mod Aggregate
use seastar_live.Prelude.{
  ℕ, zero, suc, ◌+◌, ◌-◌, ◌*◌, ◌/◌, ◌%◌, ◌^◌, List, [], ◌∷◌, Option, none, some, Bool, ltb, ◌==◌,
  ◌||◌, ◌&&◌, if◌then◌else◌, take, drop, true, false,
}
use seastar_live.Prelude.Int.{ℤ, pos, negsuc, eqb_ℤ}
use seastar_live.Prelude.Bytes.{◌>>=◌}
use seastar_live.Rtmp.ChunkHeader.{ChunkHeader}
use seastar_live.Rtmp.Control.{
  Rtmp, Call, no_call, Handled, control_handler, event_handler, type_set_chunk_size, type_abort,
  type_acknowledgement, type_event, type_window_acknowledgement_size, type_set_peer_bandwidth,
}

abbrev pub type_audio : ℕ
type_audio = 8

abbrev pub type_video : ℕ
type_video = 9

abbrev pub type_flex_stream : ℕ
type_flex_stream = 15

abbrev pub type_flex_message : ℕ
type_flex_message = 17

abbrev pub type_data : ℕ
type_data = 18

abbrev pub type_invoke : ℕ
type_invoke = 20

abbrev pub type_metadata : ℕ
type_metadata = 22

-- `onaudio`, `onvideo` and `onscript`, `rtmp_invoke_handler`, and the other callbacks.
pub record Callbacks (S : Type 0) : Type 0 where
  pub onaudio : List ℕ → ℕ → S → ℤ × S
  pub onvideo : List ℕ → ℕ → S → ℤ × S
  pub onscript : List ℕ → ℕ → S → ℤ × S
  pub invoke_handler : Rtmp → ChunkHeader → List ℕ → S → ℤ × S
  pub on_call : Call → S → S

-- The AMF0 string "@setDataFrame".
abbrev pub set_data_frame : List ℕ
set_data_frame =
    0x02 ∷ 0x00 ∷ 0x0d ∷ 0x40 ∷ 0x73 ∷ 0x65 ∷ 0x74 ∷ 0x44 ∷ 0x61 ∷ 0x74 ∷ 0x61 ∷ 0x46 ∷ 0x72 ∷ 0x61
    ∷ 0x6d ∷ 0x65 ∷ []

-- `memcmp(expected, payload, sizeof(expected)) == 0`
abbrev pub starts_with : List ℕ → List ℕ → Bool
starts_with [] bs = true
starts_with (e ∷ es) [] = false
starts_with (e ∷ es) (b ∷ bs) = (e == b) && starts_with es bs

-- The type, the size, the timestamp and what follows of the message at `payload + i`.
unfoldable pub sub_header : List ℕ → Option (ℕ × ℕ × ℕ × List ℕ)
sub_header (k ∷ a ∷ b ∷ c ∷ d ∷ e ∷ f ∷ g ∷ _ ∷ _ ∷ _ ∷ body) =
    some (k, a * 2 ^ 16 + b * 2 ^ 8 + c, d * 2 ^ 16 + e * 2 ^ 8 + f + g * 2 ^ 24, body)
sub_header _ = none

module _ {S : Type 0} (on : Callbacks S) where
  unfoldable pub script : List ℕ → ℕ → ℕ → S → ℤ × S
  script payload bytes timestamp s =
      if ltb 16 bytes && starts_with set_data_frame payload
      then on.onscript (take (bytes - 16) (drop 16 payload)) timestamp s
      else on.onscript (take bytes payload) timestamp s

  unfoldable pub sub_message : ℕ → List ℕ → ℕ → ℕ → S → ℤ × S
  unfolding script
  sub_message type payload n timestamp s =
      if type == type_audio
      then on.onaudio (take n payload) timestamp s
      else if type == type_video
      then on.onvideo (take n payload) timestamp s
      else if type == type_data
      then script payload n timestamp s
      else (pos 0, s)

  -- The rounds of the loop from `i` on, with `payload + i`.
  unfoldable pub aggregate_from : ℕ → ℕ → ℕ → ℕ → ℕ → List ℕ → S → Option (ℤ × S)
  unfolding sub_header sub_message
  aggregate_from zero len i t0 timestamp payload s = none
  aggregate_from (suc fuel) len i t0 timestamp payload s =
      if ltb (i + 11 + 4) len
      then (sub_header payload >>= λ (type, n, t, body).
          if ltb len (i + n + 11 + 4)
          then some (pos 0, s)
          else (let timestamp' =
                if i == 0 then timestamp else (timestamp + t + 2 ^ 32 - t0) % 2 ^ 32 in
              let (r, s') = sub_message type body n timestamp' s in
              let next =
                aggregate_from fuel len (i + n + 11 + 4) t timestamp' (drop (n + 4) body) s' in
              if eqb_ℤ r (pos 0) then next else some (r, s')))
      else some (pos 0, s)

  -- Every round takes 15 bytes at least.
  unfoldable pub aggregate : ChunkHeader → List ℕ → S → Option (ℤ × S)
  unfolding aggregate_from
  aggregate h payload s = aggregate_from (suc h.length) h.length 0 0 h.timestamp payload s

  abbrev pub called : Call → S → S
  called no_call s = s
  called call s = on.on_call call s

  -- `0 == rtmp_..._handler(...) ? -1 : 0`, behind the callback.
  abbrev pub finished : Option Handled → S → Option (ℤ × Rtmp × S)
  finished r s =
      r >>= λ h. some ((if h.result == 0 then negsuc 0 else pos 0), h.rtmp, called h.call s)

  unfoldable pub handler : Rtmp → ChunkHeader → List ℕ → S → Option (ℤ × Rtmp × S)
  unfolding control_handler event_handler aggregate script
  handler c h payload s =
      let keep : ℤ × S → Option (ℤ × Rtmp × S) = λ (r, s'). some (r, c, s') in
      if h.type == type_flex_message
      then keep (
          if ltb 0 h.length
          then on.invoke_handler c (record h { length = h.length - 1 }) (drop 1 payload) s
          else on.invoke_handler c h payload s)
      else if h.type == type_invoke
      then keep (on.invoke_handler c h payload s)
      else if h.type == type_video
      then keep (on.onvideo (take h.length payload) h.timestamp s)
      else if h.type == type_audio
      then keep (on.onaudio (take h.length payload) h.timestamp s)
      else if h.type == type_event
      then finished (event_handler c h payload) s
      else if h.type == type_set_chunk_size
          || h.type == type_abort
          || h.type == type_acknowledgement
          || h.type == type_window_acknowledgement_size
          || h.type == type_set_peer_bandwidth
      then finished (control_handler c h payload) s
      else if h.type == type_data || h.type == type_flex_stream
      then keep (script payload h.length h.timestamp s)
      else if h.type == type_metadata
      then (aggregate h payload s >>= keep)
      else some (pos 0, c, s)
