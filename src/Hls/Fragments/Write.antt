-- ===== src/Hls/Fragments/Write.antt =====
-- do_write_frame and handle_meta of src/session/hls/play_session_v3.cc, and a player's writes, which end at the
-- first that fails. `header_ok` is whether on_update_header succeeds. A codec's configuration is the library's.
use seastar_live.Prelude.{
  ℕ, Bool, true, false, ◌||◌, Option, none, some, List, [], ◌∷◌, ◌++◌, ◌==◌, if◌then◌else◌,
}
use seastar_live.Prelude.Int.{ℤ}
use seastar_live.Hls.Fragments.{
  TsMeta, TsStream, TsSession, Input, media, metadata, unknown, Muxer, header_item, flv_video_h264,
  flv_video_h265, flv_audio_aac, flv_to_mpeg_ts_codecid, handle_frame,
}

abbrev pub video_codecs : List ℕ
video_codecs = flv_video_h264 ∷ 0x200 ∷ flv_video_h265 ∷ 0x201 ∷ []

abbrev pub audio_codecs : List ℕ
audio_codecs = flv_audio_aac ∷ 0x100 ∷ []

abbrev pub is_codec_of : List ℕ → ℕ → Bool
is_codec_of [] v = false
is_codec_of (c ∷ cs) v = (v == c) || is_codec_of cs v

module _ {M : Type 0} (mux : Muxer M) where
  -- The stream that mpeg_ts_add_program_stream answered, if it is not negative and the codec is supported.
  abbrev pub stream_of : List ℕ → ℕ → Option ℕ → Option TsStream
  stream_of codecs codec none = none
  stream_of codecs codec (some n) =
      if is_codec_of codecs codec then some record { stream_id = n; codec_id = codec } else none

  unfoldable pub add_stream : List ℕ → ℕ → M → Option TsStream × M
  unfolding flv_to_mpeg_ts_codecid
  add_stream codecs codec muxer =
      let (n, muxer') = mux.add_program_stream muxer (flv_to_mpeg_ts_codecid codec) in
      (stream_of codecs codec n, muxer')

  unfoldable pub enable_program : TsSession M → TsSession M
  enable_program s =
      if s.program_enabled
      then s
      else record s { muxer = mux.add_program s.muxer; program_enabled = true }

  abbrev pub with_video : TsSession M → Option TsStream × M → Bool × TsSession M
  with_video s (none, muxer) = (false, record s { muxer = muxer })
  with_video s (some st, muxer) = (true, record s { muxer = muxer; video_stream = some st })

  abbrev pub with_audio : TsSession M → Option TsStream × M → Bool × TsSession M
  with_audio s (none, muxer) = (false, record s { muxer = muxer })
  with_audio s (some st, muxer) = (true, record s { muxer = muxer; audio_stream = some st })

  unfoldable pub add_video : TsSession M → TsMeta → Bool × TsSession M
  unfolding add_stream
  add_video s m = elim s.video_stream [
    | some st ↦ (true, s)
    | none ↦
        if m.avc_profile == 0
        then (true, s)
        else with_video s (add_stream video_codecs m.video_codec s.muxer)
  ]

  unfoldable pub add_audio : TsSession M → TsMeta → Bool × TsSession M
  unfolding add_stream
  add_audio s m = elim s.audio_stream [
    | some st ↦ (true, s)
    | none ↦
        if m.aac_profile == 0
        then (true, s)
        else with_audio s (add_stream audio_codecs m.audio_codec s.muxer)
  ]

  module _ (header_ok : Bool) where
    abbrev pub then_header : Bool × TsSession M → Bool × TsSession M
    then_header (false, s) = (false, s)
    then_header (true, s) = (header_ok, record s { items = s.items ++ header_item ∷ [] })

    unfoldable pub then_audio : TsMeta → Bool × TsSession M → Bool × TsSession M
    unfolding add_audio
    then_audio m (false, s) = (false, s)
    then_audio m (true, s) = then_header (add_audio s m)

    unfoldable pub handle_meta : TsSession M → TsMeta → Bool × TsSession M
    unfolding enable_program add_video then_audio
    handle_meta s m = then_audio m (add_video (enable_program s) m)

    module _ (file_ok item_ok : ℕ → Bool) (reaches : ℤ → Bool) where
      unfoldable pub by_input : TsSession M → Input → Bool × TsSession M
      unfolding handle_frame handle_meta
      by_input s (media m) = handle_frame mux file_ok item_ok reaches s m
      by_input s (metadata m) = handle_meta s m
      by_input s unknown = (true, s)

      unfoldable pub do_write_frame : TsSession M → Input → Bool × TsSession M
      unfolding by_input
      do_write_frame s input = if s.complete then (true, s) else by_input s input

      unfoldable pub write_frames : TsSession M → List Input → Bool × TsSession M
      unfolding do_write_frame
      write_frames s [] = (true, s)
      write_frames s (input ∷ inputs) =
          let (ok, s') = do_write_frame s input in
          let rest = write_frames s' inputs in if ok then rest else (false, s')
