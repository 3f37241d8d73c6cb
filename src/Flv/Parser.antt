-- ===== src/Flv/Parser.antt =====
-- 3rd/libflv/source/flv-parser.c: `flv_parser_tag`, which hands the body of one FLV tag to a handler.
-- The handler is a function of a state `S`. The two header structs are on the stack and start
-- out uninitialised: what they hold is an argument, `audio₀` and `video₀`.
pub mod Tag
use seastar_live.Prelude.{
  ℕ, ◌+◌, ◌%◌, ◌^◌, List, [], ◌∷◌, Option, none, some, Bool, if◌then◌else◌, ◌==◌, drop, length,
}
use seastar_live.Prelude.Int.{ℤ, pos, negsuc}
use seastar_live.Flv.Header.{
  AudioTagHeader, VideoTagHeader, audio_tag_header_read, video_tag_header_read,
  data_tag_header_read, flv_type_audio, flv_type_video, flv_type_script, flv_sequence_header,
  flv_avpacket, flv_end_of_sequence, flv_audio_aac, flv_video_h264, flv_video_h265, has_avc_packet,
}

abbrev pub flv_audio_asc : ℕ
flv_audio_asc = 0x100

abbrev pub flv_audio_opus_head : ℕ
flv_audio_opus_head = 0x101

abbrev pub flv_video_avcc : ℕ
flv_video_avcc = 0x200

abbrev pub flv_video_hvcc : ℕ
flv_video_hvcc = 0x201

abbrev pub flv_video_av1c : ℕ
flv_video_av1c = 0x202

abbrev pub flv_script_metadata : ℕ
flv_script_metadata = 0x300

-- The arguments of a call of the handler.
pub record Sample : Type 0 where
  pub codec : ℕ
  pub body : List ℕ
  pub pts : ℕ
  pub dts : ℕ
  pub flags : ℕ

-- FLV_VIDEO_CODEC_NAME
abbrev pub video_codec_name : ℕ → ℕ
video_codec_name codecid =
    if flv_video_h264 == codecid
    then flv_video_avcc
    else if flv_video_h265 == codecid
    then flv_video_hvcc
    else flv_video_av1c

module _ {S : Type 0} (handler : Sample → S → ℤ × S) where
  unfoldable pub parser_audio : AudioTagHeader → List ℕ → ℕ → S → ℤ × S
  parser_audio audio body timestamp s =
      if flv_sequence_header == audio.avpacket
      then handler
          (record {
            codec = if flv_audio_aac == audio.codecid then flv_audio_asc else flv_audio_opus_head;
            body = body;
            pts = timestamp;
            dts = timestamp;
            flags = 0;
          })
          s
      else handler
          (record {
            codec = audio.codecid;
            body = body;
            pts = timestamp;
            dts = timestamp;
            flags = 0;
          })
          s

  unfoldable pub parser_video : VideoTagHeader → List ℕ → ℕ → S → ℤ × S
  parser_video video body timestamp s =
      let key : ℕ = if video.keyframe == 1 then 1 else 0 in
      if has_avc_packet video.codecid
      then (if flv_sequence_header == video.avpacket
          then handler
              (record {
                codec = video_codec_name video.codecid;
                body = body;
                pts = timestamp;
                dts = timestamp;
                flags = 0;
              })
              s
          else if flv_avpacket == video.avpacket
          then handler
              (record {
                codec = video.codecid;
                body = body;
                pts = (timestamp + video.cts) % 2 ^ 32;
                dts = timestamp;
                flags = key;
              })
              s
          else if flv_end_of_sequence == video.avpacket
          then (pos 0, s)
          else (negsuc 21, s))
      else handler
          (record {
            codec = video.codecid;
            body = body;
            pts = timestamp;
            dts = timestamp;
            flags = key;
          })
          s

  unfoldable pub parser_script : List ℕ → ℕ → S → ℤ × S
  parser_script body timestamp s =
      handler
        (record {
          codec = flv_script_metadata;
          body = body;
          pts = timestamp;
          dts = timestamp;
          flags = 0;
        })
        s

  unfoldable pub parser_tag : ℕ → VideoTagHeader → ℕ → List ℕ → ℕ → S → ℤ × S
  parser_tag audio₀ video₀ type [] timestamp s = (negsuc 21, s)
  parser_tag audio₀ video₀ type (b ∷ bs) timestamp s =
      if type == flv_type_audio
      then elim (audio_tag_header_read audio₀ (b ∷ bs)) [
        | none ↦ (negsuc 0, s)
        | some (audio, n) ↦ parser_audio audio (drop n (b ∷ bs)) timestamp s
      ]
      else if type == flv_type_video
      then elim (video_tag_header_read video₀ (b ∷ bs)) [
        | none ↦ (negsuc 0, s)
        | some (video, n) ↦ parser_video video (drop n (b ∷ bs)) timestamp s
      ]
      else if type == flv_type_script
      then parser_script (drop (data_tag_header_read (b ∷ bs)) (b ∷ bs)) timestamp s
      else (negsuc 0, s)
