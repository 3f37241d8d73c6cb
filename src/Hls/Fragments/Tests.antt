-- ===== src/Hls/Fragments/Tests.antt =====
-- A player of HLS fragments (src/session/hls/play_session_v3.cc) with a muxer that passes each frame on as one piece.
use seastar_live.Prelude.{ℕ, ◌+◌, Bool, true, not, none, some, List, [], ◌∷◌}
use seastar_live.Prelude.Int.{ℤ, pos, ltb_ℤ}
use seastar_live.Hls.Fragments.{TsFrame, Input, media, metadata, Muxer}
use seastar_live.Hls.Fragments.Write.{write_frames}
use seastar_live.Hls.Fragments.Whole.{new_session, Landed}
use seastar_live.Hls.Fragments.Run.{write_frames-Landed}

-- The state of the muxer is the number of its streams.
abbrev muxer : Muxer ℕ
muxer = record {
  add_program = λ n. n;
  add_program_stream = λ n codec. (some (256 + n), n + 1);
  reset = λ n. n;
  ts_write = λ n stream flags pts dts bytes. (true, bytes ∷ [], n);
  convert_avc = λ bytes. some (0 ∷ bytes);
  convert_hevc = λ bytes. none;
  adts_save = λ n. some (255 ∷ []);
}

abbrev keyframe : ℕ → TsFrame
keyframe t = record { is_video = true; is_keyframe = true; dts = pos t; cts = 0; payload = t ∷ [] }

abbrev inputs : List Input
inputs =
    metadata (record { video_codec = 7; avc_profile = 100; audio_codec = 160; aac_profile = 2 })
    ∷ media (keyframe 1)
    ∷ media (keyframe 2)
    ∷ media (keyframe 3)
    ∷ []

abbrev any_file : ℕ → Bool
any_file n = true

abbrev ten_seconds : ℤ → Bool
ten_seconds t = not (ltb_ℤ t (pos 10000))

write_frames-Landed_example :
    Landed (write_frames muxer true any_file any_file ten_seconds (new_session 0 50) inputs)
write_frames-Landed_example =
    write_frames-Landed muxer any_file any_file ten_seconds true 0 50 inputs
