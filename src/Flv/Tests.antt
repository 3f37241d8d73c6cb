-- ===== src/Flv/Tests.antt =====
-- The FLV and AMF0 codecs of 3rd/libflv at concrete tags and values.
use seastar_live.Prelude.{ℕ, refl, List, [], ◌∷◌, arith, inr}
use seastar_live.Prelude.Int.{ℤ, pos}
use seastar_live.Flv.Header.{TagHeader, AudioTagHeader, VideoTagHeader}
use seastar_live.Flv.Header.RoundTrip.{IsTag, IsAudioTag, IsVideoTag}
use seastar_live.Flv.Parser.{Sample}

abbrev video_tag : TagHeader
video_tag = record { filter = 0; type = 9; size = 300; timestamp = 16777217; stream_id = 0 }

video_tag-IsTag : IsTag video_tag
video_tag-IsTag = record {
  type_ok = refl;
  filter_ok = omega arith;
  size_ok = omega arith;
  timestamp_ok = omega arith;
  stream_id_ok = omega arith;
}

abbrev aac : AudioTagHeader
aac = record { codecid = 160; rate = 3; bits = 1; channels = 1; avpacket = 1 }

aac-IsAudioTag : IsAudioTag aac
aac-IsAudioTag = record {
  codec = 10;
  codec_ok = omega arith;
  codecid_is = refl;
  rate_ok = omega arith;
  bits_ok = omega arith;
  channels_ok = omega arith;
  packet_ok = λ h. (refl, refl, refl, refl);
}

-- A key frame shown 8 milliseconds before its decoding time, as far as the format allows it.
abbrev h264 : VideoTagHeader
h264 = record { codecid = 7; keyframe = 1; avpacket = 1; cts = 4294967288 }

h264-IsVideoTag : IsVideoTag h264
h264-IsVideoTag = record {
  codecid_ok = omega arith;
  keyframe_ok = omega arith;
  packet_ok = λ h. refl;
  cts_ok = inr (omega arith, omega arith);
}

abbrev unset : VideoTagHeader
unset = record { codecid = 0; keyframe = 0; avpacket = 0; cts = 0 }

-- A handler that keeps its calls.
abbrev keep_sample : Sample → List Sample → ℤ × List Sample
keep_sample a s = (pos 0, a ∷ s)

abbrev live : List ℕ
live = 108 ∷ 105 ∷ 118 ∷ 101 ∷ []
