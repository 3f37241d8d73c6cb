-- ===== src/Flv/Parser/Tag.antt =====
-- What `flv_parser_tag` (3rd/libflv/source/flv-parser.c) hands over.
use seastar_live.Prelude.{
  ℕ, ◌+◌, ◌*◌, ◌/◌, ◌%◌, ◌^◌, ◌≡◌, refl, List, [], ◌∷◌, ◌++◌, true, false, arith, if◌then◌else◌,
  ◌==◌, drop, length,
}
use seastar_live.Prelude.Int.{ℤ}
use seastar_live.Flv.Header.{
  VideoTagHeader, video_bytes, audio_tag_header_read, data_tag_header_read, has_aac_packet,
  has_avc_packet, flv_type_audio, flv_type_video, flv_type_script, flv_avpacket,
}
use seastar_live.Flv.Header.RoundTrip.{IsVideoTag, video_tag_header_read-video_tag_header_write}
use seastar_live.Flv.Parser.{
  Sample, parser_audio, parser_video, parser_script, parser_tag, flv_audio_opus_head,
  flv_script_metadata,
}

drop_length : (bs : List ℕ) → drop (length bs) bs ≡ []
drop_length [] = refl
drop_length (b ∷ bs) = drop_length bs

module _ {S : Type 0} (handler : Sample → S → ℤ × S) where
  -- Whatever a script tag that is not empty holds, `flv_parser_tag` hands an empty body over.
  parser_tag_script_empty :
      (audio₀ : ℕ) (video₀ : VideoTagHeader) (b : ℕ) (bs : List ℕ) (timestamp : ℕ) (s : S)
      → parser_tag handler audio₀ video₀ flv_type_script (b ∷ bs) timestamp s
        ≡ handler
            (record {
              codec = flv_script_metadata;
              body = [];
              pts = timestamp;
              dts = timestamp;
              flags = 0;
            })
            s
  unfolding parser_tag parser_script data_tag_header_read
  parser_tag_script_empty audio₀ video₀ b bs timestamp s = rw (drop_length bs)

  -- An audio codec with no packet type is reported as an Opus header if the byte of the
  -- uninitialised struct is 0, and as itself if it is not.
  parser_tag_audio_unset :
      (audio₀ : ℕ) (video₀ : VideoTagHeader) (b : ℕ) (bs : List ℕ) (timestamp : ℕ) (s : S)
      → has_aac_packet (b / 16 * 16) ≡ false
      → parser_tag handler audio₀ video₀ flv_type_audio (b ∷ bs) timestamp s
        ≡ handler
            (record {
              codec = if audio₀ == 0 then flv_audio_opus_head else b / 16 * 16;
              body = bs;
              pts = timestamp;
              dts = timestamp;
              flags = 0;
            })
            s
  unfolding parser_tag parser_audio audio_tag_header_read
  parser_tag_audio_unset audio₀ video₀ b [] timestamp s h = ground arith
  parser_tag_audio_unset audio₀ video₀ b (c ∷ bs) timestamp s h = ground arith

  -- A coded frame that the FLV writer put behind a video tag header comes out with its codec, its
  -- bytes, the decoding time of the tag, the presentation time shifted by the composition time, and
  -- the key frame flag.
  parser_tag-video_bytes :
      (audio₀ : ℕ) (video₀ v : VideoTagHeader) (body : List ℕ) (timestamp : ℕ) (s : S)
      → IsVideoTag v
      → has_avc_packet v.codecid ≡ true
      → v.avpacket ≡ flv_avpacket
      → parser_tag handler audio₀ video₀ flv_type_video ((video_bytes v).0 ++ body) timestamp s
        ≡ handler
            (record {
              codec = v.codecid;
              body = body;
              pts = (timestamp + v.cts) % 2 ^ 32;
              dts = timestamp;
              flags = if v.keyframe == 1 then 1 else 0;
            })
            s
  unfolding parser_tag parser_video
  parser_tag-video_bytes audio₀ video₀ v body timestamp s i h e =
      ground (arith, video_tag_header_read-video_tag_header_write v video₀ 5 body i)
