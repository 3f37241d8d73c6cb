-- ===== src/Session/Play/Written.antt =====
-- What a player writes (src/session/play_session.cc) of the frames it takes from its queue.
use seastar_live.Prelude.{
  ◌≡◌, refl, true, false, none, some, List, [], ◌∷◌, ◌++◌, arith, if◌then◌else◌,
}
use seastar_live.Frame.{Frame, Metadata, media, metadata, blank, is_enabled}
use seastar_live.Session.Publish.Delivery.{no_blank}
use seastar_live.Session.Play.{
  PipeState, Chunk, flv_header, script_tag, audio_header_tag, video_header_tag, media_tag,
  write_meta, write_media, write_frame, write_frames,
}

unfoldable pub meta_tags : Metadata → List Chunk
meta_tags m =
    script_tag m ∷ (if is_enabled m.audio then audio_header_tag m ∷ [] else [])
    ++ (if is_enabled m.video then video_header_tag m ∷ [] else [])

-- The tags of frames, each media frame with the metadata before it; `m` is that so far.
unfoldable pub tags : Metadata → List Frame → List Chunk
unfolding meta_tags
tags m [] = []
tags m (metadata n ∷ fs) = meta_tags n ++ tags n fs
tags m (media x ∷ fs) = media_tag m x ∷ tags m fs
tags m (blank ∷ fs) = tags m fs

unfoldable pub last_meta : Metadata → List Frame → Metadata
last_meta m [] = m
last_meta m (metadata n ∷ fs) = last_meta n fs
last_meta m (media x ∷ fs) = last_meta m fs
last_meta m (blank ∷ fs) = last_meta m fs

abbrev sent : Metadata → PipeState
sent m = record { flv_header_sent = true; meta = some m }

write_frames-sent :
    (m : Metadata) (fs : List Frame)
    → no_blank fs ≡ true
    → write_frames (sent m) fs ≡ some (sent (last_meta m fs), tags m fs)
unfolding write_frames write_frame write_meta write_media tags last_meta no_blank meta_tags
write_frames-sent m [] n = refl
write_frames-sent m (metadata k ∷ fs) n = rw (write_frames-sent k fs n) refl
write_frames-sent m (media x ∷ fs) n = rw (write_frames-sent m fs n) refl
write_frames-sent m (blank ∷ fs) n = absurd (ground arith)

-- What is written of frames that start with metadata, of which none has neither flag: the assertion
-- on the metadata never fails, and the output is one FLV header, that of the first metadata, and
-- then the tags of all frames in order.
pub write_frames-tags :
    (m : Metadata) (fs : List Frame)
    → no_blank fs ≡ true
    → write_frames (record { flv_header_sent = false; meta = none }) (metadata m ∷ fs)
      ≡ some (
        sent (last_meta m fs),
        flv_header (is_enabled m.audio) (is_enabled m.video) ∷ tags m (metadata m ∷ fs),
      )
unfolding write_frames write_frame write_meta write_media tags meta_tags
write_frames-tags m fs n = rw (write_frames-sent m fs n) refl
