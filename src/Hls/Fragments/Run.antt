-- ===== src/Hls/Fragments/Run.antt =====
-- A player of HLS fragments (src/session/hls/play_session_v3.cc) from its start to the first write that fails.
use seastar_live.Prelude.{
  ℕ, ◌≡◌, refl, Bool, true, false, Option, none, some, List, [], ◌∷◌, arith, ◌==◌, if◌then◌else◌,
  if_keeps, if_else,
}
use seastar_live.Prelude.Int.{ℤ}
use seastar_live.Hls.Fragments.{TsMeta, TsStream, TsSession, Input, media, metadata, unknown, Muxer}
use seastar_live.Hls.Fragments.Write.{
  add_video, add_audio, by_input, enable_program, with_video, with_audio, then_header, then_audio,
  handle_meta, do_write_frame, write_frames,
}
use seastar_live.Hls.Fragments.Held.{file_bytes, Ascends, Sized, Held}
use seastar_live.Hls.Fragments.Whole.{
  new_session, Whole, Landed, Landed-either, handle_frame-Landed,
}

module _ {M : Type 0} (mux : Muxer M) (file_ok item_ok : ℕ → Bool) (reaches : ℤ → Bool) where
  then_header-Landed :
      (header_ok ok : Bool) (s : TsSession M)
      → Whole s
      → s.complete ≡ false
      → Landed (then_header mux header_ok (ok, s))
  unfolding Whole
  then_header-Landed header_ok false s w c = Landed-either false s w c
  then_header-Landed header_ok true s w c = Landed-either header_ok _ w c

  -- Keeps all but the muxer, the streams and the items.
  abbrev pub Kin : TsSession M → Bool × TsSession M → Type 0
  Kin s (ok, s') = Whole s' × (s'.complete ≡ false)

  with_video-Kin :
      (s : TsSession M) (r : Option TsStream × M)
      → Whole s
      → s.complete ≡ false
      → Kin s (with_video mux s r)
  unfolding Whole
  with_video-Kin s (none, k) w c = (w, c)
  with_video-Kin s (some st, k) w c = (w, c)

  with_audio-Kin :
      (s : TsSession M) (r : Option TsStream × M)
      → Whole s
      → s.complete ≡ false
      → Kin s (with_audio mux s r)
  unfolding Whole
  with_audio-Kin s (none, k) w c = (w, c)
  with_audio-Kin s (some st, k) w c = (w, c)

  add_video_of :
      (o : Option TsStream) (s : TsSession M) (m : TsMeta)
      → Whole s
      → s.complete ≡ false
      → Kin s (add_video mux (record s { video_stream = o }) m)
  unfolding add_video Whole
  add_video_of (some st) s m w c = (w, c)
  add_video_of none s m w c =
      if_keeps (Kin s) (m.avc_profile == 0) (w, c)
        (with_video-Kin (record s { video_stream = none }) _ w c)

  add_video-Kin :
      (s : TsSession M) (m : TsMeta) → Whole s → s.complete ≡ false → Kin s (add_video mux s m)
  add_video-Kin s m = add_video_of s.video_stream s m

  add_audio_of :
      (o : Option TsStream) (s : TsSession M) (m : TsMeta)
      → Whole s
      → s.complete ≡ false
      → Kin s (add_audio mux (record s { audio_stream = o }) m)
  unfolding add_audio Whole
  add_audio_of (some st) s m w c = (w, c)
  add_audio_of none s m w c =
      if_keeps (Kin s) (m.aac_profile == 0) (w, c)
        (with_audio-Kin (record s { audio_stream = none }) _ w c)

  add_audio-Kin :
      (s : TsSession M) (m : TsMeta) → Whole s → s.complete ≡ false → Kin s (add_audio mux s m)
  add_audio-Kin s m = add_audio_of s.audio_stream s m

  then_audio-Landed :
      (header_ok ok : Bool) (s : TsSession M) (m : TsMeta)
      → Whole s
      → s.complete ≡ false
      → Landed (then_audio mux header_ok m (ok, s))
  unfolding then_audio
  then_audio-Landed header_ok false s m w c = Landed-either false s w c
  then_audio-Landed header_ok true s m w c =
      let (ok, s') = add_audio mux s m in
      let (w', c') = add_audio-Kin s m w c in then_header-Landed header_ok ok s' w' c'

  enable_program-Kin :
      (s : TsSession M) → Whole s → s.complete ≡ false → Kin s (true, enable_program mux s)
  unfolding enable_program Whole
  enable_program-Kin s w c = if_keeps (λ x. Kin s (true, x)) s.program_enabled (w, c) (w, c)

  module _ (header_ok : Bool) where
    handle_meta-Landed :
        (s : TsSession M) (m : TsMeta)
        → Whole s
        → s.complete ≡ false
        → Landed (handle_meta mux header_ok s m)
    unfolding handle_meta
    handle_meta-Landed s m w c =
        let (w1, c1) = enable_program-Kin s w c in
        let (ok, s') = add_video mux (enable_program mux s) m in
        let (w', c') = add_video-Kin (enable_program mux s) m w1 c1 in
        then_audio-Landed header_ok ok s' m w' c'

    do_write_frame-Landed :
        (s : TsSession M) (input : Input)
        → Whole s
        → s.complete ≡ false
        → Landed (do_write_frame mux header_ok file_ok item_ok reaches s input)
    unfolding do_write_frame by_input
    do_write_frame-Landed s (media m) w c =
        if_else Landed _ c (handle_frame-Landed mux file_ok item_ok reaches s m w c)
    do_write_frame-Landed s (metadata m) w c = if_else Landed _ c (handle_meta-Landed s m w c)
    do_write_frame-Landed s unknown w c = if_else Landed _ c (Landed-either true s w c)

    then_frames-Landed :
        (ok : Bool) (s : TsSession M) (inputs : List Input)
        → (Whole s
            → s.complete ≡ false
            → Landed (write_frames mux header_ok file_ok item_ok reaches s inputs))
        → Landed (ok, s)
        → Landed
            (if ok then write_frames mux header_ok file_ok item_ok reaches s inputs else (false, s))
    unfolding Landed
    then_frames-Landed true s inputs k (w, c) = k w c
    then_frames-Landed false s inputs k l = l

    write_all-Landed :
        (s : TsSession M) (inputs : List Input)
        → Whole s
        → s.complete ≡ false
        → Landed (write_frames mux header_ok file_ok item_ok reaches s inputs)
    unfolding write_frames
    write_all-Landed s [] w c = Landed-either true s w c
    write_all-Landed s (input ∷ inputs) w c =
        let (ok, s') = do_write_frame mux header_ok file_ok item_ok reaches s input in
        then_frames-Landed ok s' inputs (write_all-Landed s' inputs)
          (do_write_frame-Landed s input w c)

    -- A player of HLS fragments that was just made and writes any frames, to the first write that fails:
    -- where all writes succeeded, what the muxer passed to on_data, in order, is what the files of
    -- the fragments hold, in order, and the fragment that is not yet written after them; their ids
    -- rise and are at most the last id given; and the fragment's size is that of its bytes. Where a write
    -- failed, all of that holds, or the bytes are what the files hold.
    pub write_frames-Landed :
        (muxer : M) (now : ℕ) (inputs : List Input)
        → Landed (write_frames mux header_ok file_ok item_ok reaches (new_session muxer now) inputs)
    unfolding Whole Held Ascends Sized file_bytes
    write_frames-Landed muxer now inputs =
        write_all-Landed (new_session muxer now) inputs (refl, omega arith, tt) refl
