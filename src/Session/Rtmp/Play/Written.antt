-- ===== src/Session/Rtmp/Play/Written.antt =====
-- The player of an RTMP connection (src/session/rtmp/play_session.cc) writes only the media that it allows.
use seastar_live.Prelude.{
  ℕ, ◌≡◌, refl, sym, inl, inr, Bool, true, false, ◌||◌, not, Option, none, some, List, [], ◌∷◌,
  ◌++◌, arith, ◌==◌, if◌then◌else◌, if_then, if_else, Bool-cases,
}
use seastar_live.Prelude.Int.{ℤ, pos}
use Prim.Native.Nat.{bit_and}
use mathlib.Core.Path.{subst}
use seastar_live.Frame.{
  Frame, Media, Metadata, media, metadata, blank, media_type, media_none, media_audio, media_video,
  is_enabled,
}
use seastar_live.Frame.Queue.{FrameQueue, empty_queue}
use seastar_live.Frame.Queue.Tracked.{medias}
use seastar_live.Session.Rtmp.Publish.{Packet, PacketType, video, audio, script}
use seastar_live.Session.Rtmp.Play.{
  Tags, RtmpPlayer, allow_rtmp_type, packet_of, write_audio_metadata, write_video_metadata,
  written_metadata, write_metadata, write_rtmp_media, write_rtmp_frame, write_rtmp_frames,
  write_turns,
}
use seastar_live.Session.Rtmp.Play.Allowed.{
  is_allowed, all_allowed, RtmpCall, rtmp_calls, all_allowed-append, allows, turns_allow, Fit,
  FitPlayer, rtmp_calls-FitPlayer,
}

module _ (tags : Tags) where
  packet_of-all_allowed :
      (types : ℕ) (type : PacketType) (dts : ℤ) (bytes : List ℕ)
      → is_allowed types type ≡ true
      → all_allowed types (packet_of tags type dts bytes) ≡ true
  unfolding all_allowed
  packet_of-all_allowed types type dts [] a = refl
  packet_of-all_allowed types type dts (b ∷ bs) a = ground arith

  write_audio_metadata-all_allowed :
      (p : RtmpPlayer) (m : Metadata)
      → all_allowed p.media_types (write_audio_metadata tags p m) ≡ true
  unfolding write_audio_metadata all_allowed is_allowed allow_rtmp_type
  write_audio_metadata-all_allowed p m =
      let P = λ (xs : List Packet). all_allowed p.media_types xs ≡ true in
      elim (Bool-cases (not (is_enabled m.audio) || not (allow_rtmp_type p media_audio))) [
        | inl b ↦ if_then P _ b refl
        | inr b ↦
            if_else P _ b
              (packet_of-all_allowed p.media_types audio (pos 0) (tags.audio_data m) (ground arith))
      ]

  write_video_metadata-all_allowed :
      (p : RtmpPlayer) (m : Metadata)
      → all_allowed p.media_types (write_video_metadata tags p m) ≡ true
  unfolding write_video_metadata all_allowed is_allowed allow_rtmp_type
  write_video_metadata-all_allowed p m =
      let P = λ (xs : List Packet). all_allowed p.media_types xs ≡ true in
      elim (Bool-cases (not (is_enabled m.video) || not (allow_rtmp_type p media_video))) [
        | inl b ↦ if_then P _ b refl
        | inr b ↦
            if_else P _ b
              (packet_of-all_allowed p.media_types video (pos 0) (tags.video_data m) (ground arith))
      ]

  write_metadata-all_allowed :
      (p : RtmpPlayer) (m : Metadata) → all_allowed p.media_types (write_metadata tags p m) ≡ true
  unfolding write_metadata is_allowed
  write_metadata-all_allowed p m =
      let n = written_metadata tags p m in
      let a = packet_of tags script (pos 0) (tags.script_data n) in
      let b = write_audio_metadata tags p n in
      all_allowed-append p.media_types (a ++ b) (write_video_metadata tags p n)
        (all_allowed-append p.media_types a b
          (packet_of-all_allowed p.media_types script (pos 0) (tags.script_data n) refl)
          (write_audio_metadata-all_allowed p n))
        (write_video_metadata-all_allowed p n)

  type_allowed :
      (types : ℕ) (b : Bool)
      → not (bit_and types (if b then media_video else media_audio) == media_none) ≡ true
      → is_allowed types (if b then video else audio) ≡ true
  unfolding is_allowed
  type_allowed types true a = a
  type_allowed types false a = a

  write_rtmp_media-all_allowed :
      (types : ℕ) (st : Option Metadata) (m : Media)
      → not (bit_and types (media_type m) == media_none) ≡ true
      → all_allowed types (write_rtmp_media tags st m) ≡ true
  unfolding write_rtmp_media all_allowed is_allowed
  write_rtmp_media-all_allowed types none m a = refl
  write_rtmp_media-all_allowed types (some n) m a =
      packet_of-all_allowed types (if m.is_video then video else audio) m.dts (tags.media_data n m)
        (type_allowed types m.is_video a)

  write_rtmp_frames-all_allowed :
      (p : RtmpPlayer) (st : Option Metadata) (fs : List Frame)
      → allows p.media_types (medias fs) ≡ true
      → all_allowed p.media_types (write_rtmp_frames tags p st fs).0 ≡ true
  unfolding write_rtmp_frames write_rtmp_frame allows all_allowed
  write_rtmp_frames-all_allowed p st [] a = refl
  write_rtmp_frames-all_allowed p st (media m ∷ fs) a =
      all_allowed-append p.media_types (write_rtmp_media tags st m)
        (write_rtmp_frames tags p st fs).0
        (write_rtmp_media-all_allowed p.media_types st m (ground arith))
        (write_rtmp_frames-all_allowed p st fs (ground arith))
  write_rtmp_frames-all_allowed p st (metadata m ∷ fs) a =
      all_allowed-append p.media_types (write_metadata tags p m)
        (write_rtmp_frames tags p (some m) fs).0 (write_metadata-all_allowed p m)
        (write_rtmp_frames-all_allowed p (some m) fs a)
  write_rtmp_frames-all_allowed p st (blank ∷ fs) a = write_rtmp_frames-all_allowed p st fs a

  write_turns-all_allowed :
      (p : RtmpPlayer) (st : Option Metadata) (turns : List (List Frame))
      → turns_allow p.media_types turns ≡ true
      → all_allowed p.media_types (write_turns tags p st turns) ≡ true
  unfolding write_turns turns_allow all_allowed
  write_turns-all_allowed p st [] a = refl
  write_turns-all_allowed p st ([] ∷ turns) a = refl
  write_turns-all_allowed p st ((f ∷ fs) ∷ turns) a =
      all_allowed-append p.media_types (write_rtmp_frames tags p st (f ∷ fs)).0
        (write_turns tags p (write_rtmp_frames tags p st (f ∷ fs)).1 turns)
        (write_rtmp_frames-all_allowed p st (f ∷ fs) (ground arith))
        (write_turns-all_allowed p (write_rtmp_frames tags p st (f ∷ fs)).1 turns (ground arith))

  -- A player whose queue is empty at first, and has given nothing, writes only scripts and the types of media that
  -- it allows, whatever frames and calls come before its writes.
  pub rtmp_calls-all_allowed :
      (max_bytes : ℕ) (too_long : FrameQueue → Bool) (p : RtmpPlayer) (cs : List RtmpCall)
      → p.rtmp_queue.base ≡ empty_queue
      → p.rtmp_queue.taken ≡ []
      → let q = rtmp_calls max_bytes too_long p cs in
        all_allowed p.media_types (write_turns tags q none q.rtmp_queue.taken) ≡ true
  unfolding FitPlayer Fit allows turns_allow
  rtmp_calls-all_allowed max_bytes too_long p cs a b =
      let q = rtmp_calls max_bytes too_long p cs in
      let (e, k) =
        rtmp_calls-FitPlayer max_bytes too_long p.media_types p cs (refl, rw (a, b) (refl, refl)) in
      subst (λ t. all_allowed t (write_turns tags q none q.rtmp_queue.taken) ≡ true) e
        (write_turns-all_allowed q none q.rtmp_queue.taken
          (subst (λ t. turns_allow t q.rtmp_queue.taken ≡ true) (sym e) k.1))
