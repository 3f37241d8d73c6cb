-- ===== src/Hls/Fragments.antt =====
-- src/session/hls/play_session_v3.cc: a player that muxes frames into MPEG-TS fragments and writes each as a file.
-- The MPEG-TS muxer and the bitstream converters are libraries: their functions are arguments, a `Muxer` over its
-- state. `ts_write` answers whether it succeeds and what it passes to `on_data`, in order. `emitted` is all the
-- bytes that were, beside the source's state; `files` is the fragments whose file was written and `items`
-- what add_play_item was called with. A result that is false is a future that fails or a throw. The clock is
-- past the epoch of fragment ids; sizes are below the limit of a size_t and times below those of an int64_t.
pub mod Write
pub mod Held
pub mod Whole
pub mod Run
mod Tests
use seastar_live.Prelude.{
  ℕ, zero, suc, ◌+◌, ◌-◌, ◌*◌, ◌/◌, ◌%◌, ◌^◌, ◌≤◌, ◌<◌, min, ◌≡◌, refl, sym, ap, ap₂, ◌∙◌, ◌≢◌, ◌↔◌,
  ◌⊎◌, inl, inr, Bool, true, false, ◌&&◌, ◌||◌, not, Option, none, some, List, [], ◌∷◌, ◌++◌, map,
  append-nil, append_assoc, arith, ltb, leb, ◌==◌, if◌then◌else◌, if_keeps, if_then, if_else,
  ltb→lt, lt→ltb, leb→le, ==_iff, tests, Bool-cases, Option-cases, length, get_elem?, set,
  length-append, get_or, take, drop, replicate, take-append-drop,
}
use seastar_live.Prelude.Int.{ℤ, pos, ◌+ℤ◌, ◌-ℤ◌, negsuc}

pub record TsFragment : Type 0 where
  pub id : ℕ
  pub first_dts : ℤ
  pub first_pts : ℤ
  pub start_by_keyframe : Bool
  pub size : ℕ
  pub bufs : List (List ℕ)

pub record TsFrame : Type 0 where
  pub is_video : Bool
  pub is_keyframe : Bool
  pub dts : ℤ
  pub cts : ℕ
  pub payload : List ℕ

-- What the session reads of a stream's metadata.
pub record TsMeta : Type 0 where
  pub video_codec : ℕ
  pub avc_profile : ℕ
  pub audio_codec : ℕ
  pub aac_profile : ℕ

pub data Input : Type 0 where
  media : TsFrame → Input
  metadata : TsMeta → Input
  unknown : Input

pub record TsStream : Type 0 where
  pub stream_id : ℕ
  pub codec_id : ℕ

pub record TsInfo : Type 0 where
  pub id : ℕ
  pub pts : ℤ
  pub duration : ℤ
  pub start_by_keyframe : Bool
  pub size : ℕ

pub data PlayItem : Type 0 where
  fragment_item : TsInfo → PlayItem
  header_item : PlayItem

pub record TsSession (M : Type 0) : Type 0 where
  pub muxer : M
  pub program_enabled : Bool
  pub video_stream : Option TsStream
  pub audio_stream : Option TsStream
  pub next_fragment_id : ℕ
  pub fragment : Option TsFragment
  pub complete : Bool
  pub files : List TsFragment
  pub items : List PlayItem
  pub emitted : List ℕ

-- `convert_avc` and its kin answer `none` where they are negative.
pub record Muxer (M : Type 0) : Type 0 where
  pub add_program : M → M
  pub add_program_stream : M → Option ℕ → Option ℕ × M
  pub reset : M → M
  pub ts_write : M → ℕ → Bool → ℤ → ℤ → List ℕ → Bool × List (List ℕ) × M
  pub convert_avc : List ℕ → Option (List ℕ)
  pub convert_hevc : List ℕ → Option (List ℕ)
  pub adts_save : ℕ → Option (List ℕ)

abbrev pub flv_video_h264 : ℕ
flv_video_h264 = 7

abbrev pub flv_video_h265 : ℕ
flv_video_h265 = 12

abbrev pub flv_audio_aac : ℕ
flv_audio_aac = 160

abbrev pub choose : {A : Type 0} → List (ℕ × A) → A → ℕ → A
choose [] last v = last
choose ((k, a) ∷ cs) last v = if v == k then a else choose cs last v

-- `none` is -1.
unfoldable pub flv_to_mpeg_ts_codecid : ℕ → Option ℕ
flv_to_mpeg_ts_codecid =
    choose
      ((flv_video_h264, some 0x1b)
        ∷ (flv_video_h265, some 0x24)
        ∷ (flv_audio_aac, some 0x0f)
        ∷ (32, some 0x04)
        ∷ (208, some 0x9c)
        ∷ (112, some 0x90)
        ∷ (128, some 0x91)
        ∷ (13, some 0x9f)
        ∷ [])
      none

unfoldable pub write_fragment : TsFragment → List ℕ → TsFragment
write_fragment f [] = f
write_fragment f (b ∷ bs) = record f {
  size = f.size + length (b ∷ bs);
  bufs = f.bufs ++ (b ∷ bs) ∷ [];
}

unfoldable pub is_timeout_fragment : (ℤ → Bool) → TsFragment → TsFrame → Bool
is_timeout_fragment reaches f m = reaches (m.dts -ℤ f.first_dts)

-- `reaches` is the comparison with the setting hls_ts_fragment_duration.
unfoldable pub is_fragment_header_frame : (ℤ → Bool) → TsFragment → TsFrame → Bool
unfolding is_timeout_fragment
is_fragment_header_frame reaches f m =
    (m.is_video && m.is_keyframe) || is_timeout_fragment reaches f m

unfoldable pub make_fragment_info : TsFragment → TsFrame → Option TsInfo
make_fragment_info f m =
    if f.size == 0
    then none
    else some record {
      id = f.id;
      pts = f.first_pts;
      duration = m.dts -ℤ f.first_dts;
      start_by_keyframe = f.start_by_keyframe;
      size = f.size;
    }

abbrev pub joined : List (List ℕ) → List ℕ
joined [] = []
joined (b ∷ bs) = b ++ joined bs

abbrev pub times_90 : ℤ → ℤ
times_90 (pos n) = pos (n * 90)
times_90 (negsuc n) = negsuc (n * 90 + 89)

module _ {M : Type 0} where
  unfoldable pub make_fragment : TsSession M → TsFrame → TsFragment × TsSession M
  make_fragment s m = (
    record {
      id = s.next_fragment_id + 1;
      first_dts = m.dts;
      first_pts = m.dts +ℤ pos m.cts;
      start_by_keyframe = m.is_keyframe;
      size = 0;
      bufs = [];
    },
    record s { next_fragment_id = s.next_fragment_id + 1 },
  )

  -- `if (!_fragment) _fragment = make_fragment(frame);`: the fragment, and the session that has it.
  unfoldable pub with_fragment : TsSession M → TsFrame → TsFragment × TsSession M
  unfolding make_fragment
  with_fragment s m = elim s.fragment [
    | some f ↦ (f, s)
    | none ↦ let (f, s') = make_fragment s m in (f, record s' { fragment = some f })
  ]

  -- `on_data`
  unfoldable pub on_data : TsSession M → TsFragment → List ℕ → TsFragment × TsSession M
  unfolding write_fragment
  on_data s f b =
      let f' = write_fragment f b in (f', record s { fragment = some f'; emitted = s.emitted ++ b })

  unfoldable pub on_each_data : TsSession M → TsFragment → List (List ℕ) → TsFragment × TsSession M
  unfolding on_data
  on_each_data s f [] = (f, s)
  on_each_data s f (b ∷ bs) = let (f', s') = on_data s f b in on_each_data s' f' bs

  module _ (mux : Muxer M) where
    unfoldable pub to_aac_adts : List ℕ → Option (List ℕ)
    to_aac_adts bytes = elim (mux.adts_save (length bytes)) [
      | none ↦ none
      | some header ↦ some (header ++ bytes)
    ]

    unfoldable pub make_frame_data : ℕ → List ℕ → Option (List ℕ)
    unfolding to_aac_adts
    make_frame_data codec_id bytes =
        if codec_id == flv_video_h264
        then mux.convert_avc bytes
        else if codec_id == flv_video_h265
        then mux.convert_hevc bytes
        else if codec_id == flv_audio_aac
        then to_aac_adts bytes
        else none

    abbrev pub frame_on : TsFrame → Option TsStream → Option (ℕ × List ℕ)
    unfolding make_frame_data
    frame_on m none = none
    frame_on m (some st) = elim (make_frame_data st.codec_id m.payload) [
      | none ↦ none
      | some bytes ↦ some (st.stream_id, bytes)
    ]

    -- The stream of the frame and its data, or a throw.
    unfoldable pub make_ts_frame : TsSession M → TsFrame → Option (ℕ × List ℕ)
    unfolding frame_on make_frame_data
    make_ts_frame s m = frame_on m (if m.is_video then s.video_stream else s.audio_stream)

    unfoldable pub write_made :
        TsFragment → TsSession M → TsFrame → Option (ℕ × List ℕ) → Bool × TsSession M
    unfolding on_each_data
    write_made f s m none = (false, s)
    write_made f s m (some (stream_id, bytes)) =
        let (ok, chunks, muxer) =
          mux.ts_write s.muxer stream_id (not m.is_keyframe) (times_90 (m.dts +ℤ pos m.cts))
            (times_90 m.dts) bytes in
        (ok, (on_each_data (record s { muxer = muxer }) f chunks).1)

    unfoldable pub write_ts_frame : TsSession M → TsFrame → Bool × TsSession M
    unfolding with_fragment make_ts_frame write_made
    write_ts_frame s m = let (f, s') = with_fragment s m in write_made f s' m (make_ts_frame s' m)

    -- The file of a fragment is written, and the item added, or not; by the fragment's id.
    module _ (file_ok item_ok : ℕ → Bool) (reaches : ℤ → Bool) where
      unfoldable pub add_fragment_file : TsSession M → TsInfo → TsFragment → Bool × TsSession M
      add_fragment_file s info f =
          if s.complete
          then (true, s)
          else if file_ok f.id
          then (
            item_ok f.id,
            record s { files = s.files ++ f ∷ []; items = s.items ++ fragment_item info ∷ [] },
          )
          else (false, s)

      abbrev pub dump_info : TsSession M → TsFragment → Option TsInfo → Bool × TsSession M
      unfolding add_fragment_file
      dump_info s f none = (true, s)
      dump_info s f (some info) = add_fragment_file s info f

      unfoldable pub dump_fragment : TsSession M → TsFragment → TsFrame → Bool × TsSession M
      unfolding make_fragment_info dump_info add_fragment_file
      dump_fragment s f m = dump_info s f (make_fragment_info f m)

      unfoldable pub handle_frame : TsSession M → TsFrame → Bool × TsSession M
      unfolding with_fragment is_fragment_header_frame dump_fragment write_ts_frame
      handle_frame s m =
          let (f, s') = with_fragment s m in
          let (ok, dumped) = dump_fragment (record s' { muxer = mux.reset s'.muxer }) f m in
          if is_fragment_header_frame reaches f m
          then if ok then write_ts_frame (record dumped { fragment = none }) m else (false, dumped)
          else write_ts_frame s' m
