-- ===== src/Hls/Fragments/Whole.antt =====
-- What the muxer passes to on_data in a player of HLS fragments (src/session/hls/play_session_v3.cc) is in its
-- files and its fragment.
use seastar_live.Prelude.{
  ℕ, ◌≡◌, refl, ◌⊎◌, inl, inr, Bool, true, false, not, Option, none, some, List, [], ◌∷◌, ◌++◌,
  ◌==◌, if◌then◌else◌, if_keeps, if_then, if_else, Bool-cases,
}
use seastar_live.Prelude.Int.{ℤ, pos, ◌+ℤ◌}
use seastar_live.Hls.Fragments.{
  TsFragment, TsFrame, TsInfo, TsSession, Muxer, PlayItem, fragment_item, dump_info, write_fragment,
  make_fragment, with_fragment, on_data, on_each_data, make_ts_frame, times_90, write_made,
  write_ts_frame, make_fragment_info, add_fragment_file, dump_fragment, is_fragment_header_frame,
  handle_frame,
}
use seastar_live.Hls.Fragments.Held.{
  file_bytes, Held, write_fragment-Held, forget_empty, forget_written, hold_next,
}

module _ {M : Type 0} where
  -- The constructor: the library's muxer, and the seconds since 2022.
  abbrev pub new_session : M → ℕ → TsSession M
  new_session muxer now = record {
    muxer = muxer;
    program_enabled = false;
    video_stream = none;
    audio_stream = none;
    next_fragment_id = now;
    fragment = none;
    complete = false;
    files = [];
    items = [];
    emitted = [];
  }

  unfoldable pub Whole : TsSession M → Type 0
  unfolding Held
  Whole s = Held s.files s.fragment s.emitted s.next_fragment_id

  -- A write that failed may have written the file of the fragment, which the session keeps.
  unfoldable pub Landed : Bool × TsSession M → Type 0
  unfolding Whole
  Landed (true, s) = Whole s × (s.complete ≡ false)
  Landed (false, s) = (Whole s ⊎ (s.emitted ≡ file_bytes s.files)) × (s.complete ≡ false)

  -- A session that has the fragment.
  abbrev pub Has : TsFragment × TsSession M → Type 0
  Has (f, s) = Held s.files (some f) s.emitted s.next_fragment_id × Whole s × (s.complete ≡ false)

  with_fragment_of :
      (o : Option TsFragment) (s : TsSession M) (m : TsFrame)
      → Whole (record s { fragment = o })
      → s.complete ≡ false
      → Has (with_fragment (record s { fragment = o }) m)
  unfolding with_fragment make_fragment Whole
  with_fragment_of (some f) s m w c = (w, w, c)
  with_fragment_of none s m w c =
      let h =
        hold_next s.files (make_fragment s m).0 s.emitted s.next_fragment_id refl refl refl w in
      (h, h, c)

  with_fragment-Has :
      (s : TsSession M) (m : TsFrame) → Whole s → s.complete ≡ false → Has (with_fragment s m)
  with_fragment-Has s m = with_fragment_of s.fragment s m

  on_each_data-Has :
      (s : TsSession M) (f : TsFragment) (bs : List (List ℕ))
      → Has (f, s)
      → Has (on_each_data s f bs)
  unfolding on_each_data on_data Whole
  on_each_data-Has s f [] h = h
  on_each_data-Has s f (b ∷ bs) (h, w, c) =
      let k = write_fragment-Held s.files f s.emitted s.next_fragment_id b h in
      on_each_data-Has (on_data s f b).1 (write_fragment f b) bs (k, k, c)

  pub Landed-either : (ok : Bool) (s : TsSession M) → Whole s → s.complete ≡ false → Landed (ok, s)
  unfolding Landed
  Landed-either true s w c = (w, c)
  Landed-either false s w c = (inl w, c)

  module _ (mux : Muxer M) where
    write_made-Landed :
        (f : TsFragment) (s : TsSession M) (m : TsFrame) (o : Option (ℕ × List ℕ))
        → Has (f, s)
        → Landed (write_made mux f s m o)
    unfolding write_made Whole
    write_made-Landed f s m none (h, w, c) = Landed-either false s w c
    write_made-Landed f s m (some (i, bytes)) (h, w, c) =
        let (ok, chunks, muxer) =
          mux.ts_write s.muxer i (not m.is_keyframe) (times_90 (m.dts +ℤ pos m.cts))
            (times_90 m.dts) bytes in
        let s' = record s { muxer = muxer } in
        let (h', w', c') = on_each_data-Has s' f chunks (h, w, c) in
        Landed-either ok (on_each_data s' f chunks).1 w' c'

    write_ts_frame-Landed :
        (s : TsSession M) (m : TsFrame)
        → Whole s
        → s.complete ≡ false
        → Landed (write_ts_frame mux s m)
    unfolding write_ts_frame
    write_ts_frame-Landed s m w c =
        let (f, s') = with_fragment s m in
        write_made-Landed f s' m (make_ts_frame mux s' m) (with_fragment-Has s m w c)

    module _ (file_ok item_ok : ℕ → Bool) (reaches : ℤ → Bool) where
      -- A dump, whose session is to have no fragment where it succeeded.
      abbrev pub Dumped : Bool × TsSession M → Type 0
      Dumped (true, s) = Whole (record s { fragment = none }) × (s.complete ≡ false)
      Dumped (false, s) = Landed (false, s)

      after_file :
          (ok : Bool) (s : TsSession M) (f : TsFragment) (items : List PlayItem)
          → Has (f, s)
          → Dumped (ok, record s { files = s.files ++ f ∷ []; items = items })
      unfolding Whole Landed
      after_file true s f items (h, w, c) =
          (forget_written s.files f s.emitted s.next_fragment_id h, c)
      after_file false s f items (h, w, c) = (inr (h.0), c)

      add_fragment_file-Dumped :
          (s : TsSession M) (info : TsInfo) (f : TsFragment)
          → Has (f, s)
          → Dumped (add_fragment_file mux file_ok item_ok reaches s info f)
      unfolding add_fragment_file
      add_fragment_file-Dumped s info f (h, w, c) =
          if_else Dumped (true, s) c
            (if_keeps Dumped (file_ok f.id)
              (after_file (item_ok f.id) s f (s.items ++ fragment_item info ∷ []) (h, w, c))
              (Landed-either false s w c))

      dump_fragment-Dumped :
          (s : TsSession M) (f : TsFragment) (m : TsFrame)
          → Has (f, s)
          → Dumped (dump_fragment mux file_ok item_ok reaches s f m)
      unfolding dump_fragment make_fragment_info Whole
      dump_fragment-Dumped s f m (h, w, c) =
          let P = λ (o : Option TsInfo). Dumped (dump_info mux file_ok item_ok reaches s f o) in
          elim (Bool-cases (f.size == 0)) [
            | inl e ↦ if_then P _ e (forget_empty s.files f s.emitted s.next_fragment_id e h, c)
            | inr e ↦ if_else P _ e (add_fragment_file-Dumped s _ f (h, w, c))
          ]

      -- The second half of handle_frame: a write in a session without the fragment that was dumped.
      then_write_ts_frame :
          (ok : Bool) (s : TsSession M) (m : TsFrame)
          → Dumped (ok, s)
          → Landed (if ok then write_ts_frame mux (record s { fragment = none }) m else (false, s))
      then_write_ts_frame true s m (w, c) =
          write_ts_frame-Landed (record s { fragment = none }) m w c
      then_write_ts_frame false s m l = l

      pub handle_frame-Landed :
          (s : TsSession M) (m : TsFrame)
          → Whole s
          → s.complete ≡ false
          → Landed (handle_frame mux file_ok item_ok reaches s m)
      unfolding handle_frame Whole
      handle_frame-Landed s m w c =
          let (f, s') = with_fragment s m in
          let (h, w', c') = with_fragment-Has s m w c in
          let s'' = record s' { muxer = mux.reset s'.muxer } in
          let (ok, dumped) = dump_fragment mux file_ok item_ok reaches s'' f m in
          if_keeps Landed (is_fragment_header_frame reaches f m)
            (then_write_ts_frame ok dumped m (dump_fragment-Dumped s'' f m (h, w', c')))
            (write_ts_frame-Landed s' m w' c')
