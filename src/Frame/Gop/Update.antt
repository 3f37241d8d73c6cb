-- ===== src/Frame/Gop/Update.antt =====
-- The runs of `update_gop` (src/frame/gop_queue.hh) as a relation, for induction on a run.
use seastar_live.Prelude.{
  ◌≡◌, List, [], ◌∷◌, some, Bool, true, false, Bool-cases, Option-cases, inl, inr,
}
use seastar_live.Prelude.Int.{ℤ}
use seastar_live.Frame.{Metadata}
use seastar_live.Frame.Queue.{FrameQueue}
use seastar_live.Frame.Gop.{GopQueue, lead_with, on_pop_gop, may_pop, update_from, second_gop}
use mathlib.Core.Path.{subst}

module _ {F : Type 0} where
  -- The cache without its last closed gop, whose metadata `m` goes over to the current one.
  abbrev pub popped_last : GopQueue F → Metadata → GopQueue F
  popped_last s m = on_pop_gop (record s { gops = []; current = lead_with s.current m })

  -- The cache without its first gop, whose metadata `m` goes over to the next one, `h`.
  abbrev pub popped : GopQueue F → FrameQueue → List FrameQueue → Metadata → GopQueue F
  popped s h hs m = on_pop_gop (record s { gops = lead_with h m ∷ hs })

module _ {F : Type 0} (reaches : ℤ → F → Bool) where
  pub data Updates : GopQueue F → FrameQueue → List FrameQueue → GopQueue F → Type 0 where
    stay :
        (s : GopQueue F) (g : FrameQueue) (hs : List FrameQueue)
        → may_pop reaches s (second_gop (g ∷ hs) s.current) ≡ false
        → Updates s g hs (record s { gops = g ∷ hs })
    pop_last :
        (s : GopQueue F) (g : FrameQueue) (m : Metadata)
        → may_pop reaches s s.current ≡ true
        → g.latest_metadata_frame ≡ some m
        → Updates s g [] (popped_last s m)
    pop :
        (s : GopQueue F) (g h : FrameQueue) (hs : List FrameQueue) (m : Metadata) {t : GopQueue F}
        → may_pop reaches s h ≡ true
        → g.latest_metadata_frame ≡ some m
        → Updates (popped s h hs m) (lead_with h m) hs t
        → Updates s g (h ∷ hs) t

  Updates-some :
      (s : GopQueue F) (g : FrameQueue) (hs : List FrameQueue) {t u : GopQueue F}
      → some t ≡ some u
      → Updates s g hs t
      → Updates s g hs u
  Updates-some s g hs {t} {u} e r = let p : t ≡ u = cc in subst (Updates s g hs) p r

  pub update_from-Updates :
      (s : GopQueue F) (g : FrameQueue) (hs : List FrameQueue) {t : GopQueue F}
      → update_from reaches s g hs ≡ some t
      → Updates s g hs t
  unfolding update_from
  update_from-Updates s g [] {t} e = elim (Bool-cases (may_pop reaches s s.current)) [
    | inl p ↦ elim (Option-cases g.latest_metadata_frame) [
      | inl n ↦ cc (rw (p, n, update_from) at e)
      | inr (m, q) ↦ Updates-some s g [] (rw (p, q, update_from) at e) (pop_last s g m p q)
    ]
    | inr p ↦ Updates-some s g [] (rw (p, update_from) at e) (stay s g [] p)
  ]
  update_from-Updates s g (h ∷ hs) {t} e = elim (Bool-cases (may_pop reaches s h)) [
    | inl p ↦ elim (Option-cases g.latest_metadata_frame) [
      | inl n ↦ cc (rw (p, n, update_from) at e)
      | inr (m, q) ↦
          pop s g h hs m p q
            (update_from-Updates (popped s h hs m) (lead_with h m) hs (rw (p, q, update_from) at e))
    ]
    | inr p ↦ Updates-some s g (h ∷ hs) (rw (p, update_from) at e) (stay s g (h ∷ hs) p)
  ]
