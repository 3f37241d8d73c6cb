-- ===== src/Hls/Fragments/Held.antt =====
-- The bytes and the ids of the fragments that a player of HLS fragments holds (src/session/hls/play_session_v3.cc).
use seastar_live.Prelude.{
  ℕ, ◌+◌, ◌≤◌, ◌<◌, ◌≡◌, refl, sym, ap, ◌∙◌, true, Option, none, some, List, [], ◌∷◌, ◌++◌,
  append-nil, append_assoc, arith, ◌==◌, ==_iff, length, length-append,
}
use mathlib.Core.Path.{subst}
use seastar_live.Hls.Fragments.{TsFragment, joined, write_fragment}

unfoldable pub file_bytes : List TsFragment → List ℕ
file_bytes [] = []
file_bytes (f ∷ fs) = joined f.bufs ++ file_bytes fs

abbrev pub one_fragment : Option TsFragment → List TsFragment
one_fragment none = []
one_fragment (some f) = f ∷ []

-- The ids rise from above the first number to at most the second.
unfoldable pub Ascends : ℕ → List TsFragment → ℕ → Type 0
Ascends lo [] hi = lo ≤ hi
Ascends lo (f ∷ fs) hi = (lo < f.id) × Ascends f.id fs hi

unfoldable pub Sized : Option TsFragment → Type 0
Sized none = Unit {0}
Sized (some f) = f.size ≡ length (joined f.bufs)

unfoldable pub Held : List TsFragment → Option TsFragment → List ℕ → ℕ → Type 0
unfolding file_bytes Ascends Sized
Held files frag emitted next =
    (emitted ≡ file_bytes (files ++ one_fragment frag))
    × Ascends 0 (files ++ one_fragment frag) next
    × Sized frag

file_bytes-append :
    (fs gs : List TsFragment) → file_bytes (fs ++ gs) ≡ file_bytes fs ++ file_bytes gs
unfolding file_bytes
file_bytes-append [] gs = refl
file_bytes-append (f ∷ fs) gs =
    ap (λ r. joined f.bufs ++ r) (file_bytes-append fs gs)
    ∙ sym (append_assoc (joined f.bufs) (file_bytes fs) (file_bytes gs))

joined-append : (bs cs : List (List ℕ)) → joined (bs ++ cs) ≡ joined bs ++ joined cs
joined-append [] cs = refl
joined-append (b ∷ bs) cs =
    ap (λ r. b ++ r) (joined-append bs cs) ∙ sym (append_assoc b (joined bs) (joined cs))

Ascends-later :
    (lo : ℕ) (fs : List TsFragment) (hi hi' : ℕ) → Ascends lo fs hi → hi ≤ hi' → Ascends lo fs hi'
unfolding Ascends
Ascends-later lo [] hi hi' h k = omega (arith, h, k)
Ascends-later lo (f ∷ fs) hi hi' (h, t) k = (h, Ascends-later f.id fs hi hi' t k)

-- A fragment of the next id at the end.
Ascends-next :
    (lo : ℕ) (fs : List TsFragment) (f : TsFragment) (hi : ℕ)
    → Ascends lo fs hi
    → f.id ≡ hi + 1
    → Ascends lo (fs ++ f ∷ []) (hi + 1)
unfolding Ascends
Ascends-next lo [] f hi h k = (omega (arith, h, k), omega (arith, k))
Ascends-next lo (g ∷ fs) f hi (h, t) k = (h, Ascends-next g.id fs f hi t k)

Ascends-but_last :
    (lo : ℕ) (fs : List TsFragment) (f : TsFragment) (hi : ℕ)
    → Ascends lo (fs ++ f ∷ []) hi
    → Ascends lo (fs ++ []) hi
unfolding Ascends
Ascends-but_last lo [] f hi (h, k) = omega (arith, h, k)
Ascends-but_last lo (g ∷ fs) f hi (h, t) = (h, Ascends-but_last g.id fs f hi t)

-- Another last fragment of the same id.
Ascends-last :
    (lo : ℕ) (fs : List TsFragment) (f g : TsFragment) (hi : ℕ)
    → f.id ≡ g.id
    → Ascends lo (fs ++ f ∷ []) hi
    → Ascends lo (fs ++ g ∷ []) hi
unfolding Ascends
Ascends-last lo [] f g hi e (h, k) = (omega (arith, h, e), omega (arith, k, e))
Ascends-last lo (x ∷ fs) f g hi e (h, t) = (h, Ascends-last x.id fs f g hi e t)

last_bytes :
    (fs : List TsFragment) (f : TsFragment)
    → file_bytes (fs ++ f ∷ []) ≡ file_bytes fs ++ joined f.bufs
unfolding file_bytes
last_bytes fs f =
    file_bytes-append fs (f ∷ []) ∙ ap (λ r. file_bytes fs ++ r) (append-nil (joined f.bufs))

write_fragment-joined :
    (f : TsFragment) (b : List ℕ) → joined (write_fragment f b).bufs ≡ joined f.bufs ++ b
unfolding write_fragment
write_fragment-joined f [] = sym (append-nil (joined f.bufs))
write_fragment-joined f (x ∷ b) =
    joined-append f.bufs ((x ∷ b) ∷ []) ∙ ap (λ r. joined f.bufs ++ r) (append-nil (x ∷ b))

write_fragment-size : (f : TsFragment) (b : List ℕ) → (write_fragment f b).size ≡ f.size + length b
unfolding write_fragment
write_fragment-size f [] = omega arith
write_fragment-size f (x ∷ b) = refl

write_fragment-id : (f : TsFragment) (b : List ℕ) → f.id ≡ (write_fragment f b).id
unfolding write_fragment
write_fragment-id f [] = refl
write_fragment-id f (x ∷ b) = refl

pub write_fragment-Held :
    (fs : List TsFragment) (f : TsFragment) (emitted : List ℕ) (next : ℕ) (b : List ℕ)
    → Held fs (some f) emitted next
    → Held fs (some (write_fragment f b)) (emitted ++ b) next
unfolding Held Sized
write_fragment-Held fs f emitted next b (e, asc, z) = (
  ap (λ r. r ++ b) (e ∙ last_bytes fs f)
      ∙ append_assoc (file_bytes fs) (joined f.bufs) b
      ∙ sym (
          last_bytes fs (write_fragment f b)
          ∙ ap (λ r. file_bytes fs ++ r) (write_fragment-joined f b)),
  Ascends-last 0 fs f (write_fragment f b) next (write_fragment-id f b) asc,
  write_fragment-size f b
      ∙ ap (λ r. r + length b) z
      ∙ sym (length-append (joined f.bufs) b)
      ∙ sym (ap length (write_fragment-joined f b)),
)

no_bytes : (bs : List ℕ) → length bs ≡ 0 → bs ≡ []
no_bytes [] h = refl
no_bytes (b ∷ bs) h = grind (arith, h)

-- An empty fragment can go, and a fragment whose file was written can.
pub forget_empty :
    (fs : List TsFragment) (f : TsFragment) (emitted : List ℕ) (next : ℕ)
    → (f.size == 0) ≡ true
    → Held fs (some f) emitted next
    → Held fs none emitted next
unfolding Held Sized
forget_empty fs f emitted next h (e, asc, z) = (
  e
      ∙ last_bytes fs f
      ∙ ap (λ r. file_bytes fs ++ r) (no_bytes (joined f.bufs) (sym z ∙ (==_iff f.size 0).0 h))
      ∙ append-nil (file_bytes fs)
      ∙ ap file_bytes (sym (append-nil fs)),
  Ascends-but_last 0 fs f next asc,
  tt,
)

pub forget_written :
    (fs : List TsFragment) (f : TsFragment) (emitted : List ℕ) (next : ℕ)
    → Held fs (some f) emitted next
    → Held (fs ++ f ∷ []) none emitted next
unfolding Held Sized
forget_written fs f emitted next (e, asc, z) = (
  e ∙ ap file_bytes (sym (append-nil (fs ++ f ∷ []))),
  subst (λ gs. Ascends 0 gs next) (sym (append-nil (fs ++ f ∷ []))) asc,
  tt,
)

pub hold_next :
    (fs : List TsFragment) (f : TsFragment) (emitted : List ℕ) (next : ℕ)
    → f.id ≡ next + 1
    → f.size ≡ 0
    → f.bufs ≡ []
    → Held fs none emitted next
    → Held fs (some f) emitted (next + 1)
unfolding Held Sized
hold_next fs f emitted next i z b (e, asc, u) = (
  e
      ∙ ap file_bytes (append-nil fs)
      ∙ sym (append-nil (file_bytes fs))
      ∙ sym (last_bytes fs f ∙ ap (λ r. file_bytes fs ++ joined r) b),
  Ascends-next 0 fs f next (subst (λ gs. Ascends 0 gs next) (append-nil fs) asc) i,
  z ∙ sym (ap (λ r. length (joined r)) b),
)
