-- ===== src/Rtmp/Handler/Aggregate.antt =====
-- An aggregate message as the sender builds it, taken apart by `rtmp_aggregate`
-- (3rd/librtmp/source/rtmp-handler.c).
use seastar_live.Prelude.{
  ℕ, zero, suc, ◌+◌, ◌-◌, ◌/◌, ◌%◌, ◌^◌, ◌≤◌, ◌<◌, ◌≡◌, ◌≢◌, refl, List, [], ◌∷◌, ◌++◌, some, Bool,
  ltb, ltb→lt, lt→ltb, true, false, length-drop, drop, ◌==◌, if◌then◌else◌, arith, length,
  length-append, drop-append, append_assoc, take-append_le, drop-append_le, Bool-cases, inl, inr,
}
use seastar_live.Prelude.Int.{ℤ, pos, eqb_ℤ}
use seastar_live.Prelude.Bytes.{IsU24, IsU32, be_write_uint24}
use seastar_live.Rtmp.ChunkHeader.{ChunkHeader}
use seastar_live.Rtmp.Handler.{
  Callbacks, sub_header, sub_message, aggregate_from, aggregate, script, starts_with,
  set_data_frame,
}

-- One message of an aggregate: the back pointer behind it is four bytes of any value.
pub record Sub : Type 0 where
  pub type : ℕ
  pub time : ℕ
  pub body : List ℕ
  pub back : List ℕ

abbrev pub sub_bytes : Sub → List ℕ
sub_bytes m =
    m.type
    ∷ (be_write_uint24 (length m.body)
        ++ (be_write_uint24 m.time ++ ((m.time / 2 ^ 24) ∷ 0 ∷ 0 ∷ 0 ∷ (m.body ++ m.back))))

abbrev pub all_bytes : List Sub → List ℕ
all_bytes [] = []
all_bytes (m ∷ ms) = sub_bytes m ++ all_bytes ms

-- A message has a body that is not empty.
pub record IsSub (m : Sub) : Type 0 where
  pub time_ok : IsU32 m.time
  pub some_body : 0 < length m.body
  pub body_ok : IsU24 (length m.body)
  pub back_ok : length m.back ≡ 4

unfoldable pub AllSubs : List Sub → Type 0
AllSubs [] = Unit
AllSubs (m ∷ ms) = IsSub m × AllSubs ms

sub_header-sub_bytes :
    (m : Sub) (rest : List ℕ)
    → IsSub m
    → sub_header (sub_bytes m ++ rest)
      ≡ some (m.type, length m.body, m.time, m.body ++ (m.back ++ rest))
unfolding sub_header be_write_uint24
sub_header-sub_bytes m rest v =
    let t = v.time_ok in let b = v.body_ok in ground (arith, append_assoc m.body m.back rest)

length-sub_bytes : (m : Sub) → IsSub m → length (sub_bytes m) ≡ length m.body + 15
unfolding be_write_uint24
length-sub_bytes m v = ground (arith, length-append m.body m.back, v.back_ok)

drop-append_append :
    (n : ℕ) (xs ys rest : List ℕ) → n ≡ length xs + length ys → drop n (xs ++ (ys ++ rest)) ≡ rest
drop-append_append n [] ys rest e =
    let q : n ≡ length ys = omega arith in rw q (drop-append ys rest)
drop-append_append zero (x ∷ xs) ys rest e = absurd (omega arith)
drop-append_append (suc n) (x ∷ xs) ys rest e = drop-append_append n xs ys rest (omega arith)

drop_back :
    (m : Sub) (rest : List ℕ)
    → IsSub m
    → drop (length m.body + 4) (m.body ++ (m.back ++ rest)) ≡ rest
drop_back m rest v =
    let b = v.back_ok in drop-append_append (length m.body + 4) m.body m.back rest (omega arith)

length_all_bytes : (ms : List Sub) → length ms ≤ length (all_bytes ms)
unfolding be_write_uint24
length_all_bytes [] = omega arith
length_all_bytes (m ∷ ms) =
    omega (arith, length-append (sub_bytes m) (all_bytes ms), length_all_bytes ms)

if-some {ℓ} :
    {A : Type ℓ} (b : Bool) (x y : A) → (if b then some x else some y) ≡ some (if b then x else y)
if-some true x y = refl
if-some false x y = refl

starts_with-append :
    (es bs rest : List ℕ) → length es ≤ length bs → starts_with es (bs ++ rest) ≡ starts_with es bs
starts_with-append [] bs rest h = refl
starts_with-append (e ∷ es) [] rest h = absurd (omega arith)
starts_with-append (e ∷ es) (b ∷ bs) rest h = rw (starts_with-append es bs rest (omega arith)) refl

module _ {S : Type 0} (on : Callbacks S) where
  -- The messages one after the other, each with the time of the aggregate plus its own distance from
  -- the first, to the first callback that fails.
  abbrev pub deliver : ℕ → ℕ → List Sub → S → ℤ × S
  deliver base first [] s = (pos 0, s)
  deliver base first (m ∷ ms) s =
      let (r, s') =
        sub_message on m.type m.body (length m.body) ((base + m.time + 2 ^ 32 - first) % 2 ^ 32)
          s in
      let next = deliver base first ms s' in if eqb_ℤ r (pos 0) then next else (r, s')

  script-append :
      (body rest : List ℕ) (time : ℕ) (s : S)
      → script on (body ++ rest) (length body) time s ≡ script on body (length body) time s
  unfolding script
  script-append body rest time s = elim (Bool-cases (ltb 16 (length body))) [
    | inl b ↦
        let h = ltb→lt 16 (length body) b in
        let e = starts_with-append set_data_frame body rest (omega arith) in
        let d = drop-append_le 16 body rest (omega arith) in
        let t =
          take-append_le (length body - 16) (drop 16 body) rest
            (omega (arith, length-drop 16 body)) in
        let w = take-append_le (length body) body rest (omega arith) in rw (e, d, t, w) refl
    | inr b ↦ rw (b, take-append_le (length body) body rest (omega arith)) refl
  ]

  sub_message-append :
      (type : ℕ) (body rest : List ℕ) (time : ℕ) (s : S)
      → sub_message on type (body ++ rest) (length body) time s
        ≡ sub_message on type body (length body) time s
  unfolding sub_message
  sub_message-append type body rest time s =
      rw (script-append body rest time s, take-append_le (length body) body rest (omega arith)) refl

  -- One round of the loop, at a message that lies within the aggregate.
  aggregate_from-round :
      (fuel len i t0 timestamp timestamp' : ℕ) (m : Sub) (rest : List ℕ) (s : S)
      → IsSub m
      → i + length m.body + 11 + 4 ≤ len
      → (if i == 0 then timestamp else (timestamp + m.time + 2 ^ 32 - t0) % 2 ^ 32) ≡ timestamp'
      → aggregate_from on (suc fuel) len i t0 timestamp (sub_bytes m ++ rest) s ≡ (
          let (r, s') = sub_message on m.type m.body (length m.body) timestamp' s in
          if eqb_ℤ r (pos 0)
          then aggregate_from on fuel len (i + length m.body + 11 + 4) m.time timestamp' rest s'
          else some (r, s'))
  unfolding aggregate_from
  aggregate_from-round fuel len i t0 timestamp timestamp' m rest s v h e =
      let p = v.some_body in
      let a : ltb (i + 11 + 4) len ≡ true = lt→ltb _ _ (omega arith) in
      let b : ltb len (i + length m.body + 11 + 4) ≡ false = ground arith in
      rw
        (
          a,
          sub_header-sub_bytes m rest v,
          b,
          e,
          drop_back m rest v,
          sub_message-append m.type m.body (m.back ++ rest) timestamp' s,
        )
        refl

  -- From a message that is not the first on.
  aggregate_from-deliver :
      (fuel len i t0 base first timestamp : ℕ) (ms : List Sub) (s : S)
      → AllSubs ms
      → i ≢ 0
      → len ≡ i + length (all_bytes ms)
      → length ms < fuel
      → first < 2 ^ 32
      → t0 < 2 ^ 32
      → timestamp ≡ (base + t0 + 2 ^ 32 - first) % 2 ^ 32
      → aggregate_from on fuel len i t0 timestamp (all_bytes ms) s ≡ some (deliver base first ms s)
  unfolding aggregate_from AllSubs
  aggregate_from-deliver zero len i t0 base first timestamp ms s v n l f a b c =
      absurd (omega arith)
  aggregate_from-deliver (suc fuel) len i t0 base first timestamp [] s v n l f a b c = ground arith
  aggregate_from-deliver (suc fuel) len i t0 base first timestamp (m ∷ ms) s (v, vs) n l f a b c =
      let t = v.time_ok in
      let g = length-sub_bytes m v in
      let k = length-append (sub_bytes m) (all_bytes ms) in
      let now = (base + m.time + 2 ^ 32 - first) % 2 ^ 32 in
      let e : (if i == 0 then timestamp else (timestamp + m.time + 2 ^ 32 - t0) % 2 ^ 32) ≡ now =
        ground arith in
      let (r, s') = sub_message on m.type m.body (length m.body) now s in
      let rec =
        aggregate_from-deliver fuel len (i + length m.body + 11 + 4) m.time base first now ms s' vs
          (omega arith) (omega arith) (omega arith) a t refl in
      rw
        (aggregate_from-round fuel len i t0 timestamp now m (all_bytes ms) s v (omega arith) e, rec)
        (if-some _ _ _)

-- An aggregate of one message or more, each with a body and a 32-bit time, whose header counts its
-- bytes: `rtmp_aggregate` hands over every body, in order, at the time of the aggregate plus the distance
-- from the first message's, modulo 2^32, and stops at the first callback that fails, with its result.
pub aggregate-deliver :
    {S : Type 0} (on : Callbacks S) (h : ChunkHeader) (m : Sub) (ms : List Sub) (s : S)
    → AllSubs (m ∷ ms)
    → IsU32 h.timestamp
    → h.length ≡ length (all_bytes (m ∷ ms))
    → aggregate on h (all_bytes (m ∷ ms)) s ≡ some (deliver on h.timestamp m.time (m ∷ ms) s)
unfolding aggregate AllSubs
aggregate-deliver on h m ms s (v, vs) t l =
    let g = length-sub_bytes m v in
    let k = length-append (sub_bytes m) (all_bytes ms) in
    let w = length_all_bytes ms in
    let u = v.time_ok in
    let now = (h.timestamp + m.time + 2 ^ 32 - m.time) % 2 ^ 32 in
    let e : h.timestamp ≡ now = omega arith in
    let (r, s') = sub_message on m.type m.body (length m.body) now s in
    let rest =
      aggregate_from-deliver on h.length h.length (0 + length m.body + 11 + 4) m.time h.timestamp
        m.time now ms s' vs (omega arith) (omega arith) (omega arith) u u refl in
    rw
      (
        aggregate_from-round on h.length h.length 0 0 h.timestamp now m (all_bytes ms) s v
            (omega arith) e,
        rest,
      )
      (if-some _ _ _)
