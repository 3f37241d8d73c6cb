-- ===== src/Server/Transmition/Publishers.antt =====
-- Of each stream the server (src/server/transmition.cc) has one publisher at most, whatever calls are made.
use seastar_live.Prelude.{
  ℕ, ◌+◌, ◌≤◌, ◌≡◌, refl, inl, inr, Bool, true, false, ◌&&◌, Option, none, some, List, [], ◌∷◌,
  ◌++◌, arith, ◌==◌, if◌then◌else◌, Bool-cases,
}
use Prim.Native.String.{String}
use mathlib.Core.Path.{subst}
use text.Mathlib.Text.{◌==◌ as str_eq}
use text.Mathlib.TextEquality.{eq_iff}
use seastar_live.Server.SessionList
use seastar_live.Server.SessionList.{
  SessionInfo, default_session_condition, default_session_comparation, is_exist, is_exist_when,
  is_exist_session, remove_all, remove_when,
}
use seastar_live.Server.Transmition.{
  Transmition, by_name, own_class, cancel, cancel_each, cancel_found, add_player,
  schedule_hls_player, schedule_hls_players, schedule_hls_players_if_needs, is_exist_publisher,
  on_remove_publisher, stop_all_players_after_publisher_shutdown, find_players, remove_publisher,
  remove_found, on_add_publisher, add_publisher,
}

-- How many of the sessions are of the stream.
unfoldable pub of_stream : (ℕ → SessionInfo) → String → String → List ℕ → ℕ
of_stream heap app stream [] = 0
of_stream heap app stream (x ∷ xs) =
    (if str_eq (heap x).app app && str_eq (heap x).stream stream then 1 else 0)
    + of_stream heap app stream xs

unfoldable pub OnePublisher : (ℕ → SessionInfo) → Transmition → Type 0
unfolding of_stream
OnePublisher heap t = (app stream : String) → of_stream heap app stream t.publishers ≤ 1

module _ (heap : ℕ → SessionInfo) where
  pub of_stream-append :
      (app stream : String) (xs : List ℕ) (p : ℕ)
      → of_stream heap app stream (xs ++ p ∷ [])
        ≡ of_stream heap app stream xs + of_stream heap app stream (p ∷ [])
  unfolding of_stream
  of_stream-append app stream [] p = omega arith
  of_stream-append app stream (x ∷ xs) p = omega (arith, of_stream-append app stream xs p)

  of_stream-remove :
      (app stream : String) (xs : List ℕ) (s : ℕ)
      → of_stream heap app stream (SessionList.remove xs s) ≤ of_stream heap app stream xs
  unfolding of_stream SessionList.remove
  of_stream-remove app stream [] s = omega arith
  of_stream-remove app stream (x ∷ xs) s = elim (Bool-cases (x == s)) [
    | inl e ↦ rw e (omega arith)
    | inr e ↦ rw e (omega (arith, of_stream-remove app stream xs s))
  ]

  pub of_stream-remove_when :
      (app stream : String) (c : ℕ → Bool) (xs : List ℕ)
      → of_stream heap app stream (remove_when own_class c xs).1 ≤ of_stream heap app stream xs
  unfolding of_stream remove_when
  of_stream-remove_when app stream c [] = omega arith
  of_stream-remove_when app stream c (x ∷ xs) = elim (Bool-cases (c x)) [
    | inl e ↦ rw e (omega (arith, of_stream-remove_when app stream c xs))
    | inr e ↦ rw e (omega (arith, of_stream-remove_when app stream c xs))
  ]

  -- A stream that the query by its names does not find has no publisher.
  pub is_exist-of_stream :
      (app stream : String) (xs : List ℕ)
      → is_exist heap (by_name app stream) none xs ≡ false
      → of_stream heap app stream xs ≡ 0
  unfolding of_stream is_exist is_exist_when default_session_condition default_session_comparation
  is_exist-of_stream app stream [] e = refl
  is_exist-of_stream app stream (x ∷ xs) e = ground (arith, is_exist-of_stream app stream xs)

  -- What the publishers may become.
  unfoldable pub Fewer : List ℕ → List ℕ → Type 0
  Fewer ys xs = (app stream : String) → of_stream heap app stream ys ≤ of_stream heap app stream xs

  pub OnePublisher-Fewer :
      (t u : Transmition)
      → Fewer u.publishers t.publishers
      → OnePublisher heap t
      → OnePublisher heap u
  unfolding OnePublisher Fewer
  OnePublisher-Fewer t u f o app stream = omega (arith, f app stream, o app stream)

  pub Fewer-eq : (ys xs : List ℕ) → ys ≡ xs → Fewer ys xs
  unfolding Fewer
  Fewer-eq ys xs e app stream = rw e (omega arith)

  cancel_each-publishers :
      (t : Transmition) (ss : List ℕ) → (cancel_each t ss).publishers ≡ t.publishers
  unfolding cancel_each
  cancel_each-publishers t [] = refl
  cancel_each-publishers t (s ∷ ss) = cancel_each-publishers (cancel t s) ss

  pub cancel_found-publishers :
      (t : Transmition) (o : Option ℕ) → (cancel_found t o).publishers ≡ t.publishers
  unfolding cancel_found
  cancel_found-publishers t none = refl
  cancel_found-publishers t (some s) = refl

  pub add_player-publishers :
      (t : Transmition) (p : ℕ) → (add_player t p).1.publishers ≡ t.publishers
  unfolding add_player SessionList.add
  add_player-publishers t p = elim (Bool-cases (is_exist_session t.players p)) [
    | inl e ↦ rw e refl
    | inr e ↦ rw e refl
  ]

  pub schedule-publishers :
      (b : Bool) (t : Transmition) (p : ℕ)
      → (schedule_hls_players_if_needs b t p).publishers ≡ t.publishers
  unfolding schedule_hls_players_if_needs schedule_hls_players schedule_hls_player
  schedule-publishers true t p = add_player-publishers t p
  schedule-publishers false t p = refl

  pub remove_publisher-Fewer :
      (t : Transmition) (p : ℕ) → Fewer (remove_publisher heap t p).publishers t.publishers
  unfolding Fewer remove_publisher on_remove_publisher stop_all_players_after_publisher_shutdown
  remove_publisher-Fewer t p app stream =
      rw
        (cancel_each-publishers (record t { publishers = SessionList.remove t.publishers p })
          (find_players heap (record t { publishers = SessionList.remove t.publishers p })
            (heap p).app (heap p).stream))
        (of_stream-remove app stream t.publishers p)

  pub remove_found-Fewer :
      (t : Transmition) (o : Option ℕ)
      → Fewer (remove_found (remove_publisher heap) t o).publishers t.publishers
  unfolding remove_found
  remove_found-Fewer t none = Fewer-eq t.publishers t.publishers refl
  remove_found-Fewer t (some p) = remove_publisher-Fewer t p

  added_one :
      (app stream : String) (xs : List ℕ) (p : ℕ)
      → of_stream heap (heap p).app (heap p).stream xs ≡ 0
      → of_stream heap app stream xs ≤ 1
      → of_stream heap app stream (xs ++ p ∷ []) ≤ 1
  unfolding of_stream
  added_one app stream xs p z o =
      rw (of_stream-append app stream xs p)
        (elim (Bool-cases (str_eq (heap p).app app && str_eq (heap p).stream stream)) [
          | inl b ↦
              let e : (heap p).app ≡ app = (eq_iff (heap p).app app).0 (ground arith) in
              let f : (heap p).stream ≡ stream = (eq_iff (heap p).stream stream).0 (ground arith) in
              let n : of_stream heap app stream xs ≡ 0 =
                subst (λ (a : String). of_stream heap a stream xs ≡ 0) e
                  (subst (λ (b : String). of_stream heap (heap p).app b xs ≡ 0) f z) in
              rw (b, n) (omega arith)
          | inr b ↦ rw b (omega (arith, o))
        ])

  -- A publisher is added when its stream has none.
  pub add_publisher-OnePublisher :
      (b : Bool) (hls_player : ℕ → ℕ) (t : Transmition) (p : ℕ)
      → OnePublisher heap t
      → OnePublisher heap (add_publisher heap b hls_player t p).1
  unfolding OnePublisher add_publisher SessionList.add on_add_publisher is_exist_publisher
  add_publisher-OnePublisher b hls_player t p o app stream =
      elim (Bool-cases (is_exist heap (by_name (heap p).app (heap p).stream) none t.publishers)) [
        | inl e ↦ rw e (o app stream)
        | inr e ↦ elim (Bool-cases (is_exist_session t.publishers p)) [
          | inl f ↦ rw (e, f) (o app stream)
          | inr f ↦
              let t' = record t {
                publishers = t.publishers ++ p ∷ [];
                launched = t.launched ++ p ∷ [];
              } in
              rw (e, f)
                (rw (schedule-publishers b t' (hls_player p)) (
                  added_one app stream t.publishers p
                    (is_exist-of_stream (heap p).app (heap p).stream t.publishers e)
                    (o app stream)))
        ]
      ]
