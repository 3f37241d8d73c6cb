-- ===== src/Server/Transmition/Endings.antt =====
-- What the end of a session does to the server's other sessions (src/server/transmition.cc).
use seastar_live.Prelude.{
  ℕ, ◌+◌, ◌≡◌, refl, sym, ◌∙◌, ◌≢◌, inl, inr, true, false, not, none, some, List, [], ◌∷◌, ◌++◌,
  append-nil, append_assoc, arith, ◌==◌, if_keeps, ==_iff, Bool-cases, Option-cases,
}
use Prim.Native.String.{String}
use text.Mathlib.Text.{◌==◌ as str_eq}
use text.Mathlib.TextEquality.{eq_iff}
use seastar_live.Enums.{type_play, type_publish, ownership_user}
use seastar_live.Server.SessionList
use seastar_live.Server.SessionList.{
  SessionInfo, default_session_condition, default_session_comparation, is_exist, is_exist_when,
  is_exist_session, remove_all, remove_when,
}
use seastar_live.Server.Transmition.{
  Transmition, by_name, own_class, cancel, cancel_each, cancel_found, is_exist_publisher,
  find_publisher, find_players, mode_owner, remove_publisher, on_remove_publisher,
  stop_all_players_after_publisher_shutdown, on_remove_player, stop_publisher_after_player_shutdown,
  remove_player, on_remove_players, remove_players_found, remove_players, on_session_end,
}
use seastar_live.Server.Transmition.Publishers.{of_stream, OnePublisher}

cancel_each-keeps :
    (t : Transmition) (ss : List ℕ)
    → ((cancel_each t ss).canceled ≡ t.canceled ++ ss)
      × ((cancel_each t ss).players ≡ t.players)
      × ((cancel_each t ss).publishers ≡ t.publishers)
unfolding cancel_each cancel
cancel_each-keeps t [] = (sym (append-nil t.canceled), refl, refl)
cancel_each-keeps t (s ∷ ss) =
    let (c, p, q) = cancel_each-keeps (cancel t s) ss in
    (c ∙ append_assoc t.canceled (s ∷ []) ss, p, q)

remove-other :
    (xs : List ℕ) (p q : ℕ)
    → q ≢ p
    → is_exist_session xs q ≡ true
    → is_exist_session (SessionList.remove xs p) q ≡ true
unfolding is_exist_session SessionList.remove
remove-other [] p q n e = absurd (ground arith)
remove-other (x ∷ xs) p q n e = elim (Bool-cases (x == p)) [
  | inl h ↦ rw h (ground arith)
  | inr h ↦ rw h (ground (arith, remove-other xs p q n))
]

module _ (heap : ℕ → SessionInfo) where
  -- A publisher of the stream counts.
  of_stream-remove_own :
      (xs : List ℕ) (p : ℕ)
      → is_exist_session xs p ≡ true
      → of_stream heap (heap p).app (heap p).stream (SessionList.remove xs p) + 1
        ≡ of_stream heap (heap p).app (heap p).stream xs
  unfolding of_stream SessionList.remove is_exist_session
  of_stream-remove_own [] p e = absurd (ground arith)
  of_stream-remove_own (x ∷ xs) p e =
      let a = (eq_iff (heap p).app (heap p).app).1 refl in
      let b = (eq_iff (heap p).stream (heap p).stream).1 refl in
      elim (Bool-cases (x == p)) [
        | inl h ↦ let same : x ≡ p = (==_iff x p).0 h in rw h (rw same (rw (a, b) (omega arith)))
        | inr h ↦ rw h (omega (arith, of_stream-remove_own xs p (ground arith)))
      ]

  none-of_stream :
      (xs : List ℕ) (app stream : String)
      → app ≢ ""
      → stream ≢ ""
      → of_stream heap app stream xs ≡ 0
      → is_exist heap (by_name app stream) none xs ≡ false
  unfolding of_stream is_exist is_exist_when default_session_condition default_session_comparation
  none-of_stream [] app stream a b e = refl
  none-of_stream (x ∷ xs) app stream a b e =
      ground (arith, eq_iff app "", eq_iff stream "", none-of_stream xs app stream a b)

  module _ (mode : String) (type_of : ℕ → ℕ) where
    -- When the one publisher of a named stream ends, the stream has no publisher, every player of the
    -- stream was canceled, in the order of the list and no other session, and the players stay until
    -- they end themselves.
    pub on_session_end-publisher :
        (t : Transmition) (p : ℕ)
        → type_of p ≡ type_publish
        → OnePublisher heap t
        → is_exist_session t.publishers p ≡ true
        → (heap p).app ≢ ""
        → (heap p).stream ≢ ""
        → let u = on_session_end heap mode type_of t p in
          (is_exist_publisher heap u (heap p).app (heap p).stream ≡ false)
          × (u.canceled ≡ t.canceled ++ find_players heap t (heap p).app (heap p).stream)
          × (u.players ≡ t.players)
    unfolding on_session_end remove_publisher on_remove_publisher is_exist_publisher OnePublisher
        stop_all_players_after_publisher_shutdown find_players
    on_session_end-publisher t p k o e a b =
        let t' = record t { publishers = SessionList.remove t.publishers p } in
        let (c, d, f) = cancel_each-keeps t' (find_players heap t' (heap p).app (heap p).stream) in
        let z : of_stream heap (heap p).app (heap p).stream (SessionList.remove t.publishers p)
            ≡ 0 =
          omega (arith, of_stream-remove_own t.publishers p e, o (heap p).app (heap p).stream) in
        rw k (
          rw f (
              none-of_stream (SessionList.remove t.publishers p) (heap p).app (heap p).stream a b
                z),
          c,
          d,
        )

    -- When a user's player ends and the setting names a kind of publisher, the publisher of that kind is
    -- canceled, although another player of the server is still there.
    on_session_end_stops :
        (t : Transmition) (p q publisher : ℕ)
        → type_of p ≡ type_play
        → (heap p).owner ≡ ownership_user
        → mode ≢ "none"
        → find_publisher heap t (heap p).app (heap p).stream (mode_owner mode) ≡ some publisher
        → q ≢ p
        → is_exist_session t.players q ≡ true
        → let u = on_session_end heap mode type_of t p in
          (u.canceled ≡ t.canceled ++ publisher ∷ []) × (is_exist_session u.players q ≡ true)
    unfolding on_session_end remove_player on_remove_player stop_publisher_after_player_shutdown
        cancel_found cancel find_publisher
    on_session_end_stops t p q publisher k w m f n e =
        let none_mode : str_eq mode "none" ≡ false = ground (arith, eq_iff mode "none") in
        rw (k, w, none_mode, f) (refl, remove-other t.players p q n e)

    removes_nothing :
        (app : String) (xs : List ℕ)
        → ((s : ℕ) → (heap s).stream ≢ "")
        → remove_all own_class heap app "" xs ≡ xs
    unfolding remove_all remove_when
    removes_nothing app [] n = refl
    removes_nothing app (x ∷ xs) n =
        ground (arith, eq_iff (heap x).stream "", n x, removes_nothing app xs n)

    on_remove_player-players :
        (t : Transmition) (p : ℕ) → (on_remove_player heap mode t p).players ≡ t.players
    unfolding on_remove_player stop_publisher_after_player_shutdown cancel_found cancel
    on_remove_player-players t p =
        let P : Transmition → Type 0 = λ u. u.players ≡ t.players in
        let found = find_publisher heap t (heap p).app (heap p).stream (mode_owner mode) in
        let stopped : P (cancel_found t found) = elim (Option-cases found) [
          | inl e ↦ rw e refl
          | inr (a, e) ↦ rw e refl
        ] in
        if_keeps P (not ((heap p).owner == ownership_user)) refl
          (if_keeps P (str_eq mode "none") refl stopped)

    on_remove_players-players :
        (t : Transmition) (ps : List ℕ) → (on_remove_players heap mode t ps).players ≡ t.players
    unfolding on_remove_players
    on_remove_players-players t [] = refl
    on_remove_players-players t (p ∷ ps) =
        on_remove_players-players (on_remove_player heap mode t p) ps ∙ on_remove_player-players t p

    remove_players_found-players :
        (t : Transmition) (app : String) (ps : List ℕ)
        → ((s : ℕ) → (heap s).stream ≢ "")
        → (remove_players_found heap mode t app "" ps).players ≡ t.players
    unfolding remove_players_found
    remove_players_found-players t app [] n = refl
    remove_players_found-players t app (p ∷ ps) n =
        on_remove_players-players
          (record t { players = remove_all own_class heap app "" t.players }) (p ∷ ps)
        ∙ removes_nothing app t.players n

    -- `remove_players` with no stream's name finds the players of every stream, and removes none of
    -- them where no stream has the empty name.
    remove_players_any_stream :
        (t : Transmition) (app : String)
        → ((s : ℕ) → (heap s).stream ≢ "")
        → (remove_players heap mode t app "").players ≡ t.players
    unfolding remove_players
    remove_players_any_stream t app n =
        remove_players_found-players t app (find_players heap t app "") n
