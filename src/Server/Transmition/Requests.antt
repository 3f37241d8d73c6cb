-- ===== src/Server/Transmition/Requests.antt =====
-- What an RTMP client's request to publish does to the server (src/server/rtmp/route_handler.cc).
use seastar_live.Prelude.{
  ℕ, ◌≡◌, refl, ◌≢◌, ◌⊎◌, inl, inr, Bool, true, false, ◌||◌, Option, none, some, List, [], ◌∷◌,
  ◌++◌, arith, if◌then◌else◌, if_then, if_else, Bool-cases,
}
use Prim.Native.String.{String}
use text.Mathlib.Text.{◌==◌ as str_eq}
use text.Mathlib.TextEquality.{eq_iff}
use seastar_live.Server.SessionList
use seastar_live.Server.SessionList.{
  SessionInfo, default_session_condition, default_session_comparation, is_exist, is_exist_when,
  is_exist_session, find_any, find_any_when, ownership_ignored,
}
use seastar_live.Server.Transmition.{
  Transmition, by_name, own_class, is_exist_publisher, find_publisher, on_add_publisher,
  add_publisher,
}
use seastar_live.Server.Transmition.Publishers.{schedule-publishers}
use seastar_live.Server.Transmition.Routes.{
  Reply, Request, ok, not_found, internal_error, refusal, handle_publish, publish_made,
  make_valid_publisher, make_publisher, format_or_default, wanted_by,
}

module _ (heap : ℕ → SessionInfo) where
  str_eq_refl : (s : String) → str_eq s s ≡ true
  str_eq_refl s = (eq_iff s s).1 refl

  of_names :
      (p : ℕ) (app stream : String)
      → (heap p).app ≡ app
      → (heap p).stream ≡ stream
      → default_session_comparation (heap p) (by_name app stream) ≡ true
  unfolding default_session_comparation
  of_names p app stream a b = rw (a, b) (ground (arith, str_eq_refl app, str_eq_refl stream))

  -- A session added behind others of which none is of its stream is the one that is found.
  find_added :
      (xs : List ℕ) (p : ℕ) (app stream : String)
      → (heap p).app ≡ app
      → (heap p).stream ≡ stream
      → is_exist heap (by_name app stream) none xs ≡ false
      → (find_any own_class heap (by_name app stream) none (xs ++ p ∷ []) ≡ some p)
        × (is_exist heap (by_name app stream) none (xs ++ p ∷ []) ≡ true)
  unfolding find_any is_exist find_any_when is_exist_when default_session_condition
  find_added [] p app stream a b e = ground (arith, of_names p app stream a b)
  find_added (x ∷ xs) p app stream a b e =
      elim (Bool-cases (default_session_comparation (heap x) (by_name app stream))) [
        | inl h ↦ absurd (ground arith)
        | inr h ↦ ground (arith, find_added xs p app stream a b (ground arith))
      ]

module _ (heap : ℕ → SessionInfo) (hls_ts_enabled : Bool) (hls_player : ℕ → ℕ) where
  -- What a request may come to.
  unfoldable pub Published : Transmition → Request → ℕ → Reply × Transmition → Type 0
  unfolding find_publisher is_exist_publisher
  Published t r made (rep, u) =
      (rep ≡ record { status = ok; body = some made })
      × ((str_eq r.app_name "" || str_eq r.stream_name "") ≡ false)
      × (is_exist_publisher heap t r.app_name r.stream_name ≡ false)
      × (find_publisher heap u r.app_name r.stream_name ownership_ignored ≡ some made)
      × (is_exist_publisher heap u r.app_name r.stream_name ≡ true)

  unfoldable pub Refused : Transmition → Reply × Transmition → Type 0
  Refused t (rep, u) = (rep.status ≢ ok) × (rep.body ≡ none) × (u ≡ t)

  publish_made_outcome :
      (t : Transmition) (r : Request) (made : ℕ) (o : Option ℕ)
      → (heap made).app ≡ r.app_name
      → (heap made).stream ≡ r.stream_name
      → is_exist_session t.publishers made ≡ false
      → (str_eq r.app_name "" || str_eq r.stream_name "") ≡ false
      → is_exist_publisher heap t r.app_name r.stream_name ≡ false
      → (o ≡ none) ⊎ (o ≡ some made)
      → Published t r made (publish_made heap hls_ts_enabled hls_player t o)
        ⊎ Refused t (publish_made heap hls_ts_enabled hls_player t o)
  unfolding Published Refused publish_made add_publisher SessionList.add on_add_publisher
  publish_made_outcome t r made o a b n w e (inl h) = rw h (inr ((λ q. cc), refl, refl))
  publish_made_outcome t r made o a b n w e (inr h) =
      let (f, g) = find_added heap t.publishers made r.app_name r.stream_name a b e in
      let t' = record t {
        publishers = t.publishers ++ made ∷ [];
        launched = t.launched ++ made ∷ [];
      } in
      rw (h, a, b, e, n)
        (inl
          (rw (schedule-publishers heap hls_ts_enabled t' (hls_player made)) (refl, w, refl, f, g)))

  make_publisher_cases :
      (t : Transmition) (r : Request) (made : ℕ)
      → (make_valid_publisher heap t (wanted_by r) made ≡ none)
        ⊎ (make_valid_publisher heap t (wanted_by r) made ≡ some made)
  unfolding make_valid_publisher make_publisher format_or_default
  make_publisher_cases t r made = ground arith

  pub handle_publish_outcome :
      (t : Transmition) (r : Request) (made : ℕ)
      → (heap made).app ≡ r.app_name
      → (heap made).stream ≡ r.stream_name
      → is_exist_session t.publishers made ≡ false
      → Published t r made (handle_publish heap hls_ts_enabled hls_player t r made)
        ⊎ Refused t (handle_publish heap hls_ts_enabled hls_player t r made)
  unfolding handle_publish Refused
  handle_publish_outcome t r made a b n =
      let P : Reply × Transmition → Type 0 = λ x. Published t r made x ⊎ Refused t x in
      let o = make_valid_publisher heap t (wanted_by r) made in
      let exists = is_exist_publisher heap t r.app_name r.stream_name in
      let rest =
        if exists
        then (refusal internal_error, t)
        else publish_made heap hls_ts_enabled hls_player t o in
      elim (Bool-cases (str_eq r.app_name "" || str_eq r.stream_name "")) [
        | inl e ↦ if_then P rest e (inr ((λ q. cc), refl, refl))
        | inr e ↦
            if_else P (refusal not_found, t) e
              (elim (Bool-cases exists) [
                | inl x ↦
                    if_then P (publish_made heap hls_ts_enabled hls_player t o) x
                      (inr ((λ q. cc), refl, refl))
                | inr x ↦
                    if_else P (refusal internal_error, t) x
                      (publish_made_outcome t r made o a b n e x (make_publisher_cases t r made))
              ])
      ]

  refused_again :
      (u : Transmition) (s : Request) (other : ℕ)
      → (str_eq s.app_name "" || str_eq s.stream_name "") ≡ false
      → is_exist_publisher heap u s.app_name s.stream_name ≡ true
      → handle_publish heap hls_ts_enabled hls_player u s other ≡ (refusal internal_error, u)
  unfolding handle_publish
  refused_again u s other e x = rw (e, x) refl

  -- Once a stream is published, any further request to publish it is refused with an internal error and
  -- changes nothing, until a publisher is removed.
  pub handle_publish_twice :
      (t : Transmition) (r s : Request) (made other : ℕ)
      → (heap made).app ≡ r.app_name
      → (heap made).stream ≡ r.stream_name
      → is_exist_session t.publishers made ≡ false
      → (handle_publish heap hls_ts_enabled hls_player t r made).0.status ≡ ok
      → s.app_name ≡ r.app_name
      → s.stream_name ≡ r.stream_name
      → let u = (handle_publish heap hls_ts_enabled hls_player t r made).1 in
        handle_publish heap hls_ts_enabled hls_player u s other ≡ (refusal internal_error, u)
  unfolding Published Refused
  handle_publish_twice t r s made other a b n k c d =
      let u = (handle_publish heap hls_ts_enabled hls_player t r made).1 in
      elim (handle_publish_outcome t r made a b n) [
        | inl (_, e, _, _, x) ↦ refused_again u s other (rw (c, d) e) (rw (c, d) x)
        | inr (ne, _, _) ↦ absurd (ne k)
      ]
