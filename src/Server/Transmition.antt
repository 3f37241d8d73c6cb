-- ===== src/Server/Transmition.antt =====
-- src/server/transmition.cc: the server's publishers and players, and what the end of one does to the
-- others. A session is the identity of its object. `type_of` and `id_of` say what an object is asked for
-- beside the SessionInfo of the session list. `hls_ts_enabled` and `mode` (auto_stop_publish_mode) are global
-- settings, and `hls_player` the object that is made for a publisher's HLS playlists. What runs in
-- `seastar::async` or is submitted to another shard is run before the next call. `canceled` is the sessions
-- that `cancel` was invoked on, `launched` those the server set itself as the lifecycle of, in order.
pub mod Finders
pub mod Routes
pub mod Publishers
pub mod Calls
pub mod Requests
pub mod Endings
mod Tests
use seastar_live.Prelude.{
  ℕ, zero, suc, ◌+◌, ◌-◌, ◌*◌, ◌/◌, ◌%◌, ◌^◌, ◌≤◌, ◌<◌, min, ◌≡◌, refl, sym, ap, ap₂, ◌∙◌, ◌≢◌, ◌↔◌,
  ◌⊎◌, inl, inr, Bool, true, false, ◌&&◌, ◌||◌, not, Option, none, some, List, [], ◌∷◌, ◌++◌, map,
  append-nil, append_assoc, arith, ltb, leb, ◌==◌, if◌then◌else◌, if_keeps, if_then, if_else,
  ltb→lt, lt→ltb, leb→le, ==_iff, tests, Bool-cases, Option-cases, length, get_elem?, set,
  length-append, get_or, take, drop, replicate, take-append-drop,
}
use Prim.Native.String.{String}
use Prim.Native.Nat.{bit_and, bit_or}
use text.Mathlib.Text.{◌==◌ as str_eq}
use seastar_live.Enums.{type_play, type_publish, ownership_user, ownership_internal}
use seastar_live.Server.SessionList
use seastar_live.Server.SessionList.{
  SessionInfo, Filter, ownership_ignored, format_ignored, protocol_none, is_exist, find_any,
  find_all, remove_all, is_exist_session,
}

pub record Transmition : Type 0 where
  pub players : List ℕ
  pub publishers : List ℕ
  pub launched : List ℕ
  pub started : List ℕ
  pub canceled : List ℕ

abbrev pub empty_transmition : Transmition
empty_transmition = record {
  players = [];
  publishers = [];
  launched = [];
  started = [];
  canceled = [];
}

abbrev pub version_none : ℕ
version_none = 0

abbrev pub version_v3 : ℕ
version_v3 = 1

-- The default arguments of a query by names.
abbrev pub by_name : String → String → Filter
by_name app stream = record {
  app = app;
  stream = stream;
  os = ownership_ignored;
  fmt = format_ignored;
  prot = protocol_none;
}

-- A list holds one class, which a cast to that class finds it to be.
abbrev pub own_class : ℕ → Bool
own_class s = true

unfoldable pub cancel : Transmition → ℕ → Transmition
cancel t s = record t { canceled = t.canceled ++ s ∷ [] }

unfoldable pub cancel_each : Transmition → List ℕ → Transmition
unfolding cancel
cancel_each t [] = t
cancel_each t (s ∷ ss) = cancel_each (cancel t s) ss

unfoldable pub add_player : Transmition → ℕ → Bool × Transmition
unfolding SessionList.add
add_player t plyr =
    let (success, players) = SessionList.add t.players plyr in
    if success
    then (true, record t { players = players; launched = t.launched ++ plyr ∷ [] })
    else (false, t)

unfoldable pub mode_owner : String → ℕ
mode_owner mode =
    if str_eq mode "user"
    then ownership_user
    else if str_eq mode "internal"
    then ownership_internal
    else ownership_ignored

-- The player is started whether it was added or not.
unfoldable pub schedule_hls_player : Transmition → ℕ → Transmition
unfolding add_player
schedule_hls_player t plyr =
    let (_, t') = add_player t plyr in record t' { started = t'.started ++ plyr ∷ [] }

unfoldable pub schedule_hls_players : Transmition → ℕ → ℕ → Transmition
unfolding schedule_hls_player
schedule_hls_players t v plyr =
    if not (bit_and v version_v3 == version_none) then schedule_hls_player t plyr else t

unfoldable pub schedule_hls_players_if_needs : Bool → Transmition → ℕ → Transmition
unfolding schedule_hls_players
schedule_hls_players_if_needs enabled t plyr =
    let v = if enabled then bit_or version_none version_v3 else version_none in
    if v == version_none then t else schedule_hls_players t v plyr

unfoldable pub cancel_found : Transmition → Option ℕ → Transmition
unfolding cancel
cancel_found t none = t
cancel_found t (some s) = cancel t s

unfoldable pub remove_found : (Transmition → ℕ → Transmition) → Transmition → Option ℕ → Transmition
remove_found remove t none = t
remove_found remove t (some s) = remove t s

module _ (heap : ℕ → SessionInfo) where
  unfoldable pub is_exist_publisher : Transmition → String → String → Bool
  unfolding is_exist
  is_exist_publisher t app stream = is_exist heap (by_name app stream) none t.publishers

  unfoldable pub find_publisher : Transmition → String → String → ℕ → Option ℕ
  unfolding find_any
  find_publisher t app stream os =
      find_any own_class heap (record (by_name app stream) { os = os }) none t.publishers

  unfoldable pub find_players : Transmition → String → String → List ℕ
  unfolding find_all
  find_players t app stream = find_all own_class heap (by_name app stream) none t.players

  unfoldable pub stop_all_players_after_publisher_shutdown : Transmition → ℕ → Transmition
  unfolding find_players cancel_each
  stop_all_players_after_publisher_shutdown t pub_ =
      cancel_each t (find_players t (heap pub_).app (heap pub_).stream)

  unfoldable pub on_remove_publisher : Transmition → ℕ → Transmition
  unfolding stop_all_players_after_publisher_shutdown
  on_remove_publisher t p = stop_all_players_after_publisher_shutdown t p

  unfoldable pub remove_publisher : Transmition → ℕ → Transmition
  unfolding SessionList.remove on_remove_publisher
  remove_publisher t p =
      on_remove_publisher (record t { publishers = SessionList.remove t.publishers p }) p

  -- The overloads on a raw pointer.
  unfoldable pub remove_publisher_at : Transmition → ℕ → Transmition
  unfolding remove_found remove_publisher SessionList.find_any_when
  remove_publisher_at t p =
      remove_found remove_publisher t
        (SessionList.find_any_when own_class (λ s. s == p) t.publishers)

  unfoldable pub remove_publishers : Transmition → String → String → Transmition
  unfolding remove_all
  remove_publishers t app stream = record t {
    publishers = remove_all own_class heap app stream t.publishers;
  }

  module _ (hls_ts_enabled : Bool) (hls_player : ℕ → ℕ) where
    unfoldable pub on_add_publisher : Transmition → ℕ → Transmition
    unfolding schedule_hls_players_if_needs
    on_add_publisher t p = schedule_hls_players_if_needs hls_ts_enabled t (hls_player p)

    unfoldable pub add_publisher : Transmition → ℕ → Bool × Transmition
    unfolding is_exist_publisher SessionList.add on_add_publisher
    add_publisher t p =
        let (success, publishers) = SessionList.add t.publishers p in
        if is_exist_publisher t (heap p).app (heap p).stream
        then (false, t)
        else if success
        then (
          true,
          on_add_publisher (record t { publishers = publishers; launched = t.launched ++ p ∷ [] })
              p,
        )
        else (false, t)

  module _ (mode : String) where
    unfoldable pub stop_publisher_after_player_shutdown : Transmition → ℕ → Transmition
    unfolding find_publisher cancel_found mode_owner
    stop_publisher_after_player_shutdown t plyr =
        cancel_found t (find_publisher t (heap plyr).app (heap plyr).stream (mode_owner mode))

    unfoldable pub on_remove_player : Transmition → ℕ → Transmition
    unfolding stop_publisher_after_player_shutdown
    on_remove_player t plyr =
        if not ((heap plyr).owner == ownership_user)
        then t
        else if str_eq mode "none"
        then t
        else stop_publisher_after_player_shutdown t plyr

    unfoldable pub remove_player : Transmition → ℕ → Transmition
    unfolding SessionList.remove on_remove_player
    remove_player t plyr =
        on_remove_player (record t { players = SessionList.remove t.players plyr }) plyr

    unfoldable pub remove_player_at : Transmition → ℕ → Transmition
    unfolding remove_found remove_player SessionList.find_any_when
    remove_player_at t plyr =
        remove_found remove_player t
          (SessionList.find_any_when own_class (λ s. s == plyr) t.players)

    unfoldable pub on_remove_players : Transmition → List ℕ → Transmition
    unfolding on_remove_player
    on_remove_players t [] = t
    on_remove_players t (p ∷ ps) = on_remove_players (on_remove_player t p) ps

    unfoldable pub remove_players_found : Transmition → String → String → List ℕ → Transmition
    unfolding remove_all on_remove_players
    remove_players_found t app stream [] = t
    remove_players_found t app stream (p ∷ ps) =
        on_remove_players (record t { players = remove_all own_class heap app stream t.players })
          (p ∷ ps)

    unfoldable pub remove_players : Transmition → String → String → Transmition
    unfolding find_players remove_players_found
    remove_players t app stream = remove_players_found t app stream (find_players t app stream)

    module _ (type_of : ℕ → ℕ) where
      -- `assert(0)` for a session that is neither is empty.
      unfoldable pub on_session_end : Transmition → ℕ → Transmition
      unfolding remove_player remove_publisher
      on_session_end t s =
          if type_of s == type_play
          then remove_player t s
          else if type_of s == type_publish
          then remove_publisher t s
          else t
