-- ===== src/Server/Transmition/Calls.antt =====
-- What the calls of the server (src/server/transmition.cc) and the RTMP requests keep: one publisher a stream.
use seastar_live.Prelude.{ℕ, Bool, List, [], ◌∷◌, ◌==◌}
use Prim.Native.String.{String}
use text.Mathlib.Text.{◌==◌ as str_eq}
use seastar_live.Server.SessionList
use seastar_live.Server.SessionList.{
  SessionInfo, default_session_condition, default_session_comparation, is_exist, is_exist_when,
  is_exist_session, remove_when,
}
use seastar_live.Server.Transmition.{
  Transmition, add_player, remove_publisher, remove_publisher_at, remove_publishers, add_publisher,
  remove_player, remove_player_at, remove_players, on_session_end,
}
use seastar_live.Server.Transmition.Routes.{Request, RequestMode, handle}

-- The calls that change the server's lists, and the requests of RTMP clients with the object that each
-- would allocate.
pub data Call : Type 0 where
  add_publisher_call : ℕ → Call
  remove_publisher_call : ℕ → Call
  remove_publisher_at_call : ℕ → Call
  remove_publishers_call : String → String → Call
  add_player_call : ℕ → Call
  remove_player_call : ℕ → Call
  remove_player_at_call : ℕ → Call
  remove_players_call : String → String → Call
  session_end_call : ℕ → Call
  request_call : RequestMode → Request → ℕ → Call

module _ (heap : ℕ → SessionInfo) (type_of : ℕ → ℕ) (mode : String) (hls_ts_enabled : Bool)
    (hls_player : ℕ → ℕ) where
  unfoldable pub call : Transmition → Call → Transmition
  unfolding add_publisher remove_publisher remove_publisher_at remove_publishers add_player
      remove_player remove_player_at remove_players on_session_end handle
  call t (add_publisher_call p) = (add_publisher heap hls_ts_enabled hls_player t p).1
  call t (remove_publisher_call p) = remove_publisher heap t p
  call t (remove_publisher_at_call p) = remove_publisher_at heap t p
  call t (remove_publishers_call app stream) = remove_publishers heap t app stream
  call t (add_player_call p) = (add_player t p).1
  call t (remove_player_call p) = remove_player heap mode t p
  call t (remove_player_at_call p) = remove_player_at heap mode t p
  call t (remove_players_call app stream) = remove_players heap mode t app stream
  call t (session_end_call s) = on_session_end heap mode type_of t s
  call t (request_call m r made) = (handle heap hls_ts_enabled hls_player m t r made).1

  unfoldable pub calls : Transmition → List Call → Transmition
  unfolding call
  calls t [] = t
  calls t (c ∷ cs) = calls (call t c) cs
