-- ===== src/Server/Transmition/Tests.antt =====
-- The server's sessions of src/server/transmition.cc with a user's publisher 7 of `live/a`, its players 8 and 9,
-- and requests for the stream.
use seastar_live.Prelude.{ℕ, ◌+◌, ◌≡◌, refl, ◌≢◌, false, List, [], ◌∷◌, arith, ◌==◌, if◌then◌else◌}
use Prim.Native.String.{String}
use text.Mathlib.Text.{◌==◌ as str_eq}
use text.Mathlib.TextEquality.{eq_iff}
use seastar_live.Enums.{type_play, type_publish}
use seastar_live.Server.SessionList.{SessionInfo, is_exist_session}
use seastar_live.Server.Transmition.{
  Transmition, empty_transmition, is_exist_publisher, find_players, on_session_end,
}
use seastar_live.Server.Transmition.Routes.{
  Request, publish, internal_error, refusal, handle_publish,
}
use seastar_live.Server.Transmition.Publishers.{OnePublisher, of_stream}
use seastar_live.Server.Transmition.Calls.{Call, add_publisher_call, add_player_call, request_call}
use seastar_live.Server.Transmition.Requests.{handle_publish_twice}
use seastar_live.Server.Transmition.Endings.{on_session_end-publisher}

abbrev users : ℕ → SessionInfo
users s = record { app = "live"; stream = "a"; owner = 2; format = 1; protocol = 2 }

abbrev types : ℕ → ℕ
types s = if s == 7 then type_publish else type_play

abbrev player_of_hls : ℕ → ℕ
player_of_hls p = p + 100

abbrev request : Request
request = record { app_name = "live"; stream_name = "a"; remote_address = "here"; uuid = "u" }

abbrev played : List Call
played =
    request_call publish request 7
    ∷ add_publisher_call 6
    ∷ add_player_call 8
    ∷ add_player_call 9
    ∷ []

abbrev served : Transmition
served = record {
  players = 8 ∷ 9 ∷ [];
  publishers = 7 ∷ [];
  launched = 7 ∷ [];
  started = 7 ∷ [];
  canceled = [];
}

differ : (a b : String) → str_eq a b ≡ false → a ≢ b
differ a b h e = absurd (ground (arith, h, e, eq_iff a b))

-- One publisher of the stream, and none of the others.
served-OnePublisher : OnePublisher users served
unfolding OnePublisher of_stream
served-OnePublisher app stream = ground arith

handle_publish_twice_example :
    let u = (handle_publish users false player_of_hls empty_transmition request 7).1 in
    handle_publish users false player_of_hls u request 6 ≡ (refusal internal_error, u)
unfolding is_exist_session handle_publish
handle_publish_twice_example =
    handle_publish_twice users false player_of_hls empty_transmition request request 7 6 refl refl
      refl refl refl refl

on_session_end-publisher_example :
    let u = on_session_end users "user" types served 7 in
    (is_exist_publisher users u "live" "a" ≡ false)
    × (u.canceled ≡ find_players users served "live" "a")
    × (u.players ≡ 8 ∷ 9 ∷ [])
unfolding is_exist_session
on_session_end-publisher_example =
    on_session_end-publisher users "user" types served 7 refl served-OnePublisher refl
      (differ "live" "" refl) (differ "a" "" refl)
