-- ===== src/Server/Transmition/Routes.antt =====
-- src/server/transmition.cc and src/server/rtmp/route_handler.cc: making sessions and the two RTMP handlers that
-- start them, with `routes::handle` of src/rtmp/routes.cc. `made` is the identity of the object that a
-- request would allocate. `validate` of the server itself always succeeds; a class that overrides it may
-- answer otherwise. The assertions that a name is not empty are tested again, and so are empty. `body`
-- is the session whose start_with the connection is to run.
use seastar_live.Prelude.{ℕ, Bool, ◌||◌, Option, none, some, ◌==◌, if◌then◌else◌}
use Prim.Native.String.{String}
use text.Mathlib.Text.{◌==◌ as str_eq}
use seastar_live.Enums.{
  format_unknown, format_flv, protocol_rtmp, protocol_http1, protocol_to_default_format,
}
use seastar_live.Server.SessionList.{SessionInfo, format_ignored, ownership_ignored}
use seastar_live.Server.Transmition.{
  Transmition, is_exist_publisher, find_publisher, add_publisher, add_player,
}

-- What a request asks for.
pub record Wanted : Type 0 where
  pub prot : ℕ
  pub fmt : ℕ
  pub id : String
  pub app : String
  pub stream : String
  pub address : String

unfoldable pub format_or_default : ℕ → ℕ → ℕ
unfolding protocol_to_default_format
format_or_default fmt prot = if fmt == format_ignored then protocol_to_default_format prot else fmt

unfoldable pub make_publisher : Wanted → ℕ → Option ℕ
unfolding format_or_default
make_publisher w made =
    if str_eq w.app "" || str_eq w.stream "" || str_eq w.address ""
    then none
    else if format_or_default w.fmt w.prot == format_unknown
    then none
    else if w.prot == protocol_rtmp
    then some made
    else none

-- With an id, on an existing publisher.
unfoldable pub make_player : Wanted → ℕ → Option ℕ
unfolding format_or_default
make_player w made =
    if str_eq w.id "" || str_eq w.app "" || str_eq w.stream "" || str_eq w.address ""
    then none
    else if format_or_default w.fmt w.prot == format_unknown
    then none
    else if (w.prot == protocol_http1) || (w.prot == protocol_rtmp)
    then some made
    else none

-- The overload that generates the id, `uuid`.
unfoldable pub make_player_with : String → Wanted → ℕ → Option ℕ
unfolding make_player
make_player_with uuid w made =
    if str_eq w.app "" || str_eq w.stream "" || str_eq w.address ""
    then none
    else make_player (record w { id = uuid }) made

-- What `validate` answers: `moved` is the HTTP status of that name, `refused` any other failure.
pub data Validity : Type 0 where
  accepted : Validity
  moved : Validity
  refused : Validity

unfoldable pub validate : Wanted → Validity
validate w = accepted

-- A future of a session pointer.
pub data Made : Type 0 where
  made_session : Option ℕ → Made
  make_failed : Made

module _ (heap : ℕ → SessionInfo) where
  unfoldable pub make_valid_publisher : Transmition → Wanted → ℕ → Option ℕ
  unfolding is_exist_publisher make_publisher
  make_valid_publisher t w made =
      if is_exist_publisher heap t w.app w.stream then none else make_publisher w made

  abbrev pub player_of : Wanted → ℕ → Option ℕ → Made
  player_of w made none = made_session none
  player_of w made (some p) = made_session (make_player w made)

  unfoldable pub make_valid_player : Transmition → Validity → Wanted → ℕ → Made
  unfolding find_publisher make_player
  make_valid_player t accepted w made =
      player_of w made (find_publisher heap t w.app w.stream ownership_ignored)
  make_valid_player t moved w made =
      player_of w made (find_publisher heap t w.app w.stream ownership_ignored)
  make_valid_player t refused w made = make_failed

pub data StatusType : Type 0 where
  ok : StatusType
  not_found : StatusType
  internal_error : StatusType

pub record Reply : Type 0 where
  pub status : StatusType
  pub body : Option ℕ

abbrev pub refusal : StatusType → Reply
refusal st = record { status = st; body = none }

pub record Request : Type 0 where
  pub app_name : String
  pub stream_name : String
  pub remote_address : String
  pub uuid : String

abbrev pub wanted_by : Request → Wanted
wanted_by r = record {
  prot = protocol_rtmp;
  fmt = format_flv;
  id = r.uuid;
  app = r.app_name;
  stream = r.stream_name;
  address = r.remote_address;
}

pub data RequestMode : Type 0 where
  publish : RequestMode
  play : RequestMode
  live_only : RequestMode
  vod_only : RequestMode

module _ (heap : ℕ → SessionInfo) where
  unfoldable pub play_made : Transmition → Made → Reply × Transmition
  unfolding add_player
  play_made t make_failed = (refusal internal_error, t)
  play_made t (made_session none) = (refusal not_found, t)
  play_made t (made_session (some p)) = (record { status = ok; body = some p }, (add_player t p).1)

  -- `play_stream_route_handler::handle`
  unfoldable pub handle_play : Transmition → Request → ℕ → Reply × Transmition
  unfolding make_valid_player play_made validate
  handle_play t r made =
      if str_eq r.app_name "" || str_eq r.stream_name ""
      then (refusal not_found, t)
      else play_made t (make_valid_player heap t (validate (wanted_by r)) (wanted_by r) made)

  module _ (hls_ts_enabled : Bool) (hls_player : ℕ → ℕ) where
    -- The result of `add_publisher` is not looked at.
    unfoldable pub publish_made : Transmition → Option ℕ → Reply × Transmition
    unfolding add_publisher
    publish_made t none = (refusal not_found, t)
    publish_made t (some p) = (
      record { status = ok; body = some p },
      (add_publisher heap hls_ts_enabled hls_player t p).1,
    )

    -- `publish_stream_route_handler::handle`
    unfoldable pub handle_publish : Transmition → Request → ℕ → Reply × Transmition
    unfolding is_exist_publisher make_valid_publisher publish_made
    handle_publish t r made =
        if str_eq r.app_name "" || str_eq r.stream_name ""
        then (refusal not_found, t)
        else if is_exist_publisher heap t r.app_name r.stream_name
        then (refusal internal_error, t)
        else publish_made t (make_valid_publisher heap t (wanted_by r) made)

    -- `routes::handle` with the handlers that the server sets, and no default handler.
    unfoldable pub handle : RequestMode → Transmition → Request → ℕ → Reply × Transmition
    unfolding handle_publish handle_play
    handle publish t r made = handle_publish t r made
    handle play t r made = handle_play t r made
    handle live_only t r made = (refusal not_found, t)
    handle vod_only t r made = (refusal not_found, t)
