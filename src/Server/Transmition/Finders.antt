-- ===== src/Server/Transmition/Finders.antt =====
-- src/server/transmition.cc: the queries over publishers and players. `is_rtmp` and `is_hls` say of an
-- object whether it is of the RTMP or the HLS class, `media_type_of` and `version_of` what an HLS player is
-- asked for. An empty `std::function` is `none`.
use seastar_live.Prelude.{
  ℕ, ◌+◌, Bool, true, false, Option, none, some, List, ◌++◌, ◌==◌, if◌then◌else◌,
}
use Prim.Native.String.{String}
use Prim.Native.Nat.{bit_and}
use text.Mathlib.Text.{◌==◌ as str_eq}
use seastar_live.Frame.{media_none}
use seastar_live.Enums.{
  format_hls, protocol_http1, protocol_http2, protocol_http3, ownership_invisible,
}
use seastar_live.Server.SessionList.{
  SessionInfo, Filter, find_any, find_all, find_any_when, size, for_each, is_exist,
}
use seastar_live.Server.Transmition.{Transmition, version_none, by_name, own_class}

abbrev pub protocol_http : ℕ
protocol_http = protocol_http1 + protocol_http2 + protocol_http3

-- A filter with no names.
abbrev pub by_kind : ℕ → ℕ → ℕ → Filter
by_kind os fmt prot = record (by_name "" "") { os = os; fmt = fmt; prot = prot }

abbrev pub or_else : Option ℕ → Option ℕ → Option ℕ
or_else none other = other
or_else (some s) other = some s

module _ (id_of : ℕ → String) where
  unfoldable pub find_publisher_by_id : Transmition → String → Option ℕ
  unfolding find_any_when
  find_publisher_by_id t id = find_any_when own_class (λ s. str_eq (id_of s) id) t.publishers

  unfoldable pub find_player_by_id : Transmition → String → Option ℕ
  unfolding find_any_when
  find_player_by_id t id = find_any_when own_class (λ s. str_eq (id_of s) id) t.players

  unfoldable pub find_session : Transmition → String → Option ℕ
  unfolding find_publisher_by_id find_player_by_id
  find_session t id = or_else (find_publisher_by_id t id) (find_player_by_id t id)

unfoldable pub all_sessions : Transmition → List ℕ
all_sessions t = t.players ++ t.publishers

module _ (heap : ℕ → SessionInfo) where
  unfoldable pub find_sessions : Transmition → Filter → Option (ℕ → Bool) → List ℕ
  unfolding find_all
  find_sessions t f condition =
      find_all own_class heap f condition t.publishers
      ++ find_all own_class heap f condition t.players

  -- The sessions that `func` is called with, in order.
  unfoldable pub for_each_session : Transmition → String → String → List ℕ
  unfolding for_each
  for_each_session t app stream =
      for_each own_class heap (by_name app stream) none t.publishers
      ++ for_each own_class heap (by_name app stream) none t.players

  unfoldable pub total_count : Transmition → ℕ
  unfolding size
  total_count t =
      size own_class heap (by_name "" "") none t.publishers
      + size own_class heap (by_name "" "") none t.players

  unfoldable pub find_publishers : Transmition → ℕ → ℕ → ℕ → Option (ℕ → Bool) → List ℕ
  unfolding find_all
  find_publishers t os fmt prot condition =
      find_all own_class heap (by_kind os fmt prot) condition t.publishers

  unfoldable pub find_any_player : Transmition → Filter → Option (ℕ → Bool) → Option ℕ
  unfolding find_any
  find_any_player t f condition = find_any own_class heap f condition t.players

  unfoldable pub is_exist_player : Transmition → String → String → Bool
  unfolding is_exist
  is_exist_player t app stream = is_exist heap (by_name app stream) none t.players

  module _ (is_rtmp : ℕ → Bool) where
    unfoldable pub get_rtmp_publishers_size : Transmition → Filter → Option (ℕ → Bool) → ℕ
    unfolding size
    get_rtmp_publishers_size t f condition = size is_rtmp heap f condition t.publishers

    unfoldable pub find_rtmp_publisher : Transmition → Filter → Option (ℕ → Bool) → Option ℕ
    unfolding find_any
    find_rtmp_publisher t f condition = find_any is_rtmp heap f condition t.publishers

    unfoldable pub find_rtmp_publishers : Transmition → ℕ → ℕ → ℕ → Option (ℕ → Bool) → List ℕ
    unfolding find_all
    find_rtmp_publishers t os fmt prot condition =
        find_all is_rtmp heap (by_kind os fmt prot) condition t.publishers

    unfoldable pub get_rtmp_players_size : Transmition → Filter → Option (ℕ → Bool) → ℕ
    unfolding size
    get_rtmp_players_size t f condition = size is_rtmp heap f condition t.players

    unfoldable pub find_any_rtmp_player : Transmition → Filter → Option (ℕ → Bool) → Option ℕ
    unfolding find_any
    find_any_rtmp_player t f condition = find_any is_rtmp heap f condition t.players

    unfoldable pub find_rtmp_players : Transmition → Filter → Option (ℕ → Bool) → List ℕ
    unfolding find_all
    find_rtmp_players t f condition = find_all is_rtmp heap f condition t.players

  module _ (is_hls : ℕ → Bool) (media_type_of version_of : ℕ → ℕ) where
    abbrev pub condition_or_true : Option (ℕ → Bool) → ℕ → Bool
    condition_or_true none s = true
    condition_or_true (some c) s = c s

    -- The condition of the three queries below.
    unfoldable pub hls_condition : ℕ → ℕ → Option (ℕ → Bool) → ℕ → Bool
    hls_condition media_type version condition plyr =
        if bit_and (media_type_of plyr) media_type == media_none
        then false
        else if bit_and (version_of plyr) version == version_none
        then false
        else condition_or_true condition plyr

    abbrev pub hls_filter : String → String → Filter
    hls_filter app stream = record {
      app = app;
      stream = stream;
      os = ownership_invisible;
      fmt = format_hls;
      prot = protocol_http;
    }

    unfoldable pub get_hls_players_size :
        Transmition → String → String → ℕ → ℕ → Option (ℕ → Bool) → ℕ
    unfolding size hls_condition
    get_hls_players_size t app stream media_type version condition =
        size is_hls heap (hls_filter app stream) (some (hls_condition media_type version condition))
          t.players

    unfoldable pub find_any_hls_player :
        Transmition → String → String → ℕ → ℕ → Option (ℕ → Bool) → Option ℕ
    unfolding find_any hls_condition
    find_any_hls_player t app stream media_type version condition =
        find_any is_hls heap (hls_filter app stream)
          (some (hls_condition media_type version condition)) t.players

    unfoldable pub find_hls_players :
        Transmition → String → String → ℕ → ℕ → Option (ℕ → Bool) → List ℕ
    unfolding find_all hls_condition
    find_hls_players t app stream media_type version condition =
        find_all is_hls heap (hls_filter app stream)
          (some (hls_condition media_type version condition)) t.players
