-- ===== src/Server/SessionList/Tests.antt =====
-- The session list of src/server/transmition.cc at concrete sessions: of the even ones, those over 2.
use seastar_live.Prelude.{ℕ, ◌+◌, ◌%◌, ◌≡◌, refl, Bool, some, List, [], ◌∷◌, ltb, ◌==◌, length}
use seastar_live.Server.SessionList.{
  SessionInfo, Filter, remove_when, size, find_all, find_all_when, find_any_when, find_all_from,
  size_when, is_exist_when, for_each_when, default_session_condition, default_session_comparation,
}
use seastar_live.Server.SessionList.Queries.{
  count_session, first, is_nonempty, find_all_when-agrees, remove_when-finds,
}

abbrev even : ℕ → Bool
even n = n % 2 == 0

abbrev over_two : ℕ → Bool
over_two n = ltb 2 n

abbrev sessions : List ℕ
sessions = 1 ∷ 2 ∷ 4 ∷ 5 ∷ 6 ∷ []

find_all_when-agrees_example :
    (find_all_when even over_two sessions ≡ for_each_when even over_two sessions)
    × (find_any_when even over_two sessions ≡ first (find_all_when even over_two sessions))
    × (size_when even over_two sessions ≡ length (find_all_when even over_two sessions))
    × (is_exist_when even over_two sessions ≡ is_nonempty (find_all_when even over_two sessions))
find_all_when-agrees_example = find_all_when-agrees even over_two sessions

remove_when-finds_example :
    (find_all_when even over_two (remove_when even over_two sessions).1 ≡ [])
    × ((s : ℕ)
        → count_session s (remove_when even over_two sessions).1
            + count_session s (find_all_when even over_two sessions)
          ≡ count_session s sessions)
    × ((remove_when even over_two sessions).0 ≡ is_exist_when even over_two sessions)
remove_when-finds_example = remove_when-finds even over_two sessions

abbrev any : Filter
any = record { app = ""; stream = ""; os = 0; fmt = 4; prot = 0 }

abbrev live : ℕ → SessionInfo
live s = record { app = "live"; stream = "a"; owner = 2; format = 1; protocol = 2 }

-- With no filter `size` counts the sessions that its condition and its type leave out, `find_all` does not.
size_of_any :
    (size even live any (some over_two) sessions ≡ 5)
    × (length (find_all even live any (some over_two) sessions) ≡ 2)
unfolding size find_all find_all_when find_all_from default_session_condition
    default_session_comparation
size_of_any = (refl, refl)
