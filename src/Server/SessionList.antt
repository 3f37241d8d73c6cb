-- ===== src/Server/SessionList.antt =====
-- src/server/transmition.cc: session_list, the sessions of the server. A session is the identity of its
-- object, and the heap says what the object is asked for; `cast` is whether the dynamic cast to the
-- type that a method is used at succeeds. A method holds the lock from its first line on, but for
-- `add`, which tests before it. An empty `std::function` is `none`.
pub mod Queries
mod Tests
use seastar_live.Prelude.{
  ℕ, zero, suc, ◌+◌, ◌-◌, ◌*◌, ◌/◌, ◌%◌, ◌^◌, ◌≤◌, ◌<◌, min, ◌≡◌, refl, sym, ap, ap₂, ◌∙◌, ◌≢◌, ◌↔◌,
  ◌⊎◌, inl, inr, Bool, true, false, ◌&&◌, ◌||◌, not, Option, none, some, List, [], ◌∷◌, ◌++◌, map,
  append-nil, append_assoc, arith, ltb, leb, ◌==◌, if◌then◌else◌, if_keeps, if_then, if_else,
  ltb→lt, lt→ltb, leb→le, ==_iff, tests, Bool-cases, Option-cases, length, get_elem?, set,
  length-append, get_or, take, drop, replicate, take-append-drop,
}
use Prim.Native.String.{String}
use Prim.Native.Nat.{bit_and}
use text.Mathlib.Text.{◌==◌ as str_eq}

pub record SessionInfo : Type 0 where
  pub app : String
  pub stream : String
  pub owner : ℕ
  pub format : ℕ
  pub protocol : ℕ

-- The enumerators that mean any: `ownership_t::ignored`, `format_t::ignored`, `protocol_t::none`.
abbrev pub ownership_ignored : ℕ
ownership_ignored = 0

abbrev pub format_ignored : ℕ
format_ignored = 4

abbrev pub protocol_none : ℕ
protocol_none = 0

pub record Filter : Type 0 where
  pub app : String
  pub stream : String
  pub os : ℕ
  pub fmt : ℕ
  pub prot : ℕ

unfoldable pub default_session_comparation : SessionInfo → Filter → Bool
default_session_comparation s f =
    (str_eq f.app "" || str_eq s.app f.app)
    && (str_eq f.stream "" || str_eq s.stream f.stream)
    && ((ownership_ignored == f.os) || (s.owner == f.os))
    && ((format_ignored == f.fmt) || (s.format == f.fmt))
    && ((protocol_none == f.prot) || not (bit_and s.protocol f.prot == protocol_none))

abbrev pub or_true : Option (ℕ → Bool) → ℕ → Bool
or_true none s = true
or_true (some c) s = c s

unfoldable pub is_exist_session : List ℕ → ℕ → Bool
is_exist_session [] s = false
is_exist_session (x ∷ xs) s = (x == s) || is_exist_session xs s

unfoldable pub add : List ℕ → ℕ → Bool × List ℕ
unfolding is_exist_session
add xs s = if is_exist_session xs s then (false, xs) else (true, xs ++ s ∷ [])

unfoldable pub remove : List ℕ → ℕ → List ℕ
remove [] s = []
remove (x ∷ xs) s = if x == s then xs else x ∷ remove xs s

module _ (cast : ℕ → Bool) where
  unfoldable pub remove_when : (ℕ → Bool) → List ℕ → Bool × List ℕ
  remove_when condition [] = (false, [])
  remove_when condition (x ∷ xs) =
      let (rt, rest) = remove_when condition xs in
      if cast x && condition x then (true, rest) else (rt, x ∷ rest)

  -- `size` counts on from the number found before.
  unfoldable pub size_from : ℕ → (ℕ → Bool) → List ℕ → ℕ
  size_from size condition [] = size
  size_from size condition (x ∷ xs) =
      size_from (if cast x && condition x then size + 1 else size) condition xs

  unfoldable pub size_when : (ℕ → Bool) → List ℕ → ℕ
  unfolding size_from
  size_when condition xs = size_from 0 condition xs

  unfoldable pub find_any_when : (ℕ → Bool) → List ℕ → Option ℕ
  find_any_when condition [] = none
  find_any_when condition (x ∷ xs) =
      let rest = find_any_when condition xs in if cast x && condition x then some x else rest

  unfoldable pub find_all_from : List ℕ → (ℕ → Bool) → List ℕ → List ℕ
  find_all_from sessions condition [] = sessions
  find_all_from sessions condition (x ∷ xs) =
      find_all_from (if cast x && condition x then sessions ++ x ∷ [] else sessions) condition xs

  unfoldable pub find_all_when : (ℕ → Bool) → List ℕ → List ℕ
  unfolding find_all_from
  find_all_when condition xs = find_all_from [] condition xs

  unfoldable pub is_exist_when : (ℕ → Bool) → List ℕ → Bool
  is_exist_when condition [] = false
  is_exist_when condition (x ∷ xs) =
      let rest = is_exist_when condition xs in if cast x && condition x then true else rest

  -- The sessions that `for_each_when` runs its action on, in order.
  unfoldable pub for_each_when : (ℕ → Bool) → List ℕ → List ℕ
  for_each_when condition [] = []
  for_each_when condition (x ∷ xs) =
      let rest = for_each_when condition xs in if cast x && condition x then x ∷ rest else rest

  module _ (heap : ℕ → SessionInfo) where
    unfoldable pub default_session_condition : Filter → Option (ℕ → Bool) → ℕ → Bool
    unfolding default_session_comparation
    default_session_condition f condition s =
        default_session_comparation (heap s) f && or_true condition s

    unfoldable pub for_each : Filter → Option (ℕ → Bool) → List ℕ → List ℕ
    unfolding for_each_when default_session_condition
    for_each f condition xs = for_each_when (default_session_condition f condition) xs

    unfoldable pub size : Filter → Option (ℕ → Bool) → List ℕ → ℕ
    unfolding size_when default_session_condition
    size f condition xs =
        if str_eq f.app ""
          && str_eq f.stream ""
          && (f.os == ownership_ignored)
          && (f.fmt == format_ignored)
          && (f.prot == protocol_none)
        then length xs
        else size_when (default_session_condition f condition) xs

    unfoldable pub find_any : Filter → Option (ℕ → Bool) → List ℕ → Option ℕ
    unfolding find_any_when default_session_condition
    find_any f condition xs = find_any_when (default_session_condition f condition) xs

    unfoldable pub find_all : Filter → Option (ℕ → Bool) → List ℕ → List ℕ
    unfolding find_all_when default_session_condition
    find_all f condition xs = find_all_when (default_session_condition f condition) xs

    unfoldable pub remove_all : String → String → List ℕ → List ℕ
    unfolding remove_when
    remove_all app stream xs =
        (remove_when (λ s. str_eq (heap s).app app && str_eq (heap s).stream stream) xs).1

-- `is_exist` searches at the list's own type, whatever type it is used at.
module _ (heap : ℕ → SessionInfo) where
  unfoldable pub is_exist : Filter → Option (ℕ → Bool) → List ℕ → Bool
  unfolding is_exist_when default_session_condition
  is_exist f condition xs =
      is_exist_when (λ s. true) (default_session_condition (λ s. true) heap f condition) xs
