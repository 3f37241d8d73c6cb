-- ===== src/Session/Impl.antt =====
-- src/session/session.cc: the life of a session_impl, with the status of src/util/status.hh. `reports` is
-- the calls made of the lifecycle, in order. The metadata a session keeps (`on_meta`), its names and
-- what it logs are left out; the hooks `on_done`, `on_cancel` and `on_fail`, which do nothing here, are
-- in the classes that define them.
pub mod Verdicts
use seastar_live.Prelude.{
  ℕ, zero, suc, ◌+◌, ◌-◌, ◌*◌, ◌/◌, ◌%◌, ◌^◌, ◌≤◌, ◌<◌, min, ◌≡◌, refl, sym, ap, ap₂, ◌∙◌, ◌≢◌, ◌↔◌,
  ◌⊎◌, inl, inr, Bool, true, false, ◌&&◌, ◌||◌, not, Option, none, some, List, [], ◌∷◌, ◌++◌, map,
  append-nil, append_assoc, arith, ltb, leb, ◌==◌, if◌then◌else◌, ltb→lt, lt→ltb, leb→le, ==_iff,
  tests, Bool-cases, Option-cases, length, get_elem?, set, length-append, get_or, take, drop,
  replicate, take-append-drop,
}
use seastar_live.Prelude.Int.{ℤ, negsuc, eqb_ℤ}
use Prim.Native.String.{String}

pub data StatusCode : Type 0 where
  ok : StatusCode
  failed : StatusCode
  cancel : StatusCode
  no_content : StatusCode
  not_found : StatusCode
  gone : StatusCode
  redirect : StatusCode
  timeout : StatusCode
  bad_request : StatusCode
  conflict : StatusCode
  send_failed : StatusCode
  recv_failed : StatusCode
  connect : StatusCode
  disconnect : StatusCode
  internal_error : StatusCode

pub record Status : Type 0 where
  pub code : StatusCode
  pub content : String

pub data Report : Type 0 where
  on_launch_report : Report
  on_begin_report : Report
  on_done_report : Report
  on_cancel_report : Report
  on_fail_report : Status → Report

pub record SessionImpl : Type 0 where
  pub is_done : Bool
  pub is_canceled : Bool
  pub is_failed : Bool
  pub is_timeout : Bool
  pub status : Status
  pub start_dts : ℤ
  pub current_dts : ℤ
  pub has_lifecycle : Bool
  pub reports : List Report

abbrev pub default_status : Status
default_status = record { code = ok; content = "" }

abbrev pub timed_out_status : Status
timed_out_status = record { code = timeout; content = "timed out" }

unfoldable pub is_complete : SessionImpl → Bool
is_complete s = s.is_done || s.is_canceled || s.is_failed || s.is_timeout

unfoldable pub _end : SessionImpl → SessionImpl
unfolding is_complete
_end s =
    if is_complete s
    then s
    else record s { is_done = true; status = record { code = ok; content = "" } }

unfoldable pub _cancel : SessionImpl → SessionImpl
unfolding is_complete
_cancel s =
    if is_complete s
    then s
    else record s { is_canceled = true; status = record { code = cancel; content = "" } }

unfoldable pub _set_status : SessionImpl → Status → SessionImpl
_set_status s st = record s { status = st }

unfoldable pub _fail : SessionImpl → Status → SessionImpl
unfolding is_complete _set_status
_fail s st = if is_complete s then s else _set_status (record s { is_failed = true }) st

unfoldable pub on_timeout : SessionImpl → SessionImpl
unfolding _set_status
on_timeout s = _set_status (record s { is_timeout = true }) timed_out_status

unfoldable pub on_media : SessionImpl → ℤ → SessionImpl
on_media s dts = record s {
  start_dts = if eqb_ℤ s.start_dts (negsuc 0) then dts else s.start_dts;
  current_dts = dts;
}

unfoldable pub report : SessionImpl → Report → SessionImpl
report s r = if s.has_lifecycle then record s { reports = s.reports ++ r ∷ [] } else s

unfoldable pub on_begin : SessionImpl → SessionImpl
unfolding report
on_begin s =
    report
      (record s { is_done = false; is_canceled = false; is_failed = false; is_timeout = false })
      on_begin_report

unfoldable pub on_launch : SessionImpl → SessionImpl
unfolding report
on_launch s = report (record s { status = default_status }) on_launch_report

-- `none` is the failed `assert(0)`.
unfoldable pub final_report : SessionImpl → Option Report
final_report s =
    if s.is_failed || s.is_timeout
    then some (on_fail_report s.status)
    else if s.is_canceled
    then some on_cancel_report
    else if s.is_done
    then some on_done_report
    else none

abbrev pub terminated : SessionImpl → Option Report → Option SessionImpl
terminated s none = none
terminated s (some r) = some (record s { has_lifecycle = false; reports = s.reports ++ r ∷ [] })

unfoldable pub on_terminate : SessionImpl → Option SessionImpl
unfolding final_report
on_terminate s = if s.has_lifecycle then terminated s (final_report s) else some s
