-- ===== src/Session/Impl/Verdicts.antt =====
-- The four flags and the status of a session (src/session/session.cc) as one verdict.
use seastar_live.Prelude.{
  ◌≡◌, refl, ap, ap₂, ◌∙◌, inl, inr, true, Option, none, some, List, [], ◌∷◌, ◌++◌, arith,
  Option-cases,
}
use seastar_live.Prelude.Int.{ℤ}
use seastar_live.Session.Impl.{
  Status, Report, SessionImpl, on_done_report, on_cancel_report, on_fail_report, is_complete,
  timed_out_status, _end, _cancel, _fail, _set_status, on_timeout, on_media, on_begin, report,
  final_report, on_terminate, on_begin_report,
}

-- The calls between `on_begin` and `on_terminate`.
pub data Call : Type 0 where
  call_end : Call
  call_cancel : Call
  call_fail : Status → Call
  call_set_status : Status → Call
  call_timeout : Call
  call_media : ℤ → Call

unfoldable pub step : SessionImpl → Call → SessionImpl
unfolding _end _cancel _fail _set_status on_timeout on_media
step s call_end = _end s
step s call_cancel = _cancel s
step s (call_fail st) = _fail s st
step s (call_set_status st) = _set_status s st
step s call_timeout = on_timeout s
step s (call_media dts) = on_media s dts

unfoldable pub steps : SessionImpl → List Call → SessionImpl
unfolding step
steps s [] = s
steps s (c ∷ cs) = steps (step s c) cs

-- The first of end, cancel and fail decides, a timeout overrules it, and a status that is set later
-- is that of a failure already decided.
unfoldable pub decide : Option Report → Call → Option Report
decide v call_timeout = some (on_fail_report timed_out_status)
decide (some (on_fail_report st)) (call_set_status st') = some (on_fail_report st')
decide none call_end = some on_done_report
decide none call_cancel = some on_cancel_report
decide none (call_fail st) = some (on_fail_report st)
decide v c = v

unfoldable pub verdict : Option Report → List Call → Option Report
unfolding decide
verdict v [] = v
verdict v (c ∷ cs) = verdict (decide v c) cs

step-decide : (s : SessionImpl) (c : Call) → final_report (step s c) ≡ decide (final_report s) c
unfolding step decide final_report is_complete
step-decide s call_end = ground arith
step-decide s call_cancel = ground arith
step-decide s (call_fail st) = ground arith
step-decide s (call_set_status st) = ground arith
step-decide s call_timeout = ground arith
step-decide s (call_media dts) = ground arith

steps-verdict :
    (s : SessionImpl) (cs : List Call) → final_report (steps s cs) ≡ verdict (final_report s) cs
unfolding steps verdict
steps-verdict s [] = refl
steps-verdict s (c ∷ cs) = steps-verdict (step s c) cs ∙ ap (λ v. verdict v cs) (step-decide s c)

-- No call reports, and none leaves the lifecycle.
step-reports :
    (s : SessionImpl) (c : Call)
    → ((step s c).reports ≡ s.reports) × ((step s c).has_lifecycle ≡ s.has_lifecycle)
unfolding step is_complete
step-reports s call_end = (ground arith, ground arith)
step-reports s call_cancel = (ground arith, ground arith)
step-reports s (call_fail st) = (ground arith, ground arith)
step-reports s (call_set_status st) = (refl, refl)
step-reports s call_timeout = (refl, refl)
step-reports s (call_media dts) = (refl, refl)

steps-reports :
    (s : SessionImpl) (cs : List Call)
    → ((steps s cs).reports ≡ s.reports) × ((steps s cs).has_lifecycle ≡ s.has_lifecycle)
unfolding steps
steps-reports s [] = (refl, refl)
steps-reports s (c ∷ cs) =
    let (e, l) = steps-reports (step s c) cs in let (f, m) = step-reports s c in (e ∙ f, l ∙ m)

unfoldable pub reports_of : Option SessionImpl → Option (List Report)
reports_of none = none
reports_of (some s) = some s.reports

unfoldable pub told : List Report → Option Report → Option (List Report)
told rs none = none
told rs (some r) = some (rs ++ r ∷ [])

reports_of-on_terminate :
    (s : SessionImpl)
    → s.has_lifecycle ≡ true
    → reports_of (on_terminate s) ≡ told s.reports (final_report s)
unfolding on_terminate reports_of told
reports_of-on_terminate s l =
    rw l (elim (Option-cases (final_report s)) [ inl e ↦ rw e refl | inr p ↦ rw p.1 refl ])

on_begin_parts :
    (s : SessionImpl)
    → s.has_lifecycle ≡ true
    → ((on_begin s).has_lifecycle ≡ true)
      × ((on_begin s).reports ≡ s.reports ++ on_begin_report ∷ [])
      × (final_report (on_begin s) ≡ none)
unfolding on_begin report final_report
on_begin_parts s l = rw l (refl, refl, refl)

-- What a session with a lifecycle is reported as: after `on_begin` and any calls `on_terminate`
-- reports the verdict of the calls, and no other report is made in between. Its assertion fails just
-- when no call was an end, a cancel, a failure or a timeout.
pub on_terminate-verdict :
    (s : SessionImpl) (cs : List Call)
    → s.has_lifecycle ≡ true
    → reports_of (on_terminate (steps (on_begin s) cs))
      ≡ told (s.reports ++ on_begin_report ∷ []) (verdict none cs)
on_terminate-verdict s cs l =
    let b = on_begin s in
    let (e, m) = steps-reports b cs in
    let (h, r, f) = on_begin_parts s l in
    reports_of-on_terminate (steps b cs) (m ∙ h)
    ∙ ap₂ told (e ∙ r) (steps-verdict b cs ∙ ap (λ v. verdict v cs) f)
