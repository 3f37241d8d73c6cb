-- ===== src/Retry.antt =====
-- src/util/retry_mode.cc and src/util/retry_runner.cc: a runner that calls a function until it succeeds or has
-- failed too often. `func` is the function with the counts it is called with: whether it succeeds,
-- and what the system clock reads when it starts and when it ends. `canceled` says of the number of
-- the try that is being waited for whether `cancel` is called during the wait. Counts are below the
-- limits of an int.
pub mod Ends
pub mod Delays
mod Tests
use seastar_live.Prelude.{
  ℕ, zero, suc, ◌+◌, ◌-◌, ◌*◌, ◌/◌, ◌%◌, ◌^◌, ◌≤◌, ◌<◌, min, ◌≡◌, refl, sym, ap, ap₂, ◌∙◌, ◌≢◌, ◌↔◌,
  ◌⊎◌, inl, inr, Bool, true, false, ◌&&◌, ◌||◌, not, Option, none, some, List, [], ◌∷◌, ◌++◌, map,
  append-nil, append_assoc, arith, ltb, leb, ◌==◌, if◌then◌else◌, ltb→lt, lt→ltb, leb→le, ==_iff,
  tests, Bool-cases, Option-cases, length, get_elem?, set, length-append, get_or, take, drop,
  replicate, take-append-drop,
}

pub record Try : Type 0 where
  pub succeeded : Bool
  pub started : ℕ
  pub ended : ℕ

-- retry_mode
pub record Mode : Type 0 where
  pub excuting : Bool
  pub try_times : ℕ
  pub total_try_times : ℕ
  pub max_try_times : ℕ
  pub timestamp : ℕ
  pub last_timestamp : ℕ
  pub first_timestamp : ℕ

pub data Validation : Type 0 where
  valid : Validation
  invalid : Validation
  out_of_range : Validation

pub data Result : Type 0 where
  succeeds : Result
  gives_up : Result
  fails : Result

unfoldable pub retry_times : Mode → ℕ
retry_times m = m.try_times - 1

unfoldable pub set_max_try_times : Mode → ℕ → Mode
set_max_try_times m n = record m { max_try_times = n }

unfoldable pub _validate : Mode → Validation
_validate m =
    if m.excuting then invalid else if leb m.max_try_times m.try_times then out_of_range else valid

unfoldable pub _reset : Mode → ℕ → Mode
_reset m now = record m { try_times = 0; last_timestamp = now; first_timestamp = now }

unfoldable pub _on_try_once : Mode → ℕ → Mode
_on_try_once m now = record m {
  first_timestamp = if m.try_times == 1 then now else m.first_timestamp;
  last_timestamp = now;
}

-- `_do_try` up to the call of the function, and from its end on.
unfoldable pub start_try : Mode → ℕ → Mode
start_try m now = record m {
  try_times = m.try_times + 1;
  total_try_times = m.total_try_times + 1;
  excuting = true;
  timestamp = now;
}

unfoldable pub end_try : Mode → Try → Mode
unfolding _reset _on_try_once
end_try m t =
    let m' = record m { excuting = false } in
    if t.succeeded then _reset m' t.ended else _on_try_once m' t.ended

-- delay_retry_runner: `waits` is how long each wait was to be, and `finished_calls` counts the calls of
-- `on_retry_finished`.
pub record Runner : Type 0 where
  pub mode : Mode
  pub delay : ℕ
  pub finished : Bool
  pub keep_alive : Bool
  pub waits : List ℕ
  pub finished_calls : ℕ

unfoldable pub finish : Runner → Runner
finish r = record r { finished = true; finished_calls = r.finished_calls + 1 }

unfoldable pub cancel : Runner → Runner
cancel r = record r { finished = true }

abbrev pub delay_retry : ℕ → ℕ → ℕ
delay_retry delay try_times = delay

abbrev pub delay_exponent_retry : ℕ → ℕ → ℕ
delay_exponent_retry delay try_times = delay * 2 ^ try_times

abbrev pub result_of : Bool → Result
result_of true = succeeds
result_of false = fails

-- `current_delay` is that of the mode's class.
module _ (current_delay : ℕ → ℕ → ℕ) (func : ℕ → ℕ → Try) (canceled : ℕ → Bool) where
  -- `retry_mode::_do_try`, whose function is that of `init`.
  unfoldable pub try_now : Runner → Result × Runner
  unfolding start_try end_try
  try_now r =
      let t = func (r.mode.try_times + 1) (r.mode.total_try_times + 1) in
      (
        result_of t.succeeded,
        record r {
          mode = end_try (start_try r.mode t.started) t;
          keep_alive = ltb (r.mode.try_times + 1) r.mode.max_try_times;
        },
      )

  -- `delay_retry_mode::_do_try`: a canceled wait is a future that succeeds.
  unfoldable pub delayed_try : Runner → Result × Runner
  unfolding try_now cancel
  delayed_try r =
      let w = record r { waits = r.waits ++ current_delay r.delay r.mode.try_times ∷ [] } in
      if r.mode.try_times == 0
      then try_now r
      else if canceled (r.mode.total_try_times + 1)
      then (succeeds, cancel w)
      else try_now w

  abbrev pub validated : Runner → Validation → Result × Runner
  unfolding delayed_try
  validated r valid = delayed_try r
  validated r invalid = (succeeds, r)
  validated r out_of_range = (gives_up, r)

  unfoldable pub do_try : Runner → Result × Runner
  unfolding _validate validated
  do_try r = validated r (_validate r.mode)

  -- The body of the loop: other exceptions than that of too many tries are ignored.
  unfoldable pub after_try : Result × Runner → Runner
  unfolding finish
  after_try (succeeds, r) = finish r
  after_try (gives_up, r) = finish r
  after_try (fails, r) = r

  -- `do_until`, on fuel.
  unfoldable pub run_loop : ℕ → Runner → Runner
  unfolding do_try after_try
  run_loop zero r = r
  run_loop (suc fuel) r =
      let rest = run_loop fuel (after_try (do_try r)) in if r.finished then r else rest

  unfoldable pub run : Runner → Runner
  unfolding run_loop
  run r =
      let last = run_loop (suc (r.mode.max_try_times - r.mode.try_times)) r in
      if last.finished then record last { finished_calls = last.finished_calls + 1 } else last
