-- ===== src/Retry/Ends.antt =====
-- The loop of src/util/retry_runner.cc ends, after a bounded number of tries.
use seastar_live.Prelude.{
  ℕ, zero, suc, ◌+◌, ◌-◌, ◌≤◌, ◌<◌, ◌≡◌, refl, ◌⊎◌, inl, inr, Bool, true, false, arith, leb,
  if_then, Bool-cases,
}
use seastar_live.Retry.{
  Try, Mode, Runner, Result, _validate, valid, out_of_range, after_try, run_loop,
}

pub _validate-cases :
    (m : Mode)
    → m.excuting ≡ false
    → ((_validate m ≡ out_of_range) × (m.max_try_times ≤ m.try_times))
      ⊎ ((_validate m ≡ valid) × (m.try_times < m.max_try_times))
unfolding _validate
_validate-cases m e = elim (Bool-cases (leb m.max_try_times m.try_times)) [
  | inl b ↦ inl (simp (e, b), ground arith)
  | inr b ↦ inr (simp (e, b), ground arith)
]

module _ (current_delay : ℕ → ℕ → ℕ) (func : ℕ → ℕ → Try) (canceled : ℕ → Bool) where
  -- One turn of the loop: it finishes, or makes one more try of those that are left.
  Finishes : Runner → Runner → Type 0
  Finishes r s =
      (s.finished ≡ true)
      × (s.mode.total_try_times
          ≤ r.mode.total_try_times + (r.mode.max_try_times - r.mode.try_times))
      × (s.finished_calls ≡ r.finished_calls + 1)

  GoesOn : Runner → Runner → Type 0
  GoesOn r s =
      (s.finished ≡ r.finished)
      × (s.mode.excuting ≡ false)
      × (s.mode.try_times ≡ r.mode.try_times + 1)
      × (s.mode.max_try_times ≡ r.mode.max_try_times)
      × (r.mode.try_times < r.mode.max_try_times)
      × (s.mode.total_try_times ≡ r.mode.total_try_times + 1)
      × (s.finished_calls ≡ r.finished_calls)

  RetryTurn : Runner → Result × Runner → Type 0
  unfolding Finishes GoesOn after_try
  RetryTurn r x =
      Finishes r (after_try current_delay func canceled x)
      ⊎ GoesOn r (after_try current_delay func canceled x)

  pub run_loop-finished :
      (fuel : ℕ) (r : Runner) → r.finished ≡ true → run_loop current_delay func canceled fuel r ≡ r
  unfolding run_loop
  run_loop-finished zero r f = refl
  run_loop-finished (suc fuel) r f = if_then (λ t. t ≡ r) _ f refl
