-- ===== src/Retry/Delays.antt =====
-- How long delay_exponent_retry_mode of src/util/retry_mode.cc waits in all before it gives up.
use seastar_live.Prelude.{ℕ, ◌+◌, ◌≡◌, Bool, false, List, [], ◌∷◌}
use seastar_live.Retry.{Try, Runner, do_try, after_try, delay_exponent_retry}

unfoldable pub sum : List ℕ → ℕ
sum [] = 0
sum (x ∷ xs) = x + sum xs

module _ (func : ℕ → ℕ → Try) (canceled : ℕ → Bool)
    (all_fail : (n t : ℕ) → (func n t).succeeded ≡ false)
    (none_canceled : (n : ℕ) → canceled n ≡ false) where
  loop_turn : Runner → Runner
  unfolding after_try do_try
  loop_turn r =
      after_try delay_exponent_retry func canceled (do_try delay_exponent_retry func canceled r)

  -- A turn that tries, after a wait if it is not the first.
  Tried : List ℕ → Runner → Runner → Type 0
  Tried ws r s =
      (s.finished ≡ r.finished)
      × (s.mode.excuting ≡ false)
      × (s.delay ≡ r.delay)
      × (s.mode.try_times ≡ r.mode.try_times + 1)
      × (s.mode.max_try_times ≡ r.mode.max_try_times)
      × (s.waits ≡ ws)
