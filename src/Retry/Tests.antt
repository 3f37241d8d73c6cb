-- ===== src/Retry/Tests.antt =====
-- The runner of src/util/retry_runner.cc with a function that fails twice, and one that always fails.
use seastar_live.Prelude.{ℕ, ◌+◌, Bool, false, [], ◌==◌}
use seastar_live.Retry.{Try, Runner}

abbrev runner : Runner
runner = record {
  mode = record {
    excuting = false;
    try_times = 0;
    total_try_times = 0;
    max_try_times = 4;
    timestamp = 0;
    last_timestamp = 0;
    first_timestamp = 0;
  };
  delay = 100;
  finished = false;
  keep_alive = false;
  waits = [];
  finished_calls = 0;
}

abbrev third_time : ℕ → ℕ → Try
third_time n t = record { succeeded = n == 3; started = t; ended = t + 1 }

abbrev never : ℕ → ℕ → Try
never n t = record { succeeded = false; started = t; ended = t + 1 }

abbrev not_canceled : ℕ → Bool
not_canceled n = false
