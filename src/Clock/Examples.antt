-- ===== src/Clock/Examples.antt =====
-- Tests of src/clock.rs: a clock that boots at 1000 seconds.
use mathlib.Core.List.{Memᴰ}
use ops_light_secrets_server.Prelude.{ℕ, ◌+◌, ◌≤◌, refl, max, Bool, true, some, List, [], ◌∷◌}
use ops_light_secrets_server.Clock.{
  ClockReading, ClockMonitor, unsafe, observe, expected_wall, clock_tolerance_secs, booted,
  BootOverrideEvent, WatermarkCommand, application_commit, command, complete_watermark,
}
use ops_light_secrets_server.Clock.Effective.{observe-effective}
use ops_light_secrets_server.Clock.Watermark.{Life, Step, Steps, Steps-never_back}

-- The reading at `s` seconds of monotonic time, with the wall at `wall`.
abbrev at : ℕ → ℕ → ClockReading
at wall monotonic = record { wall_unix_seconds = wall; monotonic = monotonic }

abbrev clock : ClockMonitor
clock = booted (at 1000 5000000000) 990

-- The wall jumps an hour ahead after 3 seconds.
observe-effective_example :
    (clock.effective ≤ (observe (at 4603 8000000000) clock).1.effective)
    × ((observe (at 4603 8000000000) clock).1.effective
        ≤ max clock.effective (expected_wall (at 4603 8000000000) clock + clock_tolerance_secs))
observe-effective_example = observe-effective (at 4603 8000000000) clock

abbrev settling : ClockMonitor
settling = record clock { safety = unsafe; agreement_since = some 8000000000 }

abbrev commits : BootOverrideEvent → List BootOverrideEvent → Bool × List BootOverrideEvent
commits event events = (true, event ∷ events)

abbrev commit_1000 : WatermarkCommand
commit_1000 = record {
  expected_high_water_unix_seconds = 990;
  replacement_high_water_unix_seconds = 1000;
  effective_unix_seconds = 1000;
  kind = application_commit;
  issued_at = 6000000000;
  deadline = 6100000000;
}

abbrev start : Life
start = record { monitor = clock; issued = [] }

abbrev committed : Life
committed = record { monitor = clock; issued = commit_1000 ∷ [] }

abbrev marked : Life
marked = record {
  monitor = (complete_watermark commit_1000 true clock).1;
  issued = commit_1000 ∷ [];
}

start-committed : Step start committed
unfolding command
start-committed = Step.commanded start application_commit 6000000000 commit_1000 refl

Steps-never_back_example :
    (committed.monitor.effective ≤ marked.monitor.effective)
    × (committed.monitor.persisted ≤ marked.monitor.persisted)
    × (marked.monitor.persisted ≤ marked.monitor.effective)
Steps-never_back_example =
    Steps-never_back (at 1000 5000000000) 990 committed marked
      (Steps.then (Steps.stay start) start-committed)
      (Steps.then (Steps.stay committed)
        (Step.completed committed commit_1000 true (Memᴰ.head refl)))
