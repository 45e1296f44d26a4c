-- ===== src/Clock.antt =====
-- src/clock.rs: effective time that never goes back, its durable high-water mark, and when the clock
-- is trusted. A `Duration` is its number of nanoseconds.
mod Types
pub mod Effective
pub mod Examples
pub mod Watermark
pub use Types.*
use ops_light_secrets_server.Prelude.{
  ℕ, ◌+◌, ◌-◌, ◌*◌, ◌/◌, ◌≤◌, min, max, Bool, true, false, not, ◌&&◌, ◌||◌, Option, none, some,
  List, [], ◌∷◌, leb, ltb, ◌==◌, if◌then◌else◌, is_some, unwrap_or, saturating_add,
}
use ops_light_secrets_server.Prelude.Result.{Result, ok, err}
use ops_light_secrets_server.Prelude.Action.{
  Action, ◌>>=◌, ◌>>◌, pure, fail, lift, gets, modify, refuse, when,
}

abbrev pub booted : ClockReading → ℕ → ClockMonitor
booted reading persisted = record {
  anchor_wall = reading.wall_unix_seconds;
  anchor_monotonic = reading.monotonic;
  effective = max reading.wall_unix_seconds persisted;
  persisted = persisted;
  safety = ready;
  agreement_since = none;
  last_durable_monotonic = reading.monotonic;
  pending_checkpoint = none;
}

-- `ClockMonitor::boot`; the audit's state and its `commit_boot_override`, which may fail, are given.
unfoldable pub boot :
    {S : Type 0}
    → (BootOverrideEvent → S → Bool × S)
    → ClockReading
    → ℕ
    → Bool
    → Action S ClockError ClockMonitor
boot commit_boot_override reading persisted allow_behind_mark_once = do
  let ahead = persisted - reading.wall_unix_seconds
  refuse (ltb max_plausible_future_mark_secs ahead) persisted_mark_implausibly_ahead
  when (ltb clock_tolerance_secs ahead)
      (do
        refuse (not allow_behind_mark_once) behind_persisted_mark
        let event : BootOverrideEvent = record {
          observed_wall_unix_seconds = reading.wall_unix_seconds;
          persisted_high_water_unix_seconds = persisted;
          effective_unix_seconds = persisted;
        }
        committed ← gets (λ s. (commit_boot_override event s).0)
        modify (λ s. (commit_boot_override event s).1)
        refuse (not committed) override_audit_failed
        pure (booted reading persisted))
      (pure (booted reading persisted))

abbrev pub observation : ClockMonitor → Option ClockAnomaly → ClockObservation
observation m anomaly = record {
  effective_unix_seconds = m.effective;
  safety = m.safety;
  anomaly = anomaly;
}

-- `abs_diff`
abbrev pub abs_diff : ℕ → ℕ → ℕ
abs_diff a b = (a - b) + (b - a)

abbrev pub distrust : ClockMonitor → ClockMonitor
distrust m = record m { safety = unsafe; agreement_since = none }

-- The end of `observe`, when the wall agrees: a clock that is not ready settles first.
unfoldable pub settle : ℕ → ClockMonitor → ClockMonitor
settle monotonic m =
    let since = unwrap_or m.agreement_since monotonic in
    if is_ready m.safety
    then m
    else if leb clock_settle_period (monotonic - since)
    then record m { safety = ready; agreement_since = none }
    else record m { safety = recovering; agreement_since = some since }

-- `observe`, after the elapsed time is known not to be negative.
unfoldable pub observe_wall : ℕ → ClockReading → ClockMonitor → ClockMonitor × Option ClockAnomaly
observe_wall expected_wall reading m =
    let seen = record m { effective = max m.effective expected_wall } in
    if ltb clock_tolerance_secs (abs_diff reading.wall_unix_seconds expected_wall)
    then (
      distrust seen,
      some (if ltb reading.wall_unix_seconds expected_wall then wall_behind else wall_ahead),
    )
    else (
      settle reading.monotonic
          (record seen { effective = max seen.effective reading.wall_unix_seconds }),
      none,
    )

-- `self.anchor_wall.saturating_add(elapsed.as_secs())`
abbrev pub expected_wall : ClockReading → ClockMonitor → ℕ
expected_wall reading m =
    saturating_add m.anchor_wall (as_secs (reading.monotonic - m.anchor_monotonic))

unfoldable pub observe_step : ClockReading → ClockMonitor → ClockMonitor × Option ClockAnomaly
observe_step reading m =
    if ltb reading.monotonic m.anchor_monotonic
    then (distrust m, some monotonic_regressed)
    else observe_wall (expected_wall reading m) reading m

unfoldable pub observe : ClockReading → ClockMonitor → ClockObservation × ClockMonitor
observe reading m =
    let (after, anomaly) = observe_step reading m in (observation after anomaly, after)

-- `command`
unfoldable pub command : WatermarkKind → ℕ → ClockMonitor → Result ClockError WatermarkCommand
command kind now m =
    if is_ready m.safety
    then ok (record {
      expected_high_water_unix_seconds = m.persisted;
      replacement_high_water_unix_seconds = max m.persisted m.effective;
      effective_unix_seconds = m.effective;
      kind = kind;
      issued_at = now;
      deadline = duration_saturating_add now checkpoint_commit_deadline;
    })
    else err unsafe_clock

abbrev pub past_deadline : ℕ → Option WatermarkCommand → Bool
past_deadline now none = false
past_deadline now (some c) = ltb c.deadline now

unfoldable pub poll_checkpoint_deadline : ℕ → Clock (Unit {0})
poll_checkpoint_deadline now = do
  late ← gets (λ m. past_deadline now m.pending_checkpoint)
  when late (do modify (λ m. record m { safety = unsafe }); fail persistence_failed) (pure tt)

unfoldable pub idle_checkpoint_request : ℕ → Clock CheckpointRequest
idle_checkpoint_request now = do
  poll_checkpoint_deadline now
  m ← gets (λ x. x)
  when (is_some m.pending_checkpoint) (pure coalesced) (
      when (ltb (now - m.last_durable_monotonic) idle_checkpoint_interval) (pure not_due) (do
        c ← lift (command idle_checkpoint now m)
        modify (λ x. record x { pending_checkpoint = some c })
        pure (submit c)))

abbrev pub is_pending : WatermarkCommand → Option WatermarkCommand → Bool
is_pending c none = false
is_pending c (some pending) = command_eq pending c

-- `if bad { self.safety = Unsafe; return Err(error) }`
abbrev pub distrust_if : Bool → ClockError → Clock (Unit {0})
distrust_if bad error =
    when bad (do modify (λ m. record m { safety = unsafe }); fail error) (pure tt)

-- `is_some_and(|pending| pending.replacement <= self.persisted)`
abbrev pub covered : ℕ → Option WatermarkCommand → Bool
covered persisted none = false
covered persisted (some pending) = leb pending.replacement_high_water_unix_seconds persisted

abbrev pub completed : WatermarkCommand → ClockMonitor → ClockMonitor
completed c m = record m {
  persisted = c.replacement_high_water_unix_seconds;
  last_durable_monotonic = c.issued_at;
  pending_checkpoint =
      if covered c.replacement_high_water_unix_seconds m.pending_checkpoint
      then none
      else m.pending_checkpoint;
}

unfoldable pub complete_watermark : WatermarkCommand → Bool → Clock (Unit {0})
complete_watermark c committed = do
  m ← gets (λ x. x)
  distrust_if
      (not (c.expected_high_water_unix_seconds == m.persisted)
        || ltb c.replacement_high_water_unix_seconds m.persisted)
      stale_command
  distrust_if
      (kind_code c.kind == kind_code idle_checkpoint && not (is_pending c m.pending_checkpoint))
      stale_command
  distrust_if (not committed) persistence_failed
  modify (completed c)
