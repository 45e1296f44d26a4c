-- ===== src/Clock/Types.antt =====
-- src/clock.rs: the constants and types of the clock. A `Duration` is its number of nanoseconds.
use ops_light_secrets_server.Prelude.{ℕ, ◌+◌, ◌/◌, min, Bool, true, false, ◌&&◌, Option, ◌==◌}
use ops_light_secrets_server.Prelude.Action.{Action}

abbrev pub as_secs : ℕ → ℕ
as_secs duration = duration / 1000000000

-- `CLOCK_TOLERANCE.as_secs()`
abbrev pub clock_tolerance_secs : ℕ
clock_tolerance_secs = 2

abbrev pub clock_settle_period : ℕ
clock_settle_period = 10000000000

abbrev pub idle_checkpoint_interval : ℕ
idle_checkpoint_interval = 30000000000

abbrev pub checkpoint_commit_deadline : ℕ
checkpoint_commit_deadline = 100000000

-- `MAX_PLAUSIBLE_FUTURE_MARK.as_secs()`
abbrev pub max_plausible_future_mark_secs : ℕ
max_plausible_future_mark_secs = 86400

-- `Duration::MAX`: all seconds of a `u64` and 999999999 nanoseconds.
abbrev pub duration_max : ℕ
duration_max = 18446744073709551615999999999

abbrev pub duration_saturating_add : ℕ → ℕ → ℕ
duration_saturating_add a b = min (a + b) duration_max

pub record ClockReading : Type 0 where
  pub wall_unix_seconds : ℕ
  pub monotonic : ℕ

pub data ClockSafety : Type 0 where
  ready recovering unsafe : ClockSafety

abbrev pub is_ready : ClockSafety → Bool
is_ready ready = true
is_ready recovering = false
is_ready unsafe = false

pub data ClockAnomaly : Type 0 where
  wall_behind wall_ahead monotonic_regressed : ClockAnomaly

pub record ClockObservation : Type 0 where
  pub effective_unix_seconds : ℕ
  pub safety : ClockSafety
  pub anomaly : Option ClockAnomaly

pub record BootOverrideEvent : Type 0 where
  pub observed_wall_unix_seconds : ℕ
  pub persisted_high_water_unix_seconds : ℕ
  pub effective_unix_seconds : ℕ

pub data ClockError : Type 0 where
  behind_persisted_mark persisted_mark_implausibly_ahead override_audit_failed : ClockError
  unsafe_clock stale_command persistence_failed : ClockError

pub data WatermarkKind : Type 0 where
  application_commit idle_checkpoint clean_shutdown : WatermarkKind

abbrev pub kind_code : WatermarkKind → ℕ
kind_code application_commit = 0
kind_code idle_checkpoint = 1
kind_code clean_shutdown = 2

pub record WatermarkCommand : Type 0 where
  pub expected_high_water_unix_seconds : ℕ
  pub replacement_high_water_unix_seconds : ℕ
  pub effective_unix_seconds : ℕ
  pub kind : WatermarkKind
  pub issued_at : ℕ
  pub deadline : ℕ

-- The derived `PartialEq` of `WatermarkCommand`.
abbrev pub command_eq : WatermarkCommand → WatermarkCommand → Bool
command_eq a b =
    a.expected_high_water_unix_seconds == b.expected_high_water_unix_seconds
    && a.replacement_high_water_unix_seconds == b.replacement_high_water_unix_seconds
    && a.effective_unix_seconds == b.effective_unix_seconds
    && kind_code a.kind == kind_code b.kind
    && a.issued_at == b.issued_at
    && a.deadline == b.deadline

pub data CheckpointRequest : Type 0 where
  not_due coalesced : CheckpointRequest
  submit : WatermarkCommand → CheckpointRequest

pub record ClockMonitor : Type 0 where
  pub anchor_wall : ℕ
  pub anchor_monotonic : ℕ
  pub effective : ℕ
  pub persisted : ℕ
  pub safety : ClockSafety
  pub agreement_since : Option ℕ
  pub last_durable_monotonic : ℕ
  pub pending_checkpoint : Option WatermarkCommand

abbrev pub Clock : Type 0 → Type 0
Clock A = Action ClockMonitor ClockError A
