-- ===== src/Clock/Effective.antt =====
-- src/clock.rs: `observe` and `boot`: effective time does not go back, is not dragged along by a wall
-- clock that jumps, and is trusted again only after it has settled.
use ops_light_secrets_server.Prelude.{
  ℕ, ◌+◌, ◌≤◌, ◌≡◌, max, Bool, true, false, none, some, arith, inl, inr, ◌⊎◌, ◌↔◌, Option-cases,
}
use ops_light_secrets_server.Prelude.Result.{ok}
use ops_light_secrets_server.Prelude.Action.{◌>>=◌}
use ops_light_secrets_server.Clock.{
  ClockReading, ClockMonitor, ready, is_ready, observe, observe_step, observe_wall, settle,
  expected_wall, clock_tolerance_secs, clock_settle_period, boot, booted, BootOverrideEvent,
  max_plausible_future_mark_secs,
}

-- An observation never lowers effective time, and raises it no further than the time that the
-- monotonic clock accounts for and the tolerance: a wall clock that jumps ahead does not drag it.
pub observe-effective :
    (reading : ClockReading) (m : ClockMonitor)
    → (m.effective ≤ (observe reading m).1.effective)
      × ((observe reading m).1.effective
          ≤ max m.effective (expected_wall reading m + clock_tolerance_secs))
unfolding observe observe_step observe_wall settle
observe-effective reading m = (ground arith, ground arith)

-- The persisted mark and a pending checkpoint are not changed by an observation.
pub observe-durable :
    (reading : ClockReading) (m : ClockMonitor)
    → ((observe reading m).1.persisted ≡ m.persisted)
      × ((observe reading m).1.pending_checkpoint ≡ m.pending_checkpoint)
unfolding observe observe_step observe_wall settle
observe-durable reading m = (ground arith, ground arith)

-- A clock that is not ready becomes ready only by an observation without anomaly that comes at least
-- the settling period after the first one of an unbroken agreement.
pub observe-settles :
    (reading : ClockReading) (m : ClockMonitor)
    → is_ready m.safety ≡ false
    → (observe reading m).1.safety ≡ ready
    → ((observe reading m).0.anomaly ≡ none)
      × ((since : ℕ) × (m.agreement_since ≡ some since)
          × (since + clock_settle_period ≤ reading.monotonic))
unfolding observe observe_step observe_wall settle
observe-settles reading m h k = elim (Option-cases m.agreement_since) [
  | inl fresh ↦ absurd (ground arith)
  | inr (since, e) ↦ (ground arith, (since, e, ground arith))
]

-- A boot refuses a persisted mark that is more than a day ahead of the wall clock, and one that is
-- ahead by more than the tolerance unless that is allowed once and the audit commits the override.
-- Otherwise it gives a ready clock whose effective time is the later of the wall and the mark.
pub boot_iff :
    {S : Type 0} (commit : BootOverrideEvent → S → Bool × S) (reading : ClockReading)
    (persisted : ℕ) (allow : Bool) (s : S)
    → ((boot commit reading persisted allow s).0 ≡ ok (booted reading persisted)) ↔ (
        (persisted ≤ reading.wall_unix_seconds + max_plausible_future_mark_secs)
        × ((persisted ≤ reading.wall_unix_seconds + clock_tolerance_secs)
            ⊎ ((allow ≡ true)
                × ((commit
                      (record {
                        observed_wall_unix_seconds = reading.wall_unix_seconds;
                        persisted_high_water_unix_seconds = persisted;
                        effective_unix_seconds = persisted;
                      })
                      s).0
                    ≡ true))))
unfolding boot ◌>>=◌
boot_iff commit reading persisted allow s = ground arith
