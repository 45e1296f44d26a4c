-- ===== src/Clock/Watermark.antt =====
-- src/clock.rs: the life of a clock monitor as steps: observations, commands that are issued, and
-- completions of issued commands, in any order. The durable mark only rises and stays within
-- effective time.
use mathlib.Core.List.{Memᴰ}
use ops_light_secrets_server.Prelude.{
  ℕ, ◌≤◌, ◌≡◌, ◌≢◌, ap, sym, max, Bool, true, List, [], ◌∷◌, arith, inl, inr, ◌⊎◌,
}
use ops_light_secrets_server.Prelude.Result.{Result, ok, err}
use ops_light_secrets_server.Prelude.Action.{◌>>=◌}
use ops_light_secrets_server.Clock.{
  ClockReading, ClockMonitor, ClockError, unsafe, observe, WatermarkCommand, WatermarkKind,
  CheckpointRequest, not_due, coalesced, submit, command, poll_checkpoint_deadline,
  idle_checkpoint_request, complete_watermark, booted,
}
use ops_light_secrets_server.Clock.Effective.{observe-effective, observe-durable}

-- A completion that succeeds is of a command that expects the persisted mark, does not lower it,
-- was committed and, if it is an idle checkpoint, is the pending one; the mark becomes the
-- command's. A completion that fails leaves the mark and makes the clock unsafe.
pub complete_watermark_cases :
    (c : WatermarkCommand) (committed : Bool) (m : ClockMonitor)
    → (((complete_watermark c committed m).0 ≡ ok tt)
        × (c.expected_high_water_unix_seconds ≡ m.persisted)
        × (m.persisted ≤ c.replacement_high_water_unix_seconds)
        × (committed ≡ true)
        × ((complete_watermark c committed m).1.persisted ≡ c.replacement_high_water_unix_seconds)
        × ((complete_watermark c committed m).1.safety ≡ m.safety))
      ⊎ (((complete_watermark c committed m).0 ≢ ok tt)
          × ((complete_watermark c committed m).1.persisted ≡ m.persisted)
          × ((complete_watermark c committed m).1.safety ≡ unsafe))
unfolding complete_watermark ◌>>=◌
complete_watermark_cases c committed m = ground arith

-- The monitor, and the commands that it has issued.
pub record Life : Type 0 where
  pub monitor : ClockMonitor
  pub issued : List WatermarkCommand

abbrev submitted :
    Result ClockError CheckpointRequest → List WatermarkCommand → List WatermarkCommand
submitted (ok (submit c)) issued = c ∷ issued
submitted (ok not_due) issued = issued
submitted (ok coalesced) issued = issued
submitted (err e) issued = issued

pub data Step : Life → Life → Type 0 where
  observed :
      (l : Life) (reading : ClockReading)
      → Step l (record { monitor = (observe reading l.monitor).1; issued = l.issued })
  commanded :
      (l : Life) (kind : WatermarkKind) (now : ℕ) (c : WatermarkCommand)
      → command kind now l.monitor ≡ ok c
      → Step l (record { monitor = l.monitor; issued = c ∷ l.issued })
  checkpointed :
      (l : Life) (now : ℕ)
      → Step l (record {
        monitor = (idle_checkpoint_request now l.monitor).1;
        issued = submitted (idle_checkpoint_request now l.monitor).0 l.issued;
      })
  polled :
      (l : Life) (now : ℕ)
      → Step l (record { monitor = (poll_checkpoint_deadline now l.monitor).1; issued = l.issued })
  completed :
      (l : Life) (c : WatermarkCommand) (committed : Bool)
      → Memᴰ c l.issued
      → Step l
          (record { monitor = (complete_watermark c committed l.monitor).1; issued = l.issued })

pub data Steps : Life → Life → Type 0 where
  stay : (l : Life) → Steps l l
  then : {k l m : Life} → Steps k l → Step l m → Steps k m

-- The mark, and the mark that each issued command would set, are within effective time.
record Within (l : Life) : Type 0 where
  pub mark : l.monitor.persisted ≤ l.monitor.effective
  pub marks :
      (c : WatermarkCommand)
      → Memᴰ c l.issued
      → c.replacement_high_water_unix_seconds ≤ l.monitor.effective

-- Neither the mark nor effective time goes back.
record Rises (k l : Life) : Type 0 where
  pub effective : k.monitor.effective ≤ l.monitor.effective
  pub persisted : k.monitor.persisted ≤ l.monitor.persisted

idle-effective :
    (now : ℕ) (m : ClockMonitor)
    → ((idle_checkpoint_request now m).1.effective ≡ m.effective)
      × ((idle_checkpoint_request now m).1.persisted ≡ m.persisted)
unfolding idle_checkpoint_request poll_checkpoint_deadline command ◌>>=◌
idle-effective now m = (ground arith, ground arith)

poll-same :
    (now : ℕ) (m : ClockMonitor)
    → ((poll_checkpoint_deadline now m).1.effective ≡ m.effective)
      × ((poll_checkpoint_deadline now m).1.persisted ≡ m.persisted)
unfolding poll_checkpoint_deadline ◌>>=◌
poll-same now m = (ground arith, ground arith)

complete-effective :
    (c : WatermarkCommand) (committed : Bool) (m : ClockMonitor)
    → ((complete_watermark c committed m).1.effective ≡ m.effective)
      × (((complete_watermark c committed m).1.persisted ≡ m.persisted)
          ⊎ (((complete_watermark c committed m).1.persisted
                ≡ c.replacement_high_water_unix_seconds)
              × (m.persisted ≤ c.replacement_high_water_unix_seconds)))
unfolding complete_watermark ◌>>=◌
complete-effective c committed m = (ground arith, ground arith)

command-replacement :
    (kind : WatermarkKind) (now : ℕ) (m : ClockMonitor) (c : WatermarkCommand)
    → command kind now m ≡ ok c
    → c.replacement_high_water_unix_seconds ≡ max m.persisted m.effective
unfolding command
command-replacement kind now m c h = ground arith

idle-submits :
    (now : ℕ) (m : ClockMonitor) (c : WatermarkCommand)
    → (idle_checkpoint_request now m).0 ≡ ok (submit c)
    → c.replacement_high_water_unix_seconds ≡ max m.persisted m.effective
unfolding idle_checkpoint_request poll_checkpoint_deadline command ◌>>=◌
idle-submits now m c h = ground arith

submitted-Mem :
    (r : Result ClockError CheckpointRequest) (issued : List WatermarkCommand)
    (c : WatermarkCommand)
    → Memᴰ c (submitted r issued)
    → (r ≡ ok (submit c)) ⊎ Memᴰ c issued
submitted-Mem (ok (submit d)) issued c (Memᴰ.head e) = inl (ap (λ x. ok (submit x)) (sym e))
submitted-Mem (ok (submit d)) issued c (Memᴰ.tail m) = inr m
submitted-Mem (ok not_due) issued c m = inr m
submitted-Mem (ok coalesced) issued c m = inr m
submitted-Mem (err e) issued c m = inr m

cons-Mem :
    (d : WatermarkCommand) (issued : List WatermarkCommand) (c : WatermarkCommand)
    → Memᴰ c (d ∷ issued)
    → (c ≡ d) ⊎ Memᴰ c issued
cons-Mem d issued c (Memᴰ.head e) = inl e
cons-Mem d issued c (Memᴰ.tail m) = inr m

step-Rises : {k l : Life} → Step k l → Within k → Within l × Rises k l
step-Rises (Step.observed l reading) h =
    let (up, _) = observe-effective reading l.monitor in
    let (p, _) = observe-durable reading l.monitor in
    (
      record { mark = ground (arith, h.mark); marks = λ c m. ground (arith, h.marks c m) },
      record { effective = up; persisted = ground arith },
    )
step-Rises (Step.commanded l kind now c e) h =
    let r = command-replacement kind now l.monitor c e in
    (
      record {
        mark = h.mark;
        marks = λ d m. elim (cons-Mem c l.issued d m) [
          | inl same ↦ ground (arith, h.mark)
          | inr old ↦ h.marks d old
        ];
      },
      record { effective = omega arith; persisted = omega arith },
    )
step-Rises (Step.checkpointed l now) h =
    let (e, p) = idle-effective now l.monitor in
    (
      record {
        mark = ground (arith, h.mark);
        marks = λ d m. elim (submitted-Mem (idle_checkpoint_request now l.monitor).0 l.issued d m) [
          | inl new ↦ ground (arith, h.mark, idle-submits now l.monitor d new)
          | inr old ↦ ground (arith, h.marks d old)
        ];
      },
      record { effective = ground arith; persisted = ground arith },
    )
step-Rises (Step.polled l now) h =
    let (e, p) = poll-same now l.monitor in
    (
      record { mark = ground (arith, h.mark); marks = λ d m. ground (arith, h.marks d m) },
      record { effective = ground arith; persisted = ground arith },
    )
step-Rises (Step.completed l c committed m) h =
    let (e, p) = complete-effective c committed l.monitor in
    (
      record {
        mark = ground (arith, h.mark, h.marks c m);
        marks = λ d x. ground (arith, h.marks d x);
      },
      record { effective = ground arith; persisted = ground arith },
    )

Steps-Rises : {k l : Life} → Steps k l → Within k → Within l × Rises k l
Steps-Rises (Steps.stay l) h = (h, record { effective = omega arith; persisted = omega arith })
Steps-Rises (Steps.then first last) h =
    let (w, r) = Steps-Rises first h in
    let (w', r') = step-Rises last w in
    (
      w',
      record {
        effective = ground (arith, r.effective, r'.effective);
        persisted = ground (arith, r.persisted, r'.persisted);
      },
    )

-- From a boot on, through any observations, commands, polls and completions of issued commands in
-- any order: effective time and the durable mark never go back, and the mark stays within
-- effective time.
pub Steps-never_back :
    (reading : ClockReading) (persisted : ℕ) (k l : Life)
    → Steps (record { monitor = booted reading persisted; issued = [] }) k
    → Steps k l
    → (k.monitor.effective ≤ l.monitor.effective)
      × (k.monitor.persisted ≤ l.monitor.persisted)
      × (l.monitor.persisted ≤ l.monitor.effective)
Steps-never_back reading persisted k l before after =
    let boot : Within (record { monitor = booted reading persisted; issued = [] }) = record {
      mark = ground arith;
      marks = λ c m. elim m [ ];
    } in
    let (w, _) = Steps-Rises before boot in
    let (w', r) = Steps-Rises after w in (r.effective, r.persisted, w'.mark)
