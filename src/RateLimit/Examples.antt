-- ===== src/RateLimit/Examples.antt =====
-- Tests of src/rate_limit.rs: the default configuration, and small tables.
use ops_light_secrets_server.Prelude.{
  ℕ, ◌+◌, ◌≤◌, ◌%◌, ◌^◌, ◌≡◌, refl, none, some, ◌==◌, List, [], ◌∷◌, arith,
}
use ops_light_secrets_server.BTreeMap.{BTreeMap}
use ops_light_secrets_server.BTreeMap.Total.{total}
use ops_light_secrets_server.RateLimit.{
  default_bucket, default_config, validate_config, AggregateKey, AggregateClass, rate, record_drop,
  UnauthenticatedClass, new_state, key_ord,
}
use ops_light_secrets_server.RateLimit.Buckets.{admitted, admitted-allowance}
use ops_light_secrets_server.RateLimit.Aggregates.{TableOk, record_drop-TableOk}
use ops_light_secrets_server.RateLimit.Admissions.{Request, window_of, counts_local, admissions}
use ops_light_secrets_server.RateLimit.Admissions.Allowance.{admissions-allowance}

-- Three requests in window 4 and two in window 5, at an allowance of 2.
admitted-allowance_example : admitted 4 2 (4 ∷ 4 ∷ 4 ∷ 5 ∷ 5 ∷ []) default_bucket ≤ 2
admitted-allowance_example =
    admitted-allowance 4 2 (4 ∷ 4 ∷ 4 ∷ 5 ∷ 5 ∷ []) default_bucket
      (omega arith, (omega arith, (omega arith, (omega arith, (omega arith, tt)))))

abbrev login_key : ℕ → AggregateKey
login_key bucket_id = record {
  class = AggregateClass.login;
  reason = rate;
  bucket_id = bucket_id;
  window = 4;
}

-- A full table of two login keys.
abbrev full_table : BTreeMap AggregateKey ℕ
full_table = (login_key 1, 10) ∷ (login_key 2, 20) ∷ []

full_table-TableOk : TableOk 2 full_table
full_table-TableOk = record { sorted = ((refl, tt), (tt, tt)); fits = omega arith }

record_drop-TableOk_example :
    TableOk 2 (record_drop 2 (login_key 3) full_table)
    × (total (record_drop 2 (login_key 3) full_table) % 2 ^ 64 ≡ (total full_table + 1) % 2 ^ 64)
record_drop-TableOk_example =
    record_drop-TableOk 2 (login_key 3) full_table (omega arith) full_table-TableOk

-- A hash of a few bytes: their first byte.
abbrev first_byte : List ℕ → ℕ
first_byte [] = 0
first_byte (b ∷ bytes) = b

-- Two logins and a probe from one source in the first minute, and a login from no known source in the
-- second.
abbrev early_requests : List Request
early_requests =
    record { class = UnauthenticatedClass.login; source = some (7 ∷ []); now = 1000 }
    ∷ record { class = UnauthenticatedClass.login; source = some (7 ∷ []); now = 2000 }
    ∷ record { class = UnauthenticatedClass.probe; source = some (7 ∷ []); now = 3000 }
    ∷ record { class = UnauthenticatedClass.login; source = none; now = 61000 }
    ∷ []

admissions-allowance_example :
    (admissions first_byte default_config
        (λ r. window_of first_byte default_config r == 0)
        early_requests
        (new_state default_config)
      ≤ 10000)
    × (admissions first_byte default_config
          (counts_local first_byte default_config UnauthenticatedClass.login 7 0)
          early_requests
          (new_state default_config)
        ≤ 20)
    × (admissions first_byte default_config
          (counts_local first_byte default_config UnauthenticatedClass.probe 7 0)
          early_requests
          (new_state default_config)
        ≤ 120)
unfolding validate_config
admissions-allowance_example =
    admissions-allowance first_byte default_config early_requests 0 7 refl
      (omega arith, (omega arith, (omega arith, (omega arith, tt))))
