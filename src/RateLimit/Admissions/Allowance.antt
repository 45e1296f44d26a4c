-- ===== src/RateLimit/Admissions/Allowance.antt =====
-- src/rate_limit.rs: the allowances of a window, for the limiter as a whole and for the sources of a
-- bucket.
use ops_light_secrets_server.Prelude.{
  ℕ, zero, suc, ◌/◌, ◌≤◌, ◌<◌, ◌≡◌, ◌≢◌, ◌∙◌, refl, sym, ap, subst, Bool, true, false, ◌&&◌, Option,
  some, List, [], ◌∷◌, arith, ◌==◌, length, set, replicate, get_elem?, unwrap_or, Bool-cases, inl,
  inr, ◌⊎◌,
}
use ops_light_secrets_server.Prelude.Text.{Text}
use ops_light_secrets_server.Prelude.Result.{is_ok}
use ops_light_secrets_server.RateLimit.{
  Bucket, default_bucket, RateLimitConfig, new_state, LimiterState, UnauthenticatedClass, consume,
}
use ops_light_secrets_server.RateLimit.Checks.{
  source_bucket, consume_at, check_unauthenticated, buckets_of, allowance_of,
}
use ops_light_secrets_server.RateLimit.Buckets.{left}
use ops_light_secrets_server.RateLimit.Limiter.{
  IsValid, LimiterOk, new_state-LimiterOk, bucket-in_range,
}
use ops_light_secrets_server.RateLimit.Admissions.{
  Request, window_of, check, InOrder, admissions, counts_local, bucket_at,
}
use ops_light_secrets_server.RateLimit.Admissions.Counting.{Step, admissions-left}
use ops_light_secrets_server.RateLimit.Admissions.Outcomes.{
  Outcome, global-check, Locally, local-check, other-check,
}

get-set_self :
    (buckets : List Bucket) (i : ℕ) (b : Bucket)
    → i < length buckets
    → get_elem? (set buckets i b) i ≡ some b
get-set_self [] i b h = absurd (omega (arith, h))
get-set_self (x ∷ xs) zero b h = refl
get-set_self (x ∷ xs) (suc i) b h = get-set_self xs i b (omega (arith, h))

get-set_other :
    (buckets : List Bucket) (i j : ℕ) (b : Bucket)
    → i ≢ j
    → get_elem? (set buckets i b) j ≡ get_elem? buckets j
get-set_other [] i j b h = refl
get-set_other (x ∷ xs) zero zero b h = absurd (h refl)
get-set_other (x ∷ xs) zero (suc j) b h = refl
get-set_other (x ∷ xs) (suc i) zero b h = refl
get-set_other (x ∷ xs) (suc i) (suc j) b h = get-set_other xs i j b (λ e. h (ap suc e))

module _ (keyed_hash : List ℕ → ℕ) (config : RateLimitConfig) where
  global-step :
      (w : ℕ) (r : Request) (s : LimiterState)
      → Step keyed_hash config
          (λ t. t.global)
          (λ q. window_of keyed_hash config q == w)
          config.global_attempts
          w
          r
          s
  global-step w r s =
      let (kept, passed) = global-check keyed_hash config r.class r.source r.now s in
      inr (
        kept,
        λ h.
            both (is_ok (check keyed_hash config r s).0) (window_of keyed_hash config r == w) _ h
              passed,
      )
    where
      both : (x y z : Bool) → (x && y) ≡ true → (x ≡ true → z ≡ true) → (z && y) ≡ true
      both x y z h k = ground (arith, h, k)

  uncounted : (x y : Bool) → y ≡ false → (x && y) ≡ false
  uncounted x y h = ground (arith, h)

  counted_ok : (x y z : Bool) → (x && (y && z)) ≡ true → x ≡ true
  counted_ok x y z h = ground (arith, h)

  counted_taken : (x y z l : Bool) → l ≡ true → (x && (y && z)) ≡ true → (l && z) ≡ true
  counted_taken x y z l h k = ground (arith, h, k)

  own-step :
      (c : UnauthenticatedClass) (b w : ℕ) (source : Option Text) (now : ℕ) (s : LimiterState)
      (t : Outcome)
      → source_bucket keyed_hash config source < length (buckets_of c s)
      → Locally keyed_hash config c source now s t
      → ((bucket_at keyed_hash config c b t.1 ≡ bucket_at keyed_hash config c b s)
          × ((is_ok t.0
                && (source_bucket keyed_hash config source == b
                    && now / config.window_milliseconds == w))
              ≡ false))
        ⊎ ((bucket_at keyed_hash config c b t.1
              ≡ (consume
                  (now / config.window_milliseconds)
                  (allowance_of c config)
                  (bucket_at keyed_hash config c b s)).1)
            × ((is_ok t.0
                    && (source_bucket keyed_hash config source == b
                        && now / config.window_milliseconds == w))
                  ≡ true
                → ((consume
                      (now / config.window_milliseconds)
                      (allowance_of c config)
                      (bucket_at keyed_hash config c b s)).0
                    && now / config.window_milliseconds == w)
                  ≡ true))
  unfolding consume_at
  own-step c b w source now s t range (inl (same, refused)) =
      inl (ap (λ bs. unwrap_or (get_elem? bs b) default_bucket) same, ground (arith, refused))
  own-step c b w source now s t range (inr (taken, passed)) =
      elim (Bool-cases (source_bucket keyed_hash config source == b)) [
        | inl here ↦
            let same : source_bucket keyed_hash config source ≡ b = ground (arith, here) in
            inr (
              ap (λ bs. unwrap_or (get_elem? bs b) default_bucket) taken
                  ∙ ap (λ found. unwrap_or found default_bucket)
                      (ap
                          (get_elem?
                            (consume_at (source_bucket keyed_hash config source)
                              (now / config.window_milliseconds) (allowance_of c config)
                              (buckets_of c s)).1)
                          (sym same)
                        ∙ get-set_self (buckets_of c s) (source_bucket keyed_hash config source) _
                            range)
                  ∙ ap
                      (λ n.
                        (consume (now / config.window_milliseconds) (allowance_of c config)
                          (bucket_at keyed_hash config c n s)).1)
                      same,
              λ h.
                  let admitted =
                    subst
                      (λ n.
                        (consume (now / config.window_milliseconds) (allowance_of c config)
                          (bucket_at keyed_hash config c n s)).0
                        ≡ true)
                      same (passed (search (counted_ok, h))) in
                  counted_taken _ _ _ _ admitted h,
            )
        | inr other ↦ inl (
          ap (λ bs. unwrap_or (get_elem? bs b) default_bucket) taken
              ∙ ap (λ found. unwrap_or found default_bucket)
                  (get-set_other (buckets_of c s) (source_bucket keyed_hash config source) b _
                    (λ e. ground (arith, other, e))),
          ground (arith, other),
        )
      ]

  length_of :
      (c : UnauthenticatedClass) (s : LimiterState)
      → LimiterOk config s
      → length (buckets_of c s) ≡ config.source_shards
  length_of UnauthenticatedClass.login s h = h.login
  length_of UnauthenticatedClass.probe s h = h.probe

  in_range :
      (c : UnauthenticatedClass) (source : Option Text) (s : LimiterState)
      → IsValid config
      → LimiterOk config s
      → source_bucket keyed_hash config source < length (buckets_of c s)
  in_range c source s valid good =
      let inside = (bucket-in_range keyed_hash config source [] valid).0 in
      subst (λ n. source_bucket keyed_hash config source < n) (sym (length_of c s good)) inside

  local-step :
      (c : UnauthenticatedClass) (b w : ℕ) (r : Request) (s : LimiterState)
      → IsValid config
      → LimiterOk config s
      → Step keyed_hash config
          (bucket_at keyed_hash config c b)
          (counts_local keyed_hash config c b w)
          (allowance_of c config)
          w
          r
          s
  local-step c b w r s valid good = classes c r.class r.source r.now
    where
      classes :
          (c d : UnauthenticatedClass) (source : Option Text) (now : ℕ)
          → Step keyed_hash config
              (bucket_at keyed_hash config c b)
              (counts_local keyed_hash config c b w)
              (allowance_of c config)
              w
              (record { class = d; source = source; now = now })
              s
      classes UnauthenticatedClass.login UnauthenticatedClass.login source now =
          own-step UnauthenticatedClass.login b w source now s
            (check_unauthenticated keyed_hash config UnauthenticatedClass.login source now s)
            (in_range UnauthenticatedClass.login source s valid good)
            (local-check keyed_hash config UnauthenticatedClass.login source now s)
      classes UnauthenticatedClass.login UnauthenticatedClass.probe source now = inl (
        ap (λ bs. unwrap_or (get_elem? bs b) default_bucket)
            (other-check keyed_hash config source now s).1,
        search (uncounted),
      )
      classes UnauthenticatedClass.probe UnauthenticatedClass.login source now = inl (
        ap (λ bs. unwrap_or (get_elem? bs b) default_bucket)
            (other-check keyed_hash config source now s).0,
        search (uncounted),
      )
      classes UnauthenticatedClass.probe UnauthenticatedClass.probe source now =
          own-step UnauthenticatedClass.probe b w source now s
            (check_unauthenticated keyed_hash config UnauthenticatedClass.probe source now s)
            (in_range UnauthenticatedClass.probe source s valid good)
            (local-check keyed_hash config UnauthenticatedClass.probe source now s)

  fresh :
      (n b : ℕ)
      → unwrap_or (get_elem? (replicate n default_bucket) b) default_bucket ≡ default_bucket
  fresh zero b = refl
  fresh (suc n) zero = refl
  fresh (suc n) (suc b) = fresh n b

  spent :
      (w allowance n : ℕ) (bucket : Bucket)
      → bucket ≡ default_bucket
      → n ≤ left w allowance bucket
      → n ≤ allowance
  spent w allowance n bucket e h = ground (arith, h)

  fresh_bucket :
      (c : UnauthenticatedClass) (b : ℕ)
      → bucket_at keyed_hash config c b (new_state config) ≡ default_bucket
  unfolding new_state
  fresh_bucket UnauthenticatedClass.login b = fresh config.source_shards b
  fresh_bucket UnauthenticatedClass.probe b = fresh config.source_shards b

  local-allowance :
      (c : UnauthenticatedClass) (requests : List Request) (w b : ℕ)
      → IsValid config
      → InOrder keyed_hash config 0 requests
      → admissions keyed_hash config
          (counts_local keyed_hash config c b w)
          requests
          (new_state config)
        ≤ allowance_of c config
  local-allowance c requests w b valid order =
      spent w (allowance_of c config) _ _ (fresh_bucket c b) (
        admissions-left keyed_hash config (bucket_at keyed_hash config c b)
          (counts_local keyed_hash config c b w) (allowance_of c config) w valid
          (λ r s good. local-step c b w r s valid good) requests 0 _ (new_state-LimiterOk config)
          (ground (arith, fresh_bucket c b)) order)

  -- Let a limiter with a valid configuration be new, and let it check any sequence of requests before
  -- their authentication, in windows of time that do not go back. In each window it lets at most
  -- `global_attempts` of them through; and of the requests whose sources share a bucket, at most
  -- `login_attempts` logins and at most `probe_attempts` probes.
  pub admissions-allowance :
      (requests : List Request) (w b : ℕ)
      → IsValid config
      → InOrder keyed_hash config 0 requests
      → (admissions keyed_hash config
            (λ r. window_of keyed_hash config r == w)
            requests
            (new_state config)
          ≤ config.global_attempts)
        × (admissions keyed_hash config
              (counts_local keyed_hash config UnauthenticatedClass.login b w)
              requests
              (new_state config)
            ≤ config.login_attempts)
        × (admissions keyed_hash config
              (counts_local keyed_hash config UnauthenticatedClass.probe b w)
              requests
              (new_state config)
            ≤ config.probe_attempts)
  unfolding new_state
  admissions-allowance requests w b valid order = (
    spent w config.global_attempts _ default_bucket refl (
        admissions-left keyed_hash config (λ s. s.global) (λ r. window_of keyed_hash config r == w)
          config.global_attempts w valid (λ r s _. global-step w r s) requests 0 (new_state config)
          (new_state-LimiterOk config) (omega arith) order),
    local-allowance UnauthenticatedClass.login requests w b valid order,
    local-allowance UnauthenticatedClass.probe requests w b valid order,
  )
