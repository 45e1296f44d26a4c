-- ===== src/Prelude/Words.antt =====
-- The bytes of a `u64`.
use ops_light_secrets_server.Prelude.{ℕ, zero, suc, ◌/◌, ◌%◌, List, [], ◌∷◌, ◌++◌}

-- The `n` low bytes, most significant first.
abbrev pub be_bytes_of : ℕ → ℕ → List ℕ
be_bytes_of zero value = []
be_bytes_of (suc n) value = be_bytes_of n (value / 256) ++ ((value % 256) ∷ [])

-- `u64::to_be_bytes`.
unfoldable pub be_bytes : ℕ → List ℕ
be_bytes value = be_bytes_of 8 value
