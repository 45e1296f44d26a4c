-- ===== src/Prelude/Action.antt =====
-- Methods on `&mut self` that may fail. What was written before an error stays written, so the
-- state comes back beside the error too; a method runs whole under the one lock of its state.
use ops_light_secrets_server.Prelude.{Bool, true, false, Option, none, some}
use ops_light_secrets_server.Prelude.Result.{Result, ok, err}

abbrev pub Action : Type 0 → Type 0 → Type 0 → Type 0
Action S E A = S → Result E A × S

abbrev pub continue : {S E A B : Type 0} → Result E A → (A → Action S E B) → Action S E B
continue (ok a) f s = f a s
continue (err e) f s = (err e, s)

unfoldable pub pure : {S E A : Type 0} → A → Action S E A
pure a s = (ok a, s)

unfoldable pub fail : {S E A : Type 0} → E → Action S E A
fail e s = (err e, s)

-- A fallible computation that leaves the state alone.
unfoldable pub lift : {S E A : Type 0} → Result E A → Action S E A
lift r s = (r, s)

unfoldable pub gets : {S E A : Type 0} → (S → A) → Action S E A
gets f s = (ok (f s), s)

unfoldable pub modify : {S E : Type 0} → (S → S) → Action S E (Unit {0})
modify f s = (ok tt, f s)

-- `ok_or(e)?`
unfoldable pub some_or : {S E A : Type 0} → Option A → E → Action S E A
some_or none e s = (err e, s)
some_or (some a) e s = (ok a, s)

-- `if b { return Err(e) }`
unfoldable pub refuse : {S E : Type 0} → Bool → E → Action S E (Unit {0})
refuse true e s = (err e, s)
refuse false e s = (ok tt, s)

-- A branch of an action: only the one that is taken runs.
unfoldable pub when : {S E A : Type 0} → Bool → Action S E A → Action S E A → Action S E A
when true m k = m
when false m k = k

infixl 5 ◌>>=◌ ◌>>◌
-- Opening the bind opens the other actions too.
unfoldable pub ◌>>=◌ : {S E A B : Type 0} → Action S E A → (A → Action S E B) → Action S E B
unfolding pure fail lift gets modify some_or refuse when
◌>>=◌ m f s = continue (m s).0 f (m s).1

abbrev pub ◌>>◌ : {S E B : Type 0} → Action S E (Unit {0}) → Action S E B → Action S E B
m >> k = m >>= λ _. k
