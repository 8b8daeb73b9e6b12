-- ===== src/Prelude/Errors.antt =====
-- Errors as values. `wrap` is fmt.Errorf with %w, `message` an error that nothing compares;
-- the other constructors are the package variables that callers compare against.
use Prim.Native.String.{String}
use mathlib.Core.Path.{◌≡◌, refl}
use mathlib.Core.Logic.{◌⊎◌, inl, inr}
use mathlib.Core.Bool.{Bool, true, false}

pub data Error : Type 0 where
  -- metadata/store.go
  not_found already_exists forbidden : Error
  -- auth/interfaces.go
  authentication_failed permission_denied : Error
  -- links/manager.go
  link_invalid link_expired link_not_found : Error
  -- erasure/errors.go
  insufficient_shards shard_corrupted invalid_profile shard_not_found : Error
  message : String → Error
  wrap : String → Error → Error

pub data Result {ℓ} (A : Type ℓ) : Type ℓ where
  ok : A → Result A
  err : Error → Result A

abbrev pub is_ok {ℓ} : {A : Type ℓ} → Result A → Bool
is_ok (ok a) = true
is_ok (err e) = false

-- `err == metadata.ErrNotFound`: identity, which a wrapped error fails
abbrev pub eq_not_found : Error → Bool
eq_not_found not_found = true
eq_not_found _ = false

-- `err == metadata.ErrAlreadyExists`
abbrev pub eq_already_exists : Error → Bool
eq_already_exists already_exists = true
eq_already_exists _ = false

-- errors.Is(err, metadata.ErrNotFound): also a wrapped one
abbrev pub is_not_found : Error → Bool
is_not_found not_found = true
is_not_found (wrap m e) = is_not_found e
is_not_found _ = false

pub Result-cases {ℓ} :
    {A : Type ℓ} (r : Result A) → ((a : A) × (r ≡ ok a)) ⊎ ((e : Error) × (r ≡ err e))
Result-cases (ok a) = inl (a, refl)
Result-cases (err e) = inr (e, refl)
