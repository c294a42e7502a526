-- ===== src/Outcome.antt =====
-- Go's error results. `failed` is an error made from a message, `wrapped` is fmt.Errorf with %w, and
-- `unknown_running_order` is service.UnknownRunningOrderError (service/resync.go), which the
-- transport finds inside any wrapping by errors.As.
use open_mos.Prelude.{String, Bool, true, false, Option, none, some, ◌≡◌, ◌⊎◌, inl, inr, refl}
use open_mos.Text.{Text}

pub data Error : Type 0 where
  failed : String → Error
  wrapped : String → Error → Error
  unknown_running_order : Text → Error → Error

-- errors.As(err, *UnknownRunningOrderError): the running order to ask the NCS for.
unfoldable pub lost_synchronisation : Error → Option Text
lost_synchronisation (failed m) = none
lost_synchronisation (wrapped m e) = lost_synchronisation e
lost_synchronisation (unknown_running_order ro e) = some ro

pub data Result {ℓ} (A : Type ℓ) : Type ℓ where
  ok : A → Result A
  err : Error → Result A

-- `err == nil`
abbrev pub is_ok {ℓ} : {A : Type ℓ} → Result A → Bool
is_ok (ok a) = true
is_ok (err e) = false

-- fmt.Errorf("<message>: %w", err)
abbrev pub wrap {ℓ} : {A : Type ℓ} → String → Result A → Result A
wrap m (ok a) = ok a
wrap m (err e) = err (wrapped m e)

abbrev pub to_result {ℓ} : {A : Type ℓ} → Error → Option A → Result A
to_result e none = err e
to_result e (some a) = ok a

infixl 5 ◌>>=◌
abbrev pub ◌>>=◌ {ℓ κ} : {A : Type ℓ} {B : Type κ} → Result A → (A → Result B) → Result B
ok a >>= f = f a
err e >>= f = err e

pub Result-cases {ℓ} :
    {A : Type ℓ} (r : Result A) → ((a : A) × (r ≡ ok a)) ⊎ ((e : Error) × (r ≡ err e))
Result-cases (ok a) = inl (a, refl)
Result-cases (err e) = inr (e, refl)
