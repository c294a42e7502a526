-- ===== src/Exec.antt =====
-- Methods that change the state of their receiver and may return an error. What was written before
-- the error stays written, so the state comes back beside either.
use open_mos.Prelude.{String, List, [], ◌∷◌}
use open_mos.Outcome.{Error, Result, ok, err, wrap}

abbrev pub Exec {ℓ} : Type ℓ → Type ℓ → Type ℓ
Exec S A = S → Result A × S

module _ {ℓ} {S A : Type ℓ} where
  abbrev pub pure : A → Exec S A
  pure a s = (ok a, s)

  abbrev pub raise : Error → Exec S A
  raise e s = (err e, s)

  abbrev pub lift : Result A → Exec S A
  lift r s = (r, s)

  -- What a reading method returns, errors included.
  abbrev pub reads : (S → Result A) → Exec S A
  reads f s = (f s, s)

  -- `_ = f()`, or an error that is only logged
  abbrev pub ignore : Exec S A → Exec S (Unit {ℓ})
  ignore m s = (ok tt, (m s).1)

module _ {ℓ} {S A B : Type ℓ} where
  abbrev pub continue : Result A → (A → Exec S B) → Exec S B
  continue (ok a) f s = f a s
  continue (err e) f s = (err e, s)

  infixl 5 ◌>>=◌ ◌>>◌
  abbrev pub ◌>>=◌ : Exec S A → (A → Exec S B) → Exec S B
  ◌>>=◌ m f s = continue (m s).0 f (m s).1

  abbrev pub ◌>>◌ : Exec S A → Exec S B → Exec S B
  m >> n = m >>= λ _. n

module _ {ℓ} {S A : Type ℓ} where
  -- for _, a := range list { if err := f(a); err != nil { return err } }
  unfoldable pub for_each : List A → (A → Exec S (Unit {ℓ})) → Exec S (Unit {ℓ})
  for_each [] f = pure tt
  for_each (a ∷ as') f = f a >> for_each as' f

-- fmt.Errorf("<message>: %w", err)
abbrev pub annotate {ℓ} : {S A : Type ℓ} → String → Exec S A → Exec S A
annotate m f s = (wrap m (f s).0, (f s).1)
