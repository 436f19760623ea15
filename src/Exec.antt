-- ===== src/Exec.antt =====
-- Bodies that read and write the state of a task, and end as an `Outcome`. What was written before
-- an error stays written, so the state is returned beside every outcome.
pub mod Keeps
pub mod Settles
use mqtt_rust_scion.Prelude.{
  subst, ◌⊎◌, inl, inr, Bool, true, false, Option, none, some, ◌≡◌, refl, sym, ap, ◌∙◌, arith,
}
use mqtt_rust_scion.Rust.{Error, Outcome, ok, err, panicked, waiting, no_fuel}

abbrev pub Exec {ℓ} : Type ℓ → Type ℓ → Type ℓ
Exec S A = S → Outcome A × S

module _ {ℓ} {S A B : Type ℓ} where
  abbrev pub after : Outcome A → (A → Exec S B) → S → Outcome B × S
  after (ok a) rest s = rest a s
  after (err e) rest s = (err e, s)
  after panicked rest s = (panicked, s)
  after waiting rest s = (waiting, s)
  after no_fuel rest s = (no_fuel, s)

  infixl 5 ◌>>=◌ ◌>>◌
  abbrev pub ◌>>=◌ : Exec S A → (A → Exec S B) → Exec S B
  ◌>>=◌ first rest s = after (first s).0 rest (first s).1

  abbrev pub ◌>>◌ : Exec S A → Exec S B → Exec S B
  first >> rest = first >>= λ _. rest

module _ {ℓ} {S A : Type ℓ} where
  abbrev pub pure : A → Exec S A
  pure a s = (ok a, s)

  -- `return Err(e)`
  abbrev pub throw : Error → Exec S A
  throw e s = (err e, s)

  abbrev pub crash : Exec S A
  crash s = (panicked, s)

  abbrev pub out_of_fuel : Exec S A
  out_of_fuel s = (no_fuel, s)

  abbrev pub gets : (S → A) → Exec S A
  gets f s = (ok (f s), s)

  -- `option.ok_or(e)?`
  abbrev pub ok_or : Option A → Error → Exec S A
  ok_or o e s = (elim o [ none ↦ err e | some a ↦ ok a ], s)

  -- `option.unwrap()`
  abbrev pub unwrap : Option A → Exec S A
  unwrap o s = (elim o [ none ↦ panicked | some a ↦ ok a ], s)

abbrev pub modify : {S : Type 0} → (S → S) → Exec S (Unit {0})
modify f s = (ok tt, f s)

-- `result?` where only success and failure matter
abbrev pub check : {S : Type 0} → Bool → Error → Exec S (Unit {0})
check b e s = (elim b [ true ↦ ok tt | false ↦ err e ], s)

-- Inversion of a body that ends well: it did so at each step.
module _ {ℓ} {S A B : Type ℓ} {b : B} where
  pub ok_or->>= :
      (o : Option A) (e : Error) (rest : A → Exec S B) (s : S)
      → ((ok_or o e >>= rest) s).0 ≡ ok b
      → (a : A) × (o ≡ some a) × ((rest a s).0 ≡ ok b)
  ok_or->>= none e rest s h = cc
  ok_or->>= (some a) e rest s h = (a, refl, h)

  pub >>=-ok :
      (first : Exec S A) (rest : A → Exec S B) (s : S)
      → ((first >>= rest) s).0 ≡ ok b
      → (a : A) × ((first s).0 ≡ ok a)
        × ((first >>= rest) s ≡ rest a (first s).1)
        × ((rest a (first s).1).0 ≡ ok b)
  >>=-ok first rest s h = split (first s).0 refl
    where
      split :
          (o : Outcome A)
          → o ≡ (first s).0
          → (a : A) × ((first s).0 ≡ ok a)
            × ((first >>= rest) s ≡ rest a (first s).1)
            × ((rest a (first s).1).0 ≡ ok b)
      split (ok a) e = (
        a,
        sym e,
        ap (λ p. after p rest (first s).1) (sym e),
        ap (λ p. (after p rest (first s).1).0) e ∙ h,
      )
      split (err x) e = absurd (ground arith)
      split panicked e = absurd (ground arith)
      split waiting e = absurd (ground arith)
      split no_fuel e = absurd (ground arith)

module _ {S B : Type 0} {b : B} where
  pub ok_or-ok : (o : Option B) (e : Error) (s : S) → (ok_or o e s).0 ≡ ok b → o ≡ some b
  ok_or-ok none e s h = cc
  ok_or-ok (some a) e s h = cc

  pub check->> :
      (passed : Bool) (e : Error) (rest : Exec S B) (s : S)
      → ((check passed e >> rest) s).0 ≡ ok b
      → (passed ≡ true) × ((rest s).0 ≡ ok b)
  check->> true e rest s h = (refl, h)
  check->> false e rest s h = cc

  -- The value of a body that only returns one.
  pub pure-ok : (a : B) (s : S) → (pure a s).0 ≡ ok b → a ≡ b
  pure-ok a s h = cc

-- The body returns: it ends by `Ok` or by `Err`, not by a panic, a wait or for want of fuel.
abbrev pub Returns {ℓ} : {A : Type ℓ} → Outcome A → Type 0
Returns (ok a) = Unit
Returns (err e) = Unit
Returns panicked = ⊥
Returns waiting = ⊥
Returns no_fuel = ⊥

module _ {S A B : Type 0} where
  pub >>=-Returns :
      (first : Exec S A) (rest : A → Exec S B) (s : S)
      → Returns (first s).0
      → ((a : A) → (first s).0 ≡ ok a → Returns (rest a (first s).1).0)
      → Returns ((first >>= rest) s).0
  >>=-Returns first rest s h k = split (first s).0 refl
    where
      split : (o : Outcome A) → o ≡ (first s).0 → Returns (after o rest (first s).1).0
      split (ok a) e = k a (sym e)
      split (err x) e = tt
      split panicked e = subst Returns (sym e) h
      split waiting e = subst Returns (sym e) h
      split no_fuel e = subst Returns (sym e) h

-- The two ways to return.
pub Returns-cases {ℓ} :
    {A : Type ℓ} (o : Outcome A) → Returns o → ((a : A) × (o ≡ ok a)) ⊎ ((e : Error) × (o ≡ err e))
Returns-cases (ok a) h = inl (a, refl)
Returns-cases (err e) h = inr (e, refl)
Returns-cases panicked h = elim h [ ]
Returns-cases waiting h = elim h [ ]
Returns-cases no_fuel h = elim h [ ]
