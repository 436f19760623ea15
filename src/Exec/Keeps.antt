-- ===== src/Exec/Keeps.antt =====
-- Predicates on the state that a body keeps, however it ends: one rule for each way to write a body.
use mqtt_rust_scion.Prelude.{Bool, true, false, Option, none, some, if◌then◌else◌}
use mqtt_rust_scion.Rust.{Error, Outcome, ok, err, panicked, waiting, no_fuel}
use mqtt_rust_scion.Exec.{
  Exec, after, ◌>>=◌, ◌>>◌, pure, throw, out_of_fuel, gets, ok_or, unwrap, modify, check,
}

pub record Keeps {S A : Type 0} (P : S → Type 0) (body : Exec S A) : Type 0 where
  pub at : (s : S) → P s → P (body s).1

module _ {S A : Type 0} {P : S → Type 0} where
  pub Keeps-pure : (a : A) → Keeps P (pure a)
  Keeps-pure a = record { at = λ s h. h }

  pub Keeps-throw : (e : Error) → Keeps P (throw {A = A} e)
  Keeps-throw e = record { at = λ s h. h }

  pub Keeps-out_of_fuel : Keeps P (out_of_fuel {A = A})
  Keeps-out_of_fuel = record { at = λ s h. h }

  pub Keeps-gets : (f : S → A) → Keeps P (gets f)
  Keeps-gets f = record { at = λ s h. h }

  pub Keeps-ok_or : (o : Option A) (e : Error) → Keeps P (ok_or o e)
  Keeps-ok_or o e = record { at = λ s h. h }

  pub Keeps-unwrap : (o : Option A) → Keeps P (unwrap o)
  Keeps-unwrap o = record { at = λ s h. h }

  pub Keeps-if : (b : Bool) (m n : Exec S A) → Keeps P m → Keeps P n → Keeps P (if b then m else n)
  Keeps-if true m n km kn = km
  Keeps-if false m n km kn = kn

  -- The branches of an `elim`.
  pub Keeps-cases :
      (b : Bool) (m n : Exec S A)
      → Keeps P m
      → Keeps P n
      → Keeps P (elim b [ true ↦ m | false ↦ n ])
  Keeps-cases true m n km kn = km
  Keeps-cases false m n km kn = kn

  pub Keeps-option :
      {C : Type 0} (o : Option C) (m : Exec S A) (f : C → Exec S A)
      → Keeps P m
      → ((c : C) → Keeps P (f c))
      → Keeps P (elim o [ none ↦ m | some c ↦ f c ])
  Keeps-option none m f km kf = km
  Keeps-option (some c) m f km kf = kf c

module _ {S : Type 0} {P : S → Type 0} where
  pub Keeps-check : (b : Bool) (e : Error) → Keeps P (check b e)
  Keeps-check b e = record { at = λ s h. h }

  pub Keeps-modify : (f : S → S) → ((s : S) → P s → P (f s)) → Keeps P (modify f)
  Keeps-modify f k = record { at = k }

module _ {S A B : Type 0} {P : S → Type 0} where
  pub Keeps-after :
      (o : Outcome A) (rest : A → Exec S B) (s : S)
      → ((a : A) → Keeps P (rest a))
      → P s
      → P (after o rest s).1
  Keeps-after (ok a) rest s k h = (k a).at s h
  Keeps-after (err e) rest s k h = h
  Keeps-after panicked rest s k h = h
  Keeps-after waiting rest s k h = h
  Keeps-after no_fuel rest s k h = h

  pub Keeps-bind :
      (first : Exec S A) (rest : A → Exec S B)
      → Keeps P first
      → ((a : A) → Keeps P (rest a))
      → Keeps P (first >>= rest)
  Keeps-bind first rest kf kr = record {
    at = λ s h. Keeps-after (first s).0 rest (first s).1 kr (kf.at s h);
  }

  pub Keeps-then :
      (first : Exec S A) (rest : Exec S B) → Keeps P first → Keeps P rest → Keeps P (first >> rest)
  Keeps-then first rest kf kr = Keeps-bind first (λ _. rest) kf (λ _. kr)

pub ruleset keeps_rules = (
  Keeps-pure, Keeps-throw, Keeps-out_of_fuel, Keeps-gets, Keeps-ok_or, Keeps-unwrap, Keeps-if,
  Keeps-check, Keeps-bind, Keeps-then,
)
