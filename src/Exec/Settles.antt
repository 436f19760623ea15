-- ===== src/Exec/Settles.antt =====
-- Bodies on fuel that come to an end: with enough fuel they do not run out, and more changes nothing.
use mqtt_rust_scion.Prelude.{
  ℕ, zero, suc, ◌+◌, ◌≤◌, Bool, true, false, Option, none, some, ◌≡◌, refl, sym, ap, subst, ◌∙◌,
  if◌then◌else◌, arith,
}
use mqtt_rust_scion.Rust.{Error, Outcome, ok, err, panicked, waiting, no_fuel}
use mqtt_rust_scion.Exec.{Exec, after, ◌>>=◌, ◌>>◌, pure, throw, gets, ok_or, unwrap, modify, check}

abbrev pub Ends : {A : Type 0} → Outcome A → Type 0
Ends no_fuel = ⊥
Ends _ = Unit

-- A body without loops: it ends from every state.
pub record Quick {S A : Type 0} (body : Exec S A) : Type 0 where
  pub at : (s : S) → Ends (body s).0

module _ {S A : Type 0} where
  pub Quick-pure : (a : A) → Quick {S = S} (pure a)
  Quick-pure a = record { at = λ s. tt }

  pub Quick-throw : (e : Error) → Quick {S = S} (throw {A = A} e)
  Quick-throw e = record { at = λ s. tt }

  pub Quick-gets : (f : S → A) → Quick (gets f)
  Quick-gets f = record { at = λ s. tt }

  pub Quick-ok_or : (o : Option A) (e : Error) → Quick {S = S} (ok_or o e)
  Quick-ok_or none e = record { at = λ s. tt }
  Quick-ok_or (some a) e = record { at = λ s. tt }

  pub Quick-unwrap : (o : Option A) → Quick {S = S} (unwrap o)
  Quick-unwrap none = record { at = λ s. tt }
  Quick-unwrap (some a) = record { at = λ s. tt }

  pub Quick-if : (b : Bool) (m n : Exec S A) → Quick m → Quick n → Quick (if b then m else n)
  Quick-if true m n qm qn = qm
  Quick-if false m n qm qn = qn

module _ {S : Type 0} where
  pub Quick-check : (b : Bool) (e : Error) → Quick {S = S} (check b e)
  Quick-check true e = record { at = λ s. tt }
  Quick-check false e = record { at = λ s. tt }

  pub Quick-modify : (f : S → S) → Quick (modify f)
  Quick-modify f = record { at = λ s. tt }

module _ {S A B : Type 0} where
  Ends-after :
      (o : Outcome A) (rest : A → Exec S B) (s : S)
      → Ends o
      → ((a : A) → Quick (rest a))
      → Ends (after o rest s).0
  Ends-after (ok a) rest s h q = (q a).at s
  Ends-after (err e) rest s h q = tt
  Ends-after panicked rest s h q = tt
  Ends-after waiting rest s h q = tt
  Ends-after no_fuel rest s h q = elim h [ ]

  pub Quick-bind :
      (first : Exec S A) (rest : A → Exec S B)
      → Quick first
      → ((a : A) → Quick (rest a))
      → Quick (first >>= rest)
  Quick-bind first rest qf qr = record {
    at = λ s. Ends-after (first s).0 rest (first s).1 (qf.at s) qr;
  }

  pub Quick-then :
      (first : Exec S A) (rest : Exec S B) → Quick first → Quick rest → Quick (first >> rest)
  Quick-then first rest qf qr = Quick-bind first (λ _. rest) qf (λ _. qr)

pub ruleset quick_rules = (
  Quick-pure, Quick-throw, Quick-gets, Quick-ok_or, Quick-unwrap, Quick-if, Quick-check,
  Quick-modify, Quick-bind, Quick-then,
)

-- With `enough` fuel or more the body ends from `s`, in one way.
pub record Settles {S A : Type 0} (body : ℕ → Exec S A) (s : S) : Type 0 where
  pub enough : ℕ
  pub same : (fuel : ℕ) → enough ≤ fuel → body fuel s ≡ body enough s
  pub ends : Ends (body enough s).0

module _ {S A : Type 0} where
  pub Quick-Settles : (m : Exec S A) (s : S) → Quick m → Settles (λ _. m) s
  Quick-Settles m s q = record { enough = 0; same = λ fuel le. refl; ends = q.at s }

  pub Settles-if :
      (b : Bool) (m n : ℕ → Exec S A) (s : S)
      → Settles m s
      → Settles n s
      → Settles (λ fuel. if b then m fuel else n fuel) s
  Settles-if true m n s sm sn = sm
  Settles-if false m n s sm sn = sn

  -- The branches of an `elim`.
  pub Settles-cases :
      (b : Bool) (m n : ℕ → Exec S A) (s : S)
      → Settles m s
      → Settles n s
      → Settles (λ fuel. elim b [ true ↦ m fuel | false ↦ n fuel ]) s
  Settles-cases true m n s sm sn = sm
  Settles-cases false m n s sm sn = sn

  -- A round of a loop takes one unit of fuel.
  pub Settles-suc : (body : ℕ → Exec S A) (s : S) → Settles (λ n. body (suc n)) s → Settles body s
  Settles-suc body s h = record { enough = suc h.enough; same = later; ends = h.ends }
    where
      later : (fuel : ℕ) → suc h.enough ≤ fuel → body fuel s ≡ body (suc h.enough) s
      later zero le = absurd (omega arith)
      later (suc fuel) le = h.same fuel (omega arith)

module _ {S A B : Type 0} (rest : ℕ → A → Exec S B) where
  after-Settles :
      (o : Outcome A) (t : S)
      → Ends o
      → ((a : A) → o ≡ ok a → Settles (λ n. rest n a) t)
      → Settles (λ n. after o (rest n)) t
  after-Settles (ok a) t h k = k a refl
  after-Settles (err e) t h k = record { enough = 0; same = λ fuel le. refl; ends = tt }
  after-Settles panicked t h k = record { enough = 0; same = λ fuel le. refl; ends = tt }
  after-Settles waiting t h k = record { enough = 0; same = λ fuel le. refl; ends = tt }
  after-Settles no_fuel t h k = elim h [ ]

  pub Settles-bind :
      (first : ℕ → Exec S A) (s : S) (h : Settles first s)
      → ((a : A) → (first h.enough s).0 ≡ ok a → Settles (λ n. rest n a) (first h.enough s).1)
      → Settles (λ n. first n >>= rest n) s
  Settles-bind first s h k = record {
    enough = h.enough + r.enough;
    same = λ fuel le. shown fuel le ∙ sym (shown (h.enough + r.enough) (omega arith));
    ends = subst (λ q. Ends q.0) (sym (shown (h.enough + r.enough) (omega arith))) r.ends;
  }
    where
      r : Settles (λ n. after (first h.enough s).0 (rest n)) (first h.enough s).1
      r = after-Settles (first h.enough s).0 (first h.enough s).1 h.ends k

      shown :
          (fuel : ℕ)
          → h.enough + r.enough ≤ fuel
          → (first fuel >>= rest fuel) s
            ≡ after (first h.enough s).0 (rest r.enough) (first h.enough s).1
      shown fuel le =
          ap (λ q. after q.0 (rest fuel) q.1) (h.same fuel (omega arith))
          ∙ r.same fuel (omega arith)

  -- A first part without loops.
  pub Settles-first :
      (first : Exec S A) (s : S)
      → Quick first
      → ((a : A) → (first s).0 ≡ ok a → Settles (λ n. rest n a) (first s).1)
      → Settles (λ n. first >>= rest n) s
  Settles-first first s q k = Settles-bind (λ n. first) s (Quick-Settles first s q) k

pub Settles-then :
    {S A B : Type 0} (first : ℕ → Exec S A) (rest : ℕ → Exec S B) (s : S) (h : Settles first s)
    → ((a : A) → (first h.enough s).0 ≡ ok a → Settles rest (first h.enough s).1)
    → Settles (λ n. first n >> rest n) s
Settles-then first rest s h k = Settles-bind (λ n _. rest n) first s h k
