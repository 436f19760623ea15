-- ===== src/Prelude/Maps.antt =====
-- `std::collections::HashMap`, as an association list: `get`, `insert` and `remove`. The program
-- never walks over a map, so the order of its entries is not modelled.
use mathlib.Core.Path.{◌≡◌, refl, ap, sym, ◌∙◌}
use mathlib.Core.Logic.{◌≢◌, inl, inr}
use mathlib.Core.Option.{Option, none, some}
use mathlib.Core.List.{List, [], ◌∷◌, ◌++◌}
use native.Mathlib.Omega.{arith}
use mqtt_rust_scion.Prelude.Tests.{Eq, ◌==◌, if◌then◌else◌, Bool-cases, beq_refl}

abbrev pub HashMap {ℓ} : Type ℓ → Type ℓ → Type ℓ
HashMap K V = List (K × V)

module _ {ℓ} {K V : Type ℓ} ⦃e : Eq K⦄ where
  unfoldable pub get : HashMap K V → K → Option V
  get [] k = none
  get ((j, v) ∷ m) k = if j == k then some v else get m k

  unfoldable pub remove : HashMap K V → K → HashMap K V
  remove [] k = []
  remove ((j, v) ∷ m) k = let rest = remove m k in if j == k then rest else (j, v) ∷ rest

  unfoldable pub insert : HashMap K V → K → V → HashMap K V
  unfolding remove
  insert m k v = (k, v) ∷ remove m k

  get-remove : (m : HashMap K V) (k j : K) → get (remove m k) j ≡ (if k == j then none else get m j)
  unfolding get remove
  get-remove [] k j = ground arith
  get-remove ((i, v) ∷ m) k j =
      ground (arith, get-remove m k j, e.same_iff i k, e.same_iff i j, e.same_iff k j)

  pub get-insert :
      (m : HashMap K V) (k j : K) (v : V)
      → get (insert m k v) j ≡ (if k == j then some v else get m j)
  unfolding get insert
  get-insert m k j v = ground (arith, get-remove m k j)

  -- No key stands in two entries.
  abbrev pub Distinct : HashMap K V → Type ℓ
  Distinct [] = Unit
  Distinct ((k, v) ∷ m) = (get m k ≡ none) × Distinct m

  remove_absent : (m : HashMap K V) (k : K) → get m k ≡ none → remove m k ≡ m
  unfolding get remove
  remove_absent [] k h = refl
  remove_absent ((j, v) ∷ m) k h = ground (arith, remove_absent m k)

  pub Distinct-insert :
      (m : HashMap K V) (k : K) (v : V) → get m k ≡ none → Distinct m → Distinct (insert m k v)
  unfolding insert
  Distinct-insert m k v absent h = rw (remove_absent m k absent) (absent, h)

  pub insert_absent : (m : HashMap K V) (k : K) (v : V) → get m k ≡ none → insert m k v ≡ (k, v) ∷ m
  unfolding insert
  insert_absent m k v absent = ap (λ (r : HashMap K V). (k, v) ∷ r) (remove_absent m k absent)

  get-middle : (m n : HashMap K V) (k : K) (v : V) → get (m ++ (k, v) ∷ n) k ≢ none
  unfolding get
  get-middle [] n k v h = ground (arith, beq_refl k)
  get-middle ((j, w) ∷ m) n k v h = ground (arith, get-middle m n k v)

  -- Where keys are distinct, `remove` takes out one entry, wherever it stands.
  pub remove-middle :
      (m n : HashMap K V) (k : K) (v : V)
      → Distinct (m ++ (k, v) ∷ n)
      → remove (m ++ (k, v) ∷ n) k ≡ m ++ n
  unfolding remove
  remove-middle [] n k v h = ground (arith, beq_refl k, remove_absent n k)
  remove-middle ((j, w) ∷ m) n k v h = elim (Bool-cases (j == k)) [
    | inl same ↦
        absurd
          (get-middle m n k v (ap (get (m ++ (k, v) ∷ n)) (sym ((e.same_iff j k).0 same)) ∙ h.0))
    | inr other ↦ rw other (ap (λ (r : HashMap K V). (j, w) ∷ r) (remove-middle m n k v h.1))
  ]

  get-without :
      (m n : HashMap K V) (j k : K) (v : V) → get (m ++ (k, v) ∷ n) j ≡ none → get (m ++ n) j ≡ none
  unfolding get
  get-without [] n j k v h = ground arith
  get-without ((i, w) ∷ m) n j k v h = ground (arith, get-without m n j k v)

  pub Distinct-without :
      (m n : HashMap K V) (k : K) (v : V) → Distinct (m ++ (k, v) ∷ n) → Distinct (m ++ n)
  Distinct-without [] n k v h = h.1
  Distinct-without ((j, w) ∷ m) n k v h = (get-without m n j k v h.0, Distinct-without m n k v h.1)
