-- ===== src/Base/Distinct.antt =====
-- Lists of different names, under sorting and `slice`.
use Prim.Native.Nat.{ℕ, zero, suc, ◌≤◌}
use Prim.Native.String.{String}
use mathlib.Core.Bool.{Bool, true}
use mathlib.Core.List.{List, [], ◌∷◌}
use mathlib.Core.Path.{◌≡◌, refl, sym, subst}
use mathlib.Core.Logic.{◌≢◌, inl, inr}
use native.Mathlib.Omega.{arith}
use text.Mathlib.Text.{◌==◌}
use text.Mathlib.TextEquality.{eq_iff}
use text.Mathlib.TextPositions.{eq_refl}
use herdr_tools.Base.Tests.{Bool-cases, is_some}
use herdr_tools.Base.Lists.{take, length, All}
use herdr_tools.Base.Dict.{Dict, names, get, put}
use herdr_tools.Base.Sort.{insert_sorted, sort}

abbrev pub Fresh : String → List String → Type 0
Fresh n xs = All (λ m. m ≢ n) xs

unfoldable pub Distinct : List String → Type 0
Distinct [] = Unit
Distinct (x ∷ xs) = Fresh x xs × Distinct xs

module _ {κ} (P : String → Type κ) (before : String → String → Bool) where
  insert_sorted-All :
      (a : String) (xs : List String) → P a → All P xs → All P (insert_sorted before a xs)
  unfolding insert_sorted
  insert_sorted-All a [] p q = (p, q)
  insert_sorted-All a (b ∷ bs) p (q, r) = elim (Bool-cases (before b a)) [
    | inl e ↦ rw e (q, insert_sorted-All a bs p r)
    | inr e ↦ rw e (p, (q, r))
  ]

  pub sort-All : (xs : List String) → All P xs → All P (sort before xs)
  unfolding sort
  sort-All [] p = p
  sort-All (x ∷ xs) (p, q) = insert_sorted-All x (sort before xs) p (sort-All xs q)

pub take-All {κ} : (P : String → Type κ) (n : ℕ) (xs : List String) → All P xs → All P (take n xs)
take-All P zero xs p = tt
take-All P (suc n) [] p = p
take-All P (suc n) (x ∷ xs) (p, q) = (p, take-All P n xs q)

module _ (before : String → String → Bool) where
  length-insert_sorted :
      (a : String) (xs : List String) → length (insert_sorted before a xs) ≡ suc (length xs)
  unfolding insert_sorted
  length-insert_sorted a [] = refl
  length-insert_sorted a (b ∷ bs) = ground (arith, length-insert_sorted a bs)

  pub length-sort : (xs : List String) → length (sort before xs) ≡ length xs
  unfolding sort
  length-sort [] = refl
  length-sort (x ∷ xs) = ground (arith, length-insert_sorted x (sort before xs), length-sort xs)

  insert_sorted-Distinct :
      (a : String) (xs : List String)
      → Fresh a xs
      → Distinct xs
      → Distinct (insert_sorted before a xs)
  unfolding insert_sorted Distinct
  insert_sorted-Distinct a [] f d = (f, d)
  insert_sorted-Distinct a (b ∷ bs) (n, f) (g, d) = elim (Bool-cases (before b a)) [
    | inl e ↦ rw e (
      insert_sorted-All (λ m. m ≢ b) before a bs (λ p. n (sym p)) g,
      insert_sorted-Distinct a bs f d,
    )
    | inr e ↦ rw e ((n, f), (g, d))
  ]

  pub sort-Distinct : (xs : List String) → Distinct xs → Distinct (sort before xs)
  unfolding sort Distinct
  sort-Distinct [] d = d
  sort-Distinct (x ∷ xs) (f, d) =
      insert_sorted-Distinct x (sort before xs) (sort-All (λ m. m ≢ x) before xs f)
        (sort-Distinct xs d)

pub take-Distinct : (n : ℕ) (xs : List String) → Distinct xs → Distinct (take n xs)
unfolding Distinct
take-Distinct zero xs d = tt
take-Distinct (suc n) [] d = d
take-Distinct (suc n) (x ∷ xs) (f, d) = (take-All (λ m. m ≢ x) n xs f, take-Distinct n xs d)

pub length-take : (n : ℕ) (xs : List String) → n ≤ length xs → length (take n xs) ≡ n
length-take zero xs h = refl
length-take (suc n) [] h = ground arith
length-take (suc n) (x ∷ xs) h = ground (arith, length-take n xs)

-- A name of a dictionary.
abbrev pub IsIn {ℓ} : {V : Type ℓ} → Dict V → String → Type 0
IsIn d n = is_some (get n d) ≡ true

IsIn-weaken {ℓ} :
    {V : Type ℓ} (j : String) (w : V) (d : Dict V) (ns : List String)
    → All (IsIn d) ns
    → All (IsIn ((j, w) ∷ d)) ns
unfolding get
IsIn-weaken j w d [] a = a
IsIn-weaken j w d (n ∷ ns) (p, a) = (ground arith, IsIn-weaken j w d ns a)

pub names-IsIn {ℓ} : {V : Type ℓ} (d : Dict V) → All (IsIn d) (names d)
unfolding names get
names-IsIn [] = tt
names-IsIn ((j, w) ∷ d) = (ground (arith, eq_refl j), IsIn-weaken j w d (names d) (names-IsIn d))

pub length-names {ℓ} : {V : Type ℓ} (d : Dict V) → length (names d) ≡ length d
unfolding names
length-names [] = refl
length-names ((j, w) ∷ d) = ground (arith, length-names d)

names-put-Fresh {ℓ} :
    {V : Type ℓ} (m k : String) (v : V) (d : Dict V)
    → k ≢ m
    → Fresh m (names d)
    → Fresh m (names (put k v d))
unfolding names put
names-put-Fresh m k v [] n f = (n, tt)
names-put-Fresh m k v ((j, w) ∷ d) n (p, f) = elim (Bool-cases (j == k)) [
  | inl e ↦ rw e (n, f)
  | inr e ↦ rw e (p, names-put-Fresh m k v d n f)
]

pub names-put-Distinct {ℓ} :
    {V : Type ℓ} (k : String) (v : V) (d : Dict V)
    → Distinct (names d)
    → Distinct (names (put k v d))
unfolding names put Distinct
names-put-Distinct k v [] u = (tt, tt)
names-put-Distinct k v ((j, w) ∷ d) (f, u) = elim (Bool-cases (j == k)) [
  | inl e ↦
      let same : j ≡ k = ground (arith, eq_iff j k) in
      rw e (subst (λ n. Fresh n (names d)) same f, u)
  | inr e ↦
      let other : k ≢ j = ground (arith, eq_iff j k) in
      rw e (names-put-Fresh j k v d other f, names-put-Distinct k v d u)
]
