-- ===== src/Supervision/SelfClose/Table.antt =====
-- The entries of src/supervision/self-close.ts by pane: what a removal and an assignment do to a sum
-- over the entries, to their panes and to the other entries.
use herdr_tools.Base.{
  ℕ, ◌+◌, ◌≤◌, ◌≡◌, ◌≢◌, refl, subst, String, ◌==◌, eq_iff, List, [], ◌∷◌, ◌++◌, some, map, length,
  arith, All, inl, inr, Bool-cases,
}
use herdr_tools.Base.Distinct.{Distinct, Fresh}
use herdr_tools.Supervision.SelfClose.{Entry, entry_of, without, replaced}

abbrev pub total : (Entry → ℕ) → List Entry → ℕ
total w [] = 0
total w (e ∷ es) = w e + total w es

abbrev pub panes : List Entry → List String
panes es = map (λ (e : Entry). e.pane_id) es

-- The entry that its pane has.
abbrev pub IsCurrent : Entry → List Entry → Type 0
IsCurrent e es = entry_of e.pane_id es ≡ some e

pub pane_id-entry_of :
    (pane : String) (e : Entry) (es : List Entry) → entry_of pane es ≡ some e → pane ≡ e.pane_id
unfolding entry_of
pane_id-entry_of pane e [] h = ground arith
pane_id-entry_of pane e (f ∷ es) h =
    ground (arith, eq_iff f.pane_id pane, pane_id-entry_of pane e es)

pub entry_of-IsCurrent :
    (pane : String) (e : Entry) (es : List Entry) → entry_of pane es ≡ some e → IsCurrent e es
entry_of-IsCurrent pane e es h =
    subst (λ p. entry_of p es ≡ some e) (pane_id-entry_of pane e es h) h

pub total-without :
    (w : Entry → ℕ) (pane : String) (e : Entry) (es : List Entry)
    → entry_of pane es ≡ some e
    → total w (without pane es) + w e ≡ total w es
unfolding entry_of without
total-without w pane e [] h = ground arith
total-without w pane e (f ∷ es) h = ground (arith, total-without w pane e es)

pub total-replaced :
    (w : Entry → ℕ) (pane : String) (e f : Entry) (es : List Entry)
    → entry_of pane es ≡ some e
    → total w (replaced pane f es) + w e ≡ total w es + w f
unfolding entry_of replaced
total-replaced w pane e f [] h = ground arith
total-replaced w pane e f (g ∷ es) h = ground (arith, total-replaced w pane e f es)

pub total-append :
    (w : Entry → ℕ) (es fs : List Entry) → total w (es ++ fs) ≡ total w es + total w fs
total-append w [] fs = omega arith
total-append w (e ∷ es) fs = omega (arith, total-append w es fs)

pub length-without : (pane : String) (es : List Entry) → length (without pane es) ≤ length es
unfolding without
length-without pane [] = omega arith
length-without pane (e ∷ es) = ground (arith, length-without pane es)

pub length-replaced :
    (pane : String) (f : Entry) (es : List Entry) → length (replaced pane f es) ≡ length es
unfolding replaced
length-replaced pane f [] = refl
length-replaced pane f (e ∷ es) = ground (arith, length-replaced pane f es)

pub without-All {κ} :
    (P : Entry → Type κ) (pane : String) (es : List Entry) → All P es → All P (without pane es)
unfolding without
without-All P pane [] p = p
without-All P pane (e ∷ es) (p, q) = elim (Bool-cases (e.pane_id == pane)) [
  | inl h ↦ rw h q
  | inr h ↦ rw h (p, without-All P pane es q)
]

pub replaced-All {κ} :
    (P : Entry → Type κ) (pane : String) (f : Entry) (es : List Entry)
    → P f
    → All P es
    → All P (replaced pane f es)
unfolding replaced
replaced-All P pane f [] r p = p
replaced-All P pane f (e ∷ es) r (p, q) = elim (Bool-cases (e.pane_id == pane)) [
  | inl h ↦ rw h (r, q)
  | inr h ↦ rw h (p, replaced-All P pane f es r q)
]

pub entry_of-All {κ} :
    (P : Entry → Type κ) (pane : String) (e : Entry) (es : List Entry)
    → All P es
    → entry_of pane es ≡ some e
    → P e
unfolding entry_of
entry_of-All P pane e [] p h = ground arith
entry_of-All P pane e (f ∷ es) (p, q) h = elim (Bool-cases (f.pane_id == pane)) [
  | inl hit ↦ let same : f ≡ e = ground arith in subst P same p
  | inr miss ↦ entry_of-All P pane e es q (ground arith)
]

-- The panes of the entries.
without-Fresh :
    (x pane : String) (es : List Entry) → Fresh x (panes es) → Fresh x (panes (without pane es))
unfolding without
without-Fresh x pane [] f = f
without-Fresh x pane (e ∷ es) (n, f) = ground (arith, without-Fresh x pane es f)

pub without-Distinct :
    (pane : String) (es : List Entry) → Distinct (panes es) → Distinct (panes (without pane es))
unfolding without Distinct
without-Distinct pane [] d = d
without-Distinct pane (e ∷ es) (f, d) =
    ground (arith, without-Distinct pane es d, without-Fresh e.pane_id pane es f)

pub panes-replaced :
    (e f : Entry) (es : List Entry)
    → f.pane_id ≡ e.pane_id
    → panes (replaced e.pane_id f es) ≡ panes es
unfolding replaced
panes-replaced e f [] h = refl
panes-replaced e f (g ∷ es) h = ground (arith, eq_iff g.pane_id e.pane_id, panes-replaced e f es h)

pub without-entry_of :
    (pane x : String) (es : List Entry) → pane ≢ x → entry_of x (without pane es) ≡ entry_of x es
unfolding entry_of without
without-entry_of pane x [] n = refl
without-entry_of pane x (e ∷ es) n =
    ground (arith, eq_iff e.pane_id x, eq_iff e.pane_id pane, without-entry_of pane x es n)

pub Fresh-without :
    (pane : String) (e : Entry) (es : List Entry)
    → Distinct (panes es)
    → entry_of pane es ≡ some e
    → Fresh pane (panes (without pane es))
unfolding entry_of without Distinct
Fresh-without pane e [] d h = tt
Fresh-without pane e (g ∷ es) (f, d) h = elim (Bool-cases (g.pane_id == pane)) [
  | inl hit ↦
      let same : g.pane_id ≡ pane = ground (arith, eq_iff g.pane_id pane) in
      rw hit (subst (λ x. Fresh x (panes es)) same f)
  | inr miss ↦
      let other : g.pane_id ≢ pane = ground (arith, eq_iff g.pane_id pane) in
      rw miss (other, Fresh-without pane e es d (ground arith))
]
