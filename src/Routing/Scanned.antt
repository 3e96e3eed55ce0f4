-- ===== src/Routing/Scanned.antt =====
-- What the availability loop of src/router.ts leaves.
use herdr_tools.Base.{
  ◌≡◌, refl, ◌⊎◌, ◌||◌, true, Bool-cases, inl, inr, Bool, String, List, [], ◌∷◌, ◌++◌, Option, some,
  arith, All, All-append, Option-cases, subst,
}
use herdr_tools.Routing.Ranking.{ChainExclusion, point_unavailable, contains}
use herdr_tools.Routing.Chains.{
  is_skipped, quota_identity, Point, Status, unknown_status, known_exhausted,
  local_capacity_limited, degraded, Gated, exclude, observe, Scan, stopped, scanned, scan,
}

-- The gate lets a point start.
abbrev pub IsOpen : (Point → Option Status) → Point → Type 0
IsOpen gate p = (gate p ≡ some unknown_status) ⊎ (gate p ≡ some degraded)

-- What a property says of a loop that may stop.
unfoldable pub OnScan {κ} : (Gated → Type κ) → Scan → Type κ
OnScan P (stopped why) = Unit
OnScan P (scanned g) = P g

pub OnScan-scanned {κ} :
    (P : Gated → Type κ) (r : Scan) (g : Gated) → r ≡ scanned g → OnScan P r → P g
unfolding OnScan
OnScan-scanned P r g h a = subst (λ x. OnScan P x) h a

module _ {κ} (Q : Point → Type κ) (gate : Point → Option Status) where
  abbrev pub IsAdmissible : Point → Type κ
  IsAdmissible p = Q p × IsOpen gate p

  observe-All :
      (p : Point) (st : Status) (g : Gated)
      → gate p ≡ some st
      → Q p
      → All IsAdmissible g.available
      → All IsAdmissible (observe p st g).available
  unfolding observe
  observe-All p known_exhausted g e q a = a
  observe-All p local_capacity_limited g e q a = a
  observe-All p unknown_status g e q a =
      All-append IsAdmissible g.available (p ∷ []) a ((q, inl e), tt)
  observe-All p degraded g e q a = All-append IsAdmissible g.available (p ∷ []) a ((q, inr e), tt)

  -- An invariant of the loop's state.
  scan-OnScan {μ} :
      (P : Gated → Type μ) (has_runner : String → Bool)
      → ((p : Point) (g : Gated) → P g → P (exclude p g))
      → ((p : Point) (st : Status) (g : Gated) → gate p ≡ some st → Q p → P g → P (observe p st g))
      → (ps : List Point) (g : Gated) → All Q ps
      → P g
      → OnScan P (scan has_runner gate ps g)
  unfolding scan OnScan
  scan-OnScan P has_runner skip step [] g q a = a
  scan-OnScan P has_runner skip step (p ∷ ps) g (q, qs) a =
      let skipped = scan-OnScan P has_runner skip step ps (exclude p g) qs (skip p g a) in
      elim (Option-cases (gate p)) [
        | inl e ↦ ground arith
        | inr (st, e) ↦
            let taken =
              scan-OnScan P has_runner skip step ps (observe p st g) qs (step p st g e q a) in
            ground arith
      ]

  -- What holds of all candidates holds of the available ones, and the gate lets each of them start.
  pub scan-All :
      (has_runner : String → Bool) (ps : List Point) (g g' : Gated)
      → All Q ps
      → All IsAdmissible g.available
      → scan has_runner gate ps g ≡ scanned g'
      → All IsAdmissible g'.available
  scan-All has_runner ps g g' q a h =
      OnScan-scanned (λ x. All IsAdmissible x.available) (scan has_runner gate ps g) g' h
        (scan-OnScan (λ x. All IsAdmissible x.available) has_runner (λ p x y. y)
          (λ p st x e q y. observe-All p st x e q y) ps g q a)

-- The entry of a candidate that is unavailable.
abbrev pub unavailable_entry : Point → ChainExclusion
unavailable_entry p = record { id = p.id; provider = p.provider; reasons = point_unavailable ∷ [] }

-- The points of `ps`, one after the other, were appended to the available points `a`, where the gate
-- lets them start, or to the exclusions `e`, where the gate does not or where their quota is one of
-- `qs` or their runner one of `rs`; that made `g`. A point whose quota is exhausted adds it to `qs`,
-- and one whose runner has no capacity left adds it to `rs`.
unfoldable pub Accounts :
    (Point → Option Status)
    → List Point
    → List String
    → List String
    → List Point
    → List ChainExclusion
    → Gated
    → Type 0
unfolding quota_identity
Accounts gate [] qs rs a e g = (g.available ≡ a) × (g.exclusions ≡ e)
Accounts gate (p ∷ ps) qs rs a e g =
    (IsOpen gate p × Accounts gate ps qs rs (a ++ p ∷ []) e g)
    ⊎ (((gate p ≡ some known_exhausted)
          × Accounts gate ps (quota_identity p ∷ qs) rs a (e ++ unavailable_entry p ∷ []) g)
        ⊎ (((gate p ≡ some local_capacity_limited)
              × Accounts gate ps qs (p.runner ∷ rs) a (e ++ unavailable_entry p ∷ []) g)
            ⊎ (((contains (quota_identity p) qs || contains p.runner rs) ≡ true)
                × Accounts gate ps qs rs a (e ++ unavailable_entry p ∷ []) g)))

-- What is accounted from the state `g` on.
abbrev AccountsFrom : (Point → Option Status) → List Point → Gated → Gated → Type 0
AccountsFrom gate ps g x =
    Accounts gate ps g.exhausted_quotas g.local_runners g.available g.exclusions x

observed-Accounts :
    (gate : Point → Option Status) (p : Point) (st : Status) (ps : List Point) (g : Gated)
    (r : Scan)
    → gate p ≡ some st
    → OnScan (AccountsFrom gate ps (observe p st g)) r
    → OnScan (AccountsFrom gate (p ∷ ps) g) r
unfolding OnScan Accounts observe
observed-Accounts gate p st ps g (stopped why) e h = tt
observed-Accounts gate p known_exhausted ps g (scanned x) e h = inr (inl (e, h))
observed-Accounts gate p local_capacity_limited ps g (scanned x) e h = inr (inr (inl (e, h)))
observed-Accounts gate p unknown_status ps g (scanned x) e h = inl (inl e, h)
observed-Accounts gate p degraded ps g (scanned x) e h = inl (inr e, h)

skipped-Accounts :
    (gate : Point → Option Status) (p : Point) (ps : List Point) (g : Gated) (r : Scan)
    → is_skipped p g ≡ true
    → OnScan (AccountsFrom gate ps (exclude p g)) r
    → OnScan (AccountsFrom gate (p ∷ ps) g) r
unfolding OnScan Accounts
skipped-Accounts gate p ps g (stopped why) e h = tt
skipped-Accounts gate p ps g (scanned x) e h = inr (inr (inr (e, h)))

scan-OnAccounts :
    (has_runner : String → Bool) (gate : Point → Option Status) (ps : List Point) (g : Gated)
    → OnScan (AccountsFrom gate ps g) (scan has_runner gate ps g)
unfolding scan OnScan Accounts
scan-OnAccounts has_runner gate [] g = (refl, refl)
scan-OnAccounts has_runner gate (p ∷ ps) g = elim (Bool-cases (is_skipped p g)) [
  | inl out ↦
      let skipped =
        skipped-Accounts gate p ps g (scan has_runner gate ps (exclude p g)) out
          (scan-OnAccounts has_runner gate ps (exclude p g)) in
      ground arith
  | inr here ↦ elim (Option-cases (gate p)) [
    | inl e ↦ ground arith
    | inr (st, e) ↦
        let taken =
          observed-Accounts gate p st ps g (scan has_runner gate ps (observe p st g)) e
            (scan-OnAccounts has_runner gate ps (observe p st g)) in
        ground arith
  ]
]

-- When the availability loop ends, each of its candidates was, in their order, appended once: to the
-- available points, and then the gate lets it start, or to the exclusions under its own identifier
-- and provider as an unavailable point, and then the gate answers that its quota is exhausted or its
-- runner has no capacity, or an earlier answer said so of the same quota or the same runner, or the
-- loop began with it; nothing else was appended to either.
pub scan-Accounts :
    (has_runner : String → Bool) (gate : Point → Option Status) (ps : List Point) (g g' : Gated)
    → scan has_runner gate ps g ≡ scanned g'
    → Accounts gate ps g.exhausted_quotas g.local_runners g.available g.exclusions g'
scan-Accounts has_runner gate ps g g' h =
    OnScan-scanned (AccountsFrom gate ps g) (scan has_runner gate ps g) g' h
      (scan-OnAccounts has_runner gate ps g)
