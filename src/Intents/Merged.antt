-- ===== src/Intents/Merged.antt =====
-- What `mergeChildren` of src/daemon/intents.ts makes of each field of a child, and when the children
-- of an intent are accounted for.
use herdr_tools.Base.{
  ◌≡◌, refl, ◌∙◌, Bool, true, false, not, ◌&&◌, ◌||◌, String, ◌==◌, List, [], ◌∷◌, Option, none,
  some, all, any, length, eqb, arith, eq_iff, if◌then◌else◌,
}
use herdr_tools.Intents.Record.{
  Disposition, bound, identity_lost, ambiguous, Child, fill, merge_child, merge_children, accounted,
  is_settled,
}
use herdr_tools.Intents.Children.{has_name, has_name-merge}

-- The newer value where there is one.
unfoldable pub newer {ℓ} : {A : Type ℓ} → Option A → Option A → Option A
newer none old = old
newer (some new) old = some new

module _ {ℓ} {A : Type ℓ} (field : Child → Option A) (n : String) where
  -- The field of the first child of that name.
  unfoldable pub first_of : List Child → Option A
  first_of [] = none
  first_of (c ∷ cs) = if c.name == n then field c else first_of cs

  -- The last value that the children of that name give, over an older one.
  unfoldable pub last_over : Option A → List Child → Option A
  unfolding newer
  last_over old [] = old
  last_over old (c ∷ cs) = last_over (if c.name == n then newer (field c) old else old) cs

  module _ (fills : (old new : Child) → field (fill old new) ≡ newer (field new) (field old)) where
    newer-none : (o : Option A) → newer o none ≡ o
    unfolding newer
    newer-none none = refl
    newer-none (some a) = refl

    first_of-merge_child :
        (cs : List Child) (c : Child)
        → first_of (merge_child cs c)
          ≡ (if c.name == n then newer (field c) (first_of cs) else first_of cs)
    unfolding first_of merge_child fill
    first_of-merge_child [] c = ground (arith, newer-none (field c))
    first_of-merge_child (d ∷ cs) c = ground (
      arith,
      first_of-merge_child cs c,
      fills d c,
      eq_iff d.name c.name,
      eq_iff d.name n,
      eq_iff c.name n,
    )

    first_of-merge :
        (cs added : List Child) → first_of (merge_children cs added) ≡ last_over (first_of cs) added
    unfolding merge_children last_over
    first_of-merge cs [] = refl
    first_of-merge cs (c ∷ added) =
        first_of-merge (merge_child cs c) added ∙ rw (first_of-merge_child cs c) refl

-- `added` merged into `old` is `new`, seen at the children of one name: there is one where one of
-- them had it, and each of its fields is the last one given, or the recorded one.
pub record IsMerged (n : String) (old added new : List Child) : Type 0 where
  pub there : has_name n new ≡ (has_name n old || has_name n added)
  pub run_id :
      first_of (λ c. c.run_id) n new
      ≡ last_over (λ c. c.run_id) n (first_of (λ c. c.run_id) n old) added
  pub disposition :
      first_of (λ c. c.disposition) n new
      ≡ last_over (λ c. c.disposition) n (first_of (λ c. c.disposition) n old) added
  pub evidence :
      first_of (λ c. c.evidence) n new
      ≡ last_over (λ c. c.evidence) n (first_of (λ c. c.evidence) n old) added

run_id_fills : (old new : Child) → (fill old new).run_id ≡ newer new.run_id old.run_id
unfolding fill newer
run_id_fills old new = ground arith

disposition_fills :
    (old new : Child) → (fill old new).disposition ≡ newer new.disposition old.disposition
unfolding fill newer
disposition_fills old new = ground arith

evidence_fills : (old new : Child) → (fill old new).evidence ≡ newer new.evidence old.evidence
unfolding fill newer
evidence_fills old new = ground arith

pub merge_children-IsMerged :
    (n : String) (old added : List Child) → IsMerged n old added (merge_children old added)
merge_children-IsMerged n old added = record {
  there = has_name-merge n old added;
  run_id = first_of-merge (λ c. c.run_id) n run_id_fills old added;
  disposition = first_of-merge (λ c. c.disposition) n disposition_fills old added;
  evidence = first_of-merge (λ c. c.evidence) n evidence_fills old added;
}

merge_child_some : (cs : List Child) (c : Child) → eqb (length (merge_child cs c)) 0 ≡ false
unfolding merge_child
merge_child_some [] c = refl
merge_child_some (d ∷ cs) c = ground arith

-- Nothing is merged exactly from nothing.
pub merge_children_none :
    (old added : List Child)
    → eqb (length (merge_children old added)) 0 ≡ (eqb (length old) 0 && eqb (length added) 0)
unfolding merge_children
merge_children_none old [] = ground arith
merge_children_none old (c ∷ added) =
    ground (arith, merge_children_none (merge_child old c) added, merge_child_some old c)

-- A child of which it is not known that it is bound or lost.
unfoldable pub is_unclear : Option Disposition → Bool
is_unclear none = true
is_unclear (some bound) = false
is_unclear (some identity_lost) = false
is_unclear (some ambiguous) = true

abbrev pub some_unclear : List Child → Bool
some_unclear cs = any (λ c. is_unclear c.disposition) cs

accounted-is_unclear : (o : Option Disposition) → accounted o ≡ not (is_unclear o)
unfolding is_unclear
accounted-is_unclear none = refl
accounted-is_unclear (some bound) = refl
accounted-is_unclear (some identity_lost) = refl
accounted-is_unclear (some ambiguous) = refl

all-some_unclear : (cs : List Child) → all (λ c. accounted c.disposition) cs ≡ not (some_unclear cs)
all-some_unclear [] = refl
all-some_unclear (c ∷ cs) = ground (arith, accounted-is_unclear c.disposition, all-some_unclear cs)

pub is_settled-some_unclear :
    (cs : List Child) → is_settled cs ≡ (not (eqb (length cs) 0) && not (some_unclear cs))
unfolding is_settled
is_settled-some_unclear cs = ground (arith, all-some_unclear cs)
