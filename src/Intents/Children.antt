-- ===== src/Intents/Children.antt =====
-- `mergeChildren` of src/daemon/intents.ts: children are merged by name.
use herdr_tools.Base.{
  ◌≡◌, refl, Bool, true, ◌||◌, String, ◌==◌, List, [], ◌∷◌, any, not, ◌&&◌, arith, eq_iff,
}
use herdr_tools.Intents.Record.{Child, merge_child, merge_children}

abbrev pub named : String → Child → Bool
named n c = c.name == n

abbrev pub has_name : String → List Child → Bool
has_name n cs = any (named n) cs

abbrev pub distinct : List Child → Bool
distinct [] = true
distinct (c ∷ cs) = not (has_name c.name cs) && distinct cs

has_name-merge_child :
    (n : String) (cs : List Child) (c : Child)
    → has_name n (merge_child cs c) ≡ (has_name n cs || c.name == n)
unfolding merge_child
has_name-merge_child n [] c = ground arith
has_name-merge_child n (d ∷ cs) c =
    ground
      (arith, has_name-merge_child n cs c, eq_iff d.name c.name, eq_iff d.name n, eq_iff c.name n)

distinct-merge_child :
    (cs : List Child) (c : Child) → distinct cs ≡ true → distinct (merge_child cs c) ≡ true
unfolding merge_child
distinct-merge_child [] c h = refl
distinct-merge_child (d ∷ cs) c h = ground (
  arith,
  distinct-merge_child cs c,
  has_name-merge_child d.name cs c,
  eq_iff d.name c.name,
  eq_iff c.name d.name,
)

pub has_name-merge :
    (n : String) (cs added : List Child)
    → has_name n (merge_children cs added) ≡ (has_name n cs || has_name n added)
unfolding merge_children
has_name-merge n cs [] = ground arith
has_name-merge n cs (c ∷ added) =
    ground (arith, has_name-merge n (merge_child cs c) added, has_name-merge_child n cs c)

-- Merging never duplicates a name, and loses and invents none: the merged names are the old and the
-- added ones.
pub merge_children_names :
    (n : String) (cs added : List Child)
    → distinct cs ≡ true
    → (distinct (merge_children cs added) ≡ true)
      × (has_name n (merge_children cs added) ≡ (has_name n cs || has_name n added))
unfolding merge_children
merge_children_names n cs [] h = (h, has_name-merge n cs [])
merge_children_names n cs (c ∷ added) h = (
  (merge_children_names n (merge_child cs c) added (distinct-merge_child cs c h)).0,
  has_name-merge n cs (c ∷ added),
)
