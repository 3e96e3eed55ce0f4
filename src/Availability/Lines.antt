-- ===== src/Availability/Lines.antt =====
-- The lines of the record file of src/availability.ts: what an append adds to the records read.
use mathlib.Core.List.{append_assoc, append-nil}
use herdr_tools.Base.{
  ℕ, ◌≡◌, ◌≢◌, ◌⊎◌, refl, sym, ap, ◌∙◌, Bool, true, false, List, [], ◌∷◌, ◌++◌, Option, none, some,
  length, eqb, if◌then◌else◌, arith, All, if_rule, Bool-cases, inl, inr,
}
use herdr_tools.Supervision.Json.{Fields, object}
use herdr_tools.Availability.{Dates, CooldownRecord, parse_record}
use herdr_tools.Availability.Log.{
  JsonText, Read, split_lines, prepend, read_lines, parsed, one_more,
}

-- A file that is empty or ends with a line feed.
abbrev pub IsTerminated : List ℕ → Type 0
IsTerminated file = (file ≡ []) ⊎ ((body : List ℕ) × (file ≡ body ++ 10 ∷ []))

-- The text of an object is a line that is read back.
pub record WritesLine (j : JsonText) (fs : Fields) : Type 0 where
  pub reads : j.parse_json (j.stringify fs) ≡ some (object fs)
  pub one_line : All (λ c. c ≢ 10) (j.stringify fs)
  pub nonempty : length (j.stringify fs) ≢ 0

split_lines_cons : (xs : List ℕ) → (l : List ℕ) × (ls : List (List ℕ)) × (split_lines xs ≡ l ∷ ls)
unfolding split_lines
split_lines_cons [] = ([], [], refl)
split_lines_cons (x ∷ xs) =
    let (l, ls, e) = split_lines_cons xs in
    if_rule (λ out. (m : List ℕ) × (ms : List (List ℕ)) × (out ≡ m ∷ ms)) (eqb x 10) _ _
      (λ feed. ([], split_lines xs, refl)) (λ kept. (x ∷ l, ls, ap (prepend x) e))

pub split_lines-append :
    (xs ys : List ℕ) → split_lines (xs ++ 10 ∷ ys) ≡ split_lines xs ++ split_lines ys
unfolding split_lines
split_lines-append [] ys = refl
split_lines-append (x ∷ xs) ys =
    let ih = split_lines-append xs ys in
    let (l, ls, e) = split_lines_cons xs in
    elim (Bool-cases (eqb x 10)) [
      | inl feed ↦ rw feed (ap (◌∷◌ []) ih)
      | inr kept ↦ rw kept (
          ap (prepend x) (ih ∙ ap (λ s. s ++ split_lines ys) e)
          ∙ ap (λ s. prepend x s ++ split_lines ys) (sym e))
    ]

split_lines_line : (xs : List ℕ) → All (λ c. c ≢ 10) xs → split_lines xs ≡ xs ∷ []
unfolding split_lines
split_lines_line [] f = refl
split_lines_line (x ∷ xs) (n, f) =
    let e = split_lines_line xs f in
    let other : eqb x 10 ≡ false = ground arith in rw other (ap (prepend x) e)

length_nonzero : (n : ℕ) → n ≢ 0 → eqb n 0 ≡ false
length_nonzero n h = ground arith

more :
    (blank : Bool) (o : Option CooldownRecord) (a b : Read) (xs : List CooldownRecord)
    → a.records ≡ b.records ++ xs
    → (if blank then a else one_more o a).records
      ≡ (if blank then b else one_more o b).records ++ xs
more true o a b xs h = h
more false none a b xs h = h
more false (some e) a b xs h = ap (◌∷◌ e) h

one :
    (blank : Bool) (o : Option CooldownRecord) (r : CooldownRecord) (a : Read)
    → blank ≡ false
    → o ≡ some r
    → (if blank then a else one_more o a).records ≡ r ∷ a.records
one blank o r a b h = rw (b, h) refl

module _ (d : Dates) (j : JsonText) where
  abbrev pub records_of : List (List ℕ) → List CooldownRecord
  records_of ls = (read_lines d j ls).records

  records_of-append :
      (ls ms : List (List ℕ)) → records_of (ls ++ ms) ≡ records_of ls ++ records_of ms
  unfolding read_lines
  records_of-append [] ms = refl
  records_of-append (l ∷ ls) ms =
      more (eqb (length l) 0) (parsed d (j.parse_json l)) (read_lines d j (ls ++ ms))
        (read_lines d j ls) (records_of ms) (records_of-append ls ms)

  -- What is appended to a terminated file is read after the records it had.
  pub records_of-terminated :
      (file extra : List ℕ)
      → IsTerminated file
      → records_of (split_lines (file ++ extra))
        ≡ records_of (split_lines file) ++ records_of (split_lines extra)
  unfolding read_lines split_lines
  records_of-terminated file extra (inl e) = rw e refl
  records_of-terminated file extra (inr (body, e)) =
      let joined : file ++ extra ≡ body ++ 10 ∷ extra =
        ap (λ f. f ++ extra) e ∙ append_assoc body (10 ∷ []) extra in
      let whole : records_of (split_lines (file ++ extra))
          ≡ records_of (split_lines body) ++ records_of (split_lines extra) =
        ap (λ f. records_of (split_lines f)) joined
        ∙ ap records_of (split_lines-append body extra)
        ∙ records_of-append (split_lines body) (split_lines extra) in
      let alone : records_of (split_lines file) ≡ records_of (split_lines body) =
        ap (λ f. records_of (split_lines f)) e
        ∙ ap records_of (split_lines-append body [])
        ∙ records_of-append (split_lines body) ([] ∷ [])
        ∙ append-nil (records_of (split_lines body)) in
      whole ∙ ap (λ rs. rs ++ records_of (split_lines extra)) (sym alone)

  cut :
      (fs : Fields) (r : CooldownRecord) (line : List ℕ)
      → eqb (length line) 0 ≡ false
      → parsed d (j.parse_json line) ≡ some r
      → records_of (line ∷ [] ∷ []) ≡ r ∷ []
  unfolding read_lines
  cut fs r line full found =
      one (eqb (length line) 0) (parsed d (j.parse_json line)) r (read_lines d j ([] ∷ [])) full
        found

  pub records_of_line :
      (fs : Fields) (r : CooldownRecord)
      → WritesLine j fs
      → parse_record d (object fs) ≡ some r
      → records_of (split_lines (j.stringify fs ++ 10 ∷ [])) ≡ r ∷ []
  unfolding read_lines split_lines
  records_of_line fs r w read =
      let line = j.stringify fs in
      let lines : split_lines (line ++ 10 ∷ []) ≡ line ∷ [] ∷ [] =
        split_lines-append line [] ∙ ap (λ ls. ls ++ [] ∷ []) (split_lines_line line w.one_line) in
      let full : eqb (length line) 0 ≡ false = length_nonzero (length line) w.nonempty in
      let found : parsed d (j.parse_json line) ≡ some r = ap (parsed d) w.reads ∙ read in
      ap records_of lines ∙ cut fs r line full found
