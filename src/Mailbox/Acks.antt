-- ===== src/Mailbox/Acks.antt =====
-- What `ack` of src/daemon/mailbox.ts leaves in the two directories.
use herdr_tools.Base.{
  ◌+◌, ◌-◌, ◌≤◌, ◌≡◌, sym, subst, true, String, List, [], ◌∷◌, none, arith, eq_iff, eq_refl, length,
  take, All, Option-cases, inl, inr, is_some, text_before,
}
use herdr_tools.Base.Dict.{Dict, get, put, remove, names, get-remove}
use herdr_tools.Base.Sort.{sort}
use herdr_tools.Base.Distinct.{
  Distinct, Fresh, IsIn, sort-Distinct, take-Distinct, sort-All, take-All, length-sort, length-take,
  names-IsIn, length-names, names-put-Distinct,
}
use herdr_tools.Mailbox.Boxes.{State, Result, ok, Io, ensure_box, box, max_acked, scan_counts}
use herdr_tools.Mailbox.Admission.{admission, set_box}
use herdr_tools.Mailbox.Writes.{box-set_box, record_capacity-boxes}
use herdr_tools.Mailbox.Conserved.{box-ensure_box}
use herdr_tools.Mailbox.Caps.{length-remove_there}
use herdr_tools.Mailbox.{AckResult, acked, ack, ack_section, acknowledged, prune_acked, drop_names}

IsIn-remove :
    (n : String) (d : Dict String) (ns : List String)
    → Fresh n ns
    → All (IsIn d) ns
    → All (IsIn (remove n d)) ns
IsIn-remove n d [] f a = tt
IsIn-remove n d (m ∷ ms) (p, f) (q, a) =
    (ground (arith, get-remove n m d, eq_iff n m), IsIn-remove n d ms f a)

-- Each of the names dropped takes a file with it.
length-drop_names :
    (ns : List String) (d : Dict String)
    → Distinct ns
    → All (IsIn d) ns
    → length (drop_names ns d) + length ns ≤ length d
unfolding drop_names Distinct
length-drop_names [] d u a = ground arith
length-drop_names (n ∷ ns) d (f, u) (p, a) = elim (Option-cases (get n d)) [
  | inl e ↦ ground arith
  | inr (content, e) ↦ ground (
    arith,
    length-remove_there n content d e,
    length-drop_names ns (remove n d) u (IsIn-remove n d ns f a),
  )
]

-- The retention bound of `acked/`.
pub prune_acked-length : (d : Dict String) → Distinct (names d) → length (prune_acked d) ≤ max_acked
unfolding prune_acked
prune_acked-length d u =
    let excess = length d - max_acked in
    let sorted = sort text_before (names d) in
    ground (
      arith,
      length-drop_names (take excess sorted) d
          (take-Distinct excess sorted (sort-Distinct text_before (names d) u))
          (take-All (IsIn d) excess sorted
            (sort-All (IsIn d) text_before (names d) (names-IsIn d))),
      length-take excess sorted,
      length-sort text_before (names d),
      length-names d,
    )

-- The mailbox after an event of it is acknowledged.
module _ (io : Io) (key id : String) (s : State) where
  ack_section-acked :
      Distinct (names (box key s).acked)
      → (ack_section io key id s).0 ≡ ok acked
      → (is_some (get id (box key s).unread) ≡ true)
        × (get id (box key (ack_section io key id s).1).unread ≡ none)
        × (length (box key (ack_section io key id s).1).acked ≤ max_acked)
  unfolding ack_section
  ack_section-acked u h = elim (Option-cases (get id (box key s).unread)) [
    | inl e ↦ ground arith
    | inr (content, e) ↦
        let b = acknowledged id content (box key s) in
        let t = set_box key b s in
        ground (
          arith,
          record_capacity-boxes io (scan_counts t.boxes) t,
          box-set_box key key b s,
          eq_refl key,
          eq_refl id,
          get-remove id id (box key s).unread,
          prune_acked-length (put id content (box key s).acked)
              (names-put-Distinct id content (box key s).acked u),
        )
  ]

-- An answer under the locks is that of the section.
pub admission-ran {ℓ} :
    {A : Type ℓ} (io : Io) (key : String) (section : State → Result A × State) (s : State) (a : A)
    → (admission io key section s).0 ≡ ok a
    → admission io key section s ≡ section (ensure_box key s)
unfolding admission
admission-ran io key section s a h = ground arith

ack-ran :
    (io : Io) (key id : String) (s : State) (a : AckResult)
    → (ack io key id s).0 ≡ ok a
    → ack io key id s ≡ ack_section io key id (ensure_box key s)
unfolding ack
ack-ran io key id s a h = let e = admission-ran io key (ack_section io key id) s a in ground arith

-- An ack that answers acked took the event from the unread ones and leaves at most 1000 acked
-- events, if the acked files have different names.
pub ack_moves :
    (io : Io) (key id : String) (s : State)
    → Distinct (names (box key s).acked)
    → (ack io key id s).0 ≡ ok acked
    → (is_some (get id (box key s).unread) ≡ true)
      × (get id (box key (ack io key id s).1).unread ≡ none)
      × (length (box key (ack io key id s).1).acked ≤ 1000)
ack_moves io key id s u h =
    let t = ensure_box key s in
    let same : box key t ≡ box key s = box-ensure_box key key s in
    let ran : ack io key id s ≡ ack_section io key id t = ack-ran io key id s acked h in
    let (a, b, c) =
      ack_section-acked io key id t (subst (λ x. Distinct (names x.acked)) (sym same) u)
        (cc (ran, h)) in
    (cc (a, same), cc (b, ran), subst (λ r. length (box key r.1).acked ≤ 1000) (sym ran) c)
