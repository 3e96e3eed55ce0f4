-- ===== src/Handoff/Shutdown.antt =====
-- The end of a session in src/handoff-gate.ts leaves no bound run awaited.
use mathlib.Core.Option.{some_inj}
use herdr_tools.Base.{
  ◌≡◌, ◌≢◌, refl, sym, ap, subst, ◌∙◌, Bool, true, false, String, ◌==◌, eq_iff, List, [], ◌∷◌,
  Option, none, some, arith, is_some, if_rule, option_rule, Bool-cases, inl, inr, ◌⊎◌,
}
use herdr_tools.Base.Dict.{Dict, get, put, get-put}
use herdr_tools.Handoff.{
  Update, committed, refused, unsynced, thrown, Run, Sidecar, Slices, recovery_pending, mirror,
  updated, record_outcome,
}
use herdr_tools.Handoff.Gate.{
  Gate, is_awaiting, awaits, give_up, give_up_each, unresolved, shutdown,
}

abbrev given_up : Slices → Update → Run → Sidecar → Run
given_up t u r s = (record_outcome t recovery_pending (some "manager_session_shutdown") u r s).1

given_up_awaiting :
    (t : Slices) (u : Update) (r : Run) (s : Sidecar)
    → is_awaiting r.lifecycle ≡ false
    → is_awaiting (given_up t u r s).lifecycle ≡ false
unfolding record_outcome updated mirror
given_up_awaiting t committed r s h = refl
given_up_awaiting t unsynced r s h = h
given_up_awaiting t refused r s h = h
given_up_awaiting t thrown r s h = h

run_id-given_up :
    (t : Slices) (u : Update) (r : Run) (s : Sidecar) → (given_up t u r s).run_id ≡ r.run_id
unfolding record_outcome updated mirror
run_id-given_up t committed r s = refl
run_id-given_up t unsynced r s = refl
run_id-given_up t refused r s = refl
run_id-given_up t thrown r s = refl

abbrev run_awaits : Option Run → Bool
run_awaits o = elim o [ none ↦ false | some r ↦ is_awaiting r.lifecycle ]

put_awaits :
    (x ref : String) (r : Run) (d : Dict Run)
    → (ref ≡ x → is_awaiting r.lifecycle ≡ false)
    → (ref ≢ x → run_awaits (get x d) ≡ false)
    → run_awaits (get x (put ref r d)) ≡ false
put_awaits x ref r d same other =
    subst (λ o. run_awaits o ≡ false) (sym (get-put ref x r d))
      (if_rule (λ o. run_awaits o ≡ false) (ref == x) _ _ (λ e. same ((eq_iff ref x).0 e))
        (λ e. other (λ q. absurd (ground (arith, eq_iff ref x)))))

-- Giving up a run never makes one awaited.
give_up-awaits :
    (t : Slices) (answers : String → Update) (ref x : String) (g : Gate)
    → awaits x g ≡ false
    → awaits x (give_up t answers ref g) ≡ false
unfolding give_up
give_up-awaits t answers ref x g h =
    option_rule (λ (u : Gate). awaits x u ≡ false) (get ref g.objects) _ _ (λ gone. h)
      (λ r found.
        option_rule (λ (u : Gate). awaits x u ≡ false) (get r.run_id g.sidecars) _ _ (λ gone. h)
          (λ s side.
            put_awaits x ref (given_up t (answers ref) r s) g.objects
              (λ q.
                given_up_awaiting t (answers ref) r s
                  (ap run_awaits (sym (ap (λ k. get k g.objects) (sym q) ∙ found)) ∙ h))
              (λ n. h)))

give_up_each-awaits :
    (t : Slices) (answers : String → Update) (refs : List String) (x : String) (g : Gate)
    → awaits x g ≡ false
    → awaits x (give_up_each t answers refs g) ≡ false
unfolding give_up_each
give_up_each-awaits t answers [] x g h = h
give_up_each-awaits t answers (ref ∷ refs) x g h =
    give_up_each-awaits t answers refs x (give_up t answers ref g)
      (give_up-awaits t answers ref x g h)

-- Every run object has a sidecar.
abbrev pub HasSidecars : Gate → Type 0
HasSidecars g =
    (ref : String) (r : Run) → get ref g.objects ≡ some r → is_some (get r.run_id g.sidecars) ≡ true

given_up_committed :
    (t : Slices) (u : Update) (r : Run) (s : Sidecar)
    → u ≡ committed
    → is_awaiting (given_up t u r s).lifecycle ≡ false
unfolding record_outcome updated mirror
given_up_committed t u r s c = rw c refl

give_up_settles :
    (t : Slices) (answers : String → Update) (ref : String) (g : Gate)
    → HasSidecars g
    → answers ref ≡ committed
    → awaits ref (give_up t answers ref g) ≡ false
unfolding give_up
give_up_settles t answers ref g k c =
    option_rule (λ (u : Gate). awaits ref u ≡ false) (get ref g.objects) _ _
      (λ gone. ap run_awaits gone)
      (λ r found.
        option_rule (λ (u : Gate). awaits ref u ≡ false) (get r.run_id g.sidecars) _ _
          (λ gone. let here = k ref r found in absurd (ground arith))
          (λ s side.
            put_awaits ref ref (given_up t (answers ref) r s) g.objects
              (λ q. given_up_committed t (answers ref) r s c) (λ n. absurd (n refl))))

put-is_some :
    (j k : String) (v : Sidecar) (d : Dict Sidecar)
    → is_some (get j d) ≡ true
    → is_some (get j (put k v d)) ≡ true
put-is_some j k v d h =
    subst (λ o. is_some o ≡ true) (sym (get-put k j v d))
      (if_rule (λ o. is_some o ≡ true) (k == j) _ _ (λ e. refl) (λ e. h))

put_object :
    (ref x : String) (next r : Run) (d : Dict Run)
    → get x (put ref next d) ≡ some r
    → (next ≡ r) ⊎ (get x d ≡ some r)
put_object ref x next r d h =
    if_rule (λ o. o ≡ some r → (next ≡ r) ⊎ (get x d ≡ some r)) (ref == x) _ _
      (λ e q. inl (some_inj.0 q)) (λ e q. inr q) (sym (get-put ref x next d) ∙ h)

give_up-HasSidecars :
    (t : Slices) (answers : String → Update) (ref : String) (g : Gate)
    → HasSidecars g
    → HasSidecars (give_up t answers ref g)
unfolding give_up
give_up-HasSidecars t answers ref g k =
    option_rule HasSidecars (get ref g.objects) _ _ (λ gone. k)
      (λ r found.
        option_rule HasSidecars (get r.run_id g.sidecars) _ _ (λ gone. k)
          (λ s side x q h.
            put-is_some q.run_id r.run_id _ g.sidecars
              (elim (put_object ref x (given_up t (answers ref) r s) q g.objects h) [
                | inl e ↦
                    subst (λ id. is_some (get id g.sidecars) ≡ true)
                      (sym (run_id-given_up t (answers ref) r s) ∙ ap (λ (y : Run). y.run_id) e)
                      (k ref r found)
                | inr e ↦ k x q e
              ])))

IsIn : String → List String → Type 0
IsIn x [] = ⊥
IsIn x (y ∷ ys) = (y ≡ x) ⊎ IsIn x ys

give_up_each_settles :
    (t : Slices) (answers : String → Update) (refs : List String) (x : String) (g : Gate)
    → HasSidecars g
    → ((ref : String) → answers ref ≡ committed)
    → IsIn x refs
    → awaits x (give_up_each t answers refs g) ≡ false
unfolding give_up_each IsIn
give_up_each_settles t answers [] x g k c m = elim m [ ]
give_up_each_settles t answers (ref ∷ refs) x g k c (inl e) =
    give_up_each-awaits t answers refs x (give_up t answers ref g) (
      subst (λ y. awaits y (give_up t answers ref g) ≡ false) e
        (give_up_settles t answers ref g k (c ref)))
give_up_each_settles t answers (ref ∷ refs) x g k c (inr m) =
    give_up_each_settles t answers refs x (give_up t answers ref g)
      (give_up-HasSidecars t answers ref g k) c m

not_both : {b : Bool} → b ≡ true → b ≡ false → ⊥
not_both t f = ground arith

unresolved_lem :
    (runs : Dict String) (key ref : String) (g : Gate)
    → get key runs ≡ some ref
    → awaits ref g ≡ true
    → IsIn ref (unresolved runs g)
unfolding unresolved get IsIn
unresolved_lem [] key ref g h a = absurd (ground arith)
unresolved_lem ((k, other) ∷ rest) key ref g h a =
    if_rule (λ o. o ≡ some ref → IsIn ref (unresolved ((k, other) ∷ rest) g)) (k == key) _ _
      (λ hit q.
        let same : other ≡ ref = some_inj.0 q in
        let live : awaits other g ≡ true = subst (λ y. awaits y g ≡ true) (sym same) a in
        if_rule (IsIn ref) (awaits other g) _ _ (λ yes. inl same) (λ no. absurd (not_both live no)))
      (λ miss q.
        let m = unresolved_lem rest key ref g q a in
        if_rule (IsIn ref) (awaits other g) _ _ (λ yes. inr m) (λ no. m))
      h

-- Where every run object has a sidecar and the store commits every update, no run that is bound when
-- the session ends is awaited after it.
pub shutdown_settles :
    (t : Slices) (answers : String → Update) (g : Gate) (key ref : String)
    → HasSidecars g
    → ((r : String) → answers r ≡ committed)
    → get key g.runs ≡ some ref
    → awaits ref (shutdown t answers g) ≡ false
unfolding shutdown
shutdown_settles t answers g key ref k c h = elim (Bool-cases (awaits ref g)) [
  | inl live ↦
      give_up_each_settles t answers (unresolved g.runs g) ref g k c
        (unresolved_lem g.runs key ref g h live)
  | inr settled ↦ give_up_each-awaits t answers (unresolved g.runs g) ref g settled
]
