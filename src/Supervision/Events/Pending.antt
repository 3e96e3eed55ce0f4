-- ===== src/Supervision/Events/Pending.antt =====
-- `pending` of src/supervision/events.ts against the list of unobserved events, and how reading
-- the pending events drains the log.
use herdr_tools.Base.{
  ◌≢◌, ◌*◌, length-drop, take-append-drop, ℕ, zero, suc, ◌-◌, ◌≤◌, ◌<◌, ◌≡◌, refl, ap, subst, sym,
  ◌∙◌, true, false, not, String, List, [], ◌∷◌, ◌++◌, arith, length, take, keep, map, if◌then◌else◌,
  Bool-cases, inl, inr, ◌==◌, eq_iff, eq_refl, drop,
}
use herdr_tools.Base.Distinct.{Distinct, Fresh}
use herdr_tools.Supervision.Events.{
  Event, Logged, EventLog, pending_from, pending, has_event_id, mark_entries, mark_observed,
  unobserved_entries, unobserved, take_pending, max_returned_events,
}

-- The events not yet observed, oldest first.
unfoldable pub awaited : List Logged → List Event
awaited [] = []
awaited (x ∷ xs) = if x.observed then awaited xs else x.event ∷ awaited xs

pub pending_from-take :
    (limit : ℕ) (xs : List Logged) → 0 < limit → pending_from limit xs ≡ take limit (awaited xs)
unfolding pending_from awaited
pending_from-take zero xs h = absurd (omega arith)
pending_from-take (suc n) [] h = refl
pending_from-take (suc zero) (x ∷ xs) h = ground (arith, pending_from-take 1 xs h)
pending_from-take (suc (suc n)) (x ∷ xs) h =
    ground (arith, pending_from-take (suc (suc n)) xs h, pending_from-take (suc n) xs (omega arith))

-- For a limit of at least one, `pending` gives the oldest unobserved events, in their order, up to
-- that limit.
pub pending-oldest :
    (limit : ℕ) (log : EventLog) → 0 < limit → pending limit log ≡ take limit (awaited log.events)
pending-oldest limit log h = pending_from-take limit log.events h

length-awaited : (xs : List Logged) → length (awaited xs) ≡ unobserved_entries xs
unfolding awaited
length-awaited [] = refl
length-awaited (x ∷ xs) = ground (arith, length-awaited xs)

abbrev ids_of : List Event → List String
ids_of es = map (λ (e : Event). e.event_id) es

abbrev others : List String → List Event → List Event
others ids es = keep (λ (e : Event). not (has_event_id ids e)) es

awaited-mark_entries :
    (ids : List String) (xs : List Logged) → awaited (mark_entries ids xs) ≡ others ids (awaited xs)
unfolding awaited mark_entries
awaited-mark_entries ids [] = refl
awaited-mark_entries ids (x ∷ xs) = ground (arith, awaited-mark_entries ids xs)

length-others : (ids : List String) (es : List Event) → length (others ids es) ≤ length es
length-others ids [] = omega arith
length-others ids (e ∷ es) = ground (arith, length-others ids es)

not_eq : (a b : String) → b ≢ a → (a == b) ≡ false
not_eq a b n = elim (Bool-cases (a == b)) [
  | inl e ↦ absurd (n (sym ((eq_iff a b).0 e)))
  | inr e ↦ e
]

-- One more identifier changes nothing for the events that do not have it.
others-Fresh :
    (id : String) (ids : List String) (es : List Event)
    → Fresh id (ids_of es)
    → others (id ∷ ids) es ≡ others ids es
others-Fresh id ids [] f = refl
others-Fresh id ids (e ∷ es) (n, f) =
    let h : (id == e.event_id) ≡ false = not_eq id e.event_id n in
    ground (arith, others-Fresh id ids es f)

others-none : (es : List Event) → others [] es ≡ es
others-none [] = refl
others-none (e ∷ es) = ap (◌∷◌ e) (others-none es)

others-take :
    (n : ℕ) (es : List Event) → Distinct (ids_of es) → others (ids_of (take n es)) es ≡ drop n es
unfolding Distinct
others-take zero es d = others-none es
others-take (suc n) [] d = refl
others-take (suc n) (e ∷ es) (f, d) =
    let h : (e.event_id == e.event_id) ≡ true = eq_refl e.event_id in
    let fresh = others-Fresh e.event_id (ids_of (take n es)) es f in
    ground (arith, others-take n es d)

-- The log that is left once the pending events were taken.
abbrev rest_of : EventLog → EventLog
rest_of log = (take_pending log).1

awaited-take_pending :
    (log : EventLog)
    → awaited (rest_of log).events
      ≡ others (ids_of (take max_returned_events (awaited log.events))) (awaited log.events)
unfolding take_pending mark_observed
awaited-take_pending log =
    let p = pending_from-take max_returned_events log.events (omega arith) in
    awaited-mark_entries (ids_of (pending max_returned_events log)) log.events
    ∙ ap (λ taken. others (ids_of taken) (awaited log.events)) p

-- Reading the pending events `n` times: all that was read, and the log after it.
unfoldable pub drain : ℕ → EventLog → List Event × EventLog
unfolding take_pending
drain zero log = ([], log)
drain (suc n) log =
    let (taken, log') = take_pending log in let (more, left) = drain n log' in (taken ++ more, left)

others-taken_lt :
    (m n : ℕ) (es : List Event)
    → length es ≤ suc n
    → length (others (ids_of (take (suc m) es)) es) ≤ n
others-taken_lt m n [] h = omega arith
others-taken_lt m n (e ∷ es) h =
    let same : (e.event_id == e.event_id) ≡ true = eq_refl e.event_id in
    ground (arith, length-others (ids_of (e ∷ take m es)) es)

unobserved-rest_of :
    (log : EventLog) (n : ℕ) → unobserved log ≤ suc n → unobserved (rest_of log) ≤ n
unobserved-rest_of log n h =
    let before = length-awaited log.events in
    let after = length-awaited (rest_of log).events in
    let left = ap (λ es. length es) (awaited-take_pending log) in
    let fewer = others-taken_lt 15 n (awaited log.events) (omega arith) in omega arith

no_entries {ℓ} : {A : Type ℓ} (xs : List A) → length xs ≤ 0 → [] ≡ xs
no_entries [] h = refl
no_entries (x ∷ xs) h = absurd (omega arith)

-- Reading the pending events at least as often as there are unobserved ones leaves none
-- unobserved, whatever their identifiers are.
pub drain-unobserved :
    (n : ℕ) (log : EventLog) → unobserved log ≤ n → unobserved (drain n log).1 ≡ 0
unfolding drain
drain-unobserved zero log h = omega arith
drain-unobserved (suc n) log h = drain-unobserved n (rest_of log) (unobserved-rest_of log n h)

Distinct-drop : (n : ℕ) (es : List Event) → Distinct (ids_of es) → Distinct (ids_of (drop n es))
unfolding Distinct
Distinct-drop zero es d = d
Distinct-drop (suc n) [] d = d
Distinct-drop (suc n) (e ∷ es) (f, d) = Distinct-drop n es d

-- If no two unobserved events have one identifier, then reading the pending events often enough,
-- at `max_returned_events` a reading, gives every unobserved event once, the oldest first.
pub drain-awaited :
    (n : ℕ) (log : EventLog)
    → Distinct (ids_of (awaited log.events))
    → length (awaited log.events) ≤ n * max_returned_events
    → (drain n log).0 ≡ awaited log.events
unfolding drain take_pending
drain-awaited zero log d h = no_entries (awaited log.events) (omega arith)
drain-awaited (suc n) log d h =
    let es = awaited log.events in
    let taken = pending_from-take max_returned_events log.events (omega arith) in
    let left : awaited (rest_of log).events ≡ drop max_returned_events es =
      awaited-take_pending log ∙ others-take max_returned_events es d in
    let distinct =
      subst (λ xs. Distinct (ids_of xs)) (sym left) (Distinct-drop max_returned_events es d) in
    let fewer : length (awaited (rest_of log).events) ≡ length es - max_returned_events =
      ap (λ xs. length xs) left ∙ length-drop max_returned_events es in
    let later = drain-awaited n (rest_of log) distinct (omega arith) in
    ap (λ xs. xs ++ (drain n (rest_of log)).0) taken
    ∙ ap (λ ys. take max_returned_events es ++ ys) (later ∙ left)
    ∙ take-append-drop max_returned_events es
