-- ===== src/Supervision/Events/Window.antt =====
-- The bounded histories of src/supervision/events.ts keep the newest items: against the unbounded
-- history.
use mathlib.Core.List.{append-nil, append_assoc, map-append}
use herdr_tools.Base.{
  ℕ, zero, suc, ◌+◌, ◌-◌, ◌≤◌, ◌≡◌, refl, ap, sym, ◌∙◌, false, List, [], ◌∷◌, ◌++◌, arith, length,
  length-append, length-drop, length-map, drop, map, String,
}
use herdr_tools.Supervision.Events.{
  trim, BoundedHistory, push, Event, Logged, EventLog, append_event, mark_observed, mark_entries,
  history, max_events,
}

module _ {ℓ} {A : Type ℓ} where
  -- The loop drops what is over the limit from the front.
  pub trim-window :
      (limit : ℕ) (xs : List A) (dropped k : ℕ)
      → length xs - limit ≡ k
      → trim limit xs dropped ≡ (drop k xs, dropped + k)
  unfolding trim
  trim-window limit [] dropped zero h = ground arith
  trim-window limit [] dropped (suc k) h = ground arith
  trim-window limit (x ∷ xs) dropped zero h = ground arith
  trim-window limit (x ∷ xs) dropped (suc k) h =
      let e = trim-window limit xs (dropped + 1) k (omega arith) in
      let n : dropped + 1 + k ≡ dropped + suc k = omega arith in ground arith

  pub drop-append : (k : ℕ) (xs ys : List A) → k ≤ length xs → drop k (xs ++ ys) ≡ drop k xs ++ ys
  drop-append zero xs ys h = refl
  drop-append (suc k) [] ys h = ground arith
  drop-append (suc k) (x ∷ xs) ys h = drop-append k xs ys (ground arith)

  drop-nil : (n : ℕ) → drop {A = A} n [] ≡ []
  drop-nil zero = refl
  drop-nil (suc n) = refl

  pub drop-drop : (a b n : ℕ) (xs : List A) → a + b ≡ n → drop a (drop b xs) ≡ drop n xs
  drop-drop a zero n xs h = let e : a ≡ n = omega arith in ap (λ m. drop m xs) e
  drop-drop a (suc b) zero xs h = ground arith
  drop-drop a (suc b) (suc n) [] h = drop-nil a
  drop-drop a (suc b) (suc n) (x ∷ xs) h = drop-drop a b n xs (omega arith)

  -- A bounded history that has seen `ys`.
  pub record Tracks (h : BoundedHistory A) (ys : List A) : Type ℓ where
    pub window : h.items ≡ drop (length ys - h.limit) ys
    pub lost : h.dropped ≡ length ys - h.limit

  -- What the window and one more item are cut to.
  slide :
      (limit : ℕ) (ys : List A) (y : A) (dropped : ℕ)
      → dropped ≡ length ys - limit
      → trim limit (drop (length ys - limit) ys ++ y ∷ []) dropped
        ≡ (drop (length (ys ++ y ∷ []) - limit) (ys ++ y ∷ []), length (ys ++ y ∷ []) - limit)
  slide limit ys y dropped e =
      let a = length ys - limit in
      let all = ys ++ y ∷ [] in
      let kept = drop a ys ++ y ∷ [] in
      let k = length kept - limit in
      let n : length all ≡ length ys + 1 = length-append ys (y ∷ []) in
      let m : length kept ≡ length (drop a ys) + 1 = length-append (drop a ys) (y ∷ []) in
      let l : length (drop a ys) ≡ length ys - a = length-drop a ys in
      let cut : trim limit kept dropped ≡ (drop k kept, dropped + k) =
        trim-window limit kept dropped k refl in
      let same : drop a all ≡ kept = drop-append a ys (y ∷ []) (omega arith) in
      let total : k + a ≡ length all - limit = omega arith in
      let twice : drop k (drop a all) ≡ drop (length all - limit) all =
        drop-drop k a (length all - limit) all total in
      let count : dropped + k ≡ length all - limit = omega arith in
      let newest : drop k kept ≡ drop (length all - limit) all = ap (drop k) (sym same) ∙ twice in
      cut ∙ cc (newest, count)

  unfoldable pub pushes : List A → BoundedHistory A → BoundedHistory A
  unfolding push
  pushes [] h = h
  pushes (y ∷ ys) h = pushes ys (push y h)

  Tracks-push :
      (h : BoundedHistory A) (ys : List A) (y : A) → Tracks h ys → Tracks (push y h) (ys ++ y ∷ [])
  unfolding push
  Tracks-push h ys y t =
      let cut = slide h.limit ys y h.dropped t.lost in
      let e : trim h.limit (h.items ++ y ∷ []) h.dropped
          ≡ trim h.limit (drop (length ys - h.limit) ys ++ y ∷ []) h.dropped =
        ap (λ xs. trim h.limit (xs ++ y ∷ []) h.dropped) t.window in
      record {
        window = ap (λ (r : List A × ℕ). r.0) (e ∙ cut);
        lost = ap (λ (r : List A × ℕ). r.1) (e ∙ cut);
      }

  limit-pushes : (ys : List A) (h : BoundedHistory A) → (pushes ys h).limit ≡ h.limit
  unfolding pushes push
  limit-pushes [] h = refl
  limit-pushes (y ∷ ys) h = limit-pushes ys (push y h)

  Tracks-pushes :
      (ys : List A) (h : BoundedHistory A) (seen : List A)
      → Tracks h seen
      → Tracks (pushes ys h) (seen ++ ys)
  unfolding pushes
  Tracks-pushes [] h seen t = rw append-nil t
  Tracks-pushes (y ∷ ys) h seen t =
      rw (← append_assoc seen (y ∷ []) ys)
        (Tracks-pushes ys (push y h) (seen ++ y ∷ []) (Tracks-push h seen y t))

  abbrev pub empty_history : ℕ → BoundedHistory A
  empty_history limit = record { limit = limit; items = []; dropped = 0 }

  -- A bounded history that starts empty holds, after any items are pushed one after the other, the
  -- newest of them up to its limit, in their order, and counts all the others as dropped.
  pub pushes-newest :
      (limit : ℕ) (ys : List A)
      → ((pushes ys (empty_history limit)).items ≡ drop (length ys - limit) ys)
        × ((pushes ys (empty_history limit)).dropped ≡ length ys - limit)
  pushes-newest limit ys =
      let start : Tracks (empty_history limit) [] = record {
        window = sym (drop-nil (0 - limit));
        lost = omega arith;
      } in
      let t = Tracks-pushes ys (empty_history limit) [] start in
      let l : (pushes ys (empty_history limit)).limit ≡ limit =
        limit-pushes ys (empty_history limit) in
      (t.window ∙ ap (λ m. drop (length ys - m) ys) l, t.lost ∙ ap (λ m. length ys - m) l)

trim-map {ℓ κ} :
    {A : Type ℓ} {B : Type κ} (f : A → B) (limit : ℕ) (xs : List A) (dropped : ℕ)
    → trim limit (map f xs) dropped ≡ (map f (trim limit xs dropped).0, (trim limit xs dropped).1)
unfolding trim
trim-map f limit [] dropped = refl
trim-map f limit (x ∷ xs) dropped =
    ground (arith, trim-map f limit xs (dropped + 1), length-map f xs)

event_of-mark_entries :
    (ids : List String) (xs : List Logged)
    → map (λ (x : Logged). x.event) (mark_entries ids xs) ≡ map (λ (x : Logged). x.event) xs
unfolding mark_entries
event_of-mark_entries ids [] = refl
event_of-mark_entries ids (x ∷ xs) = ap (◌∷◌ x.event) (event_of-mark_entries ids xs)

pub data LogStep : Type 0 where
  appended : Event → LogStep
  marked : List String → LogStep

unfoldable pub log_after : List LogStep → EventLog → EventLog
unfolding append_event mark_observed
log_after [] log = log
log_after (appended e ∷ steps) log = log_after steps (append_event e log)
log_after (marked ids ∷ steps) log = log_after steps (mark_observed ids log)

-- The events of some steps, oldest first.
unfoldable pub appended_in : List LogStep → List Event
appended_in [] = []
appended_in (appended e ∷ steps) = e ∷ appended_in steps
appended_in (marked ids ∷ steps) = appended_in steps

record LogTracks (log : EventLog) (seen : List Event) : Type 0 where
  window : history log ≡ drop (length seen - max_events) seen
  lost : log.truncated ≡ length seen - max_events

LogTracks-append_event :
    (e : Event) (log : EventLog) (seen : List Event)
    → LogTracks log seen
    → LogTracks (append_event e log) (seen ++ e ∷ [])
unfolding append_event
LogTracks-append_event e log seen t =
    let f : Logged → Event = (λ (x : Logged). x.event) in
    let new : List Logged = record { event = e; observed = false } ∷ [] in
    let m = trim-map f max_events (log.events ++ new) log.truncated in
    let inner : map f (log.events ++ new) ≡ drop (length seen - max_events) seen ++ e ∷ [] =
      map-append f log.events new ∙ ap (λ xs. xs ++ e ∷ []) t.window in
    let cut =
      sym m
      ∙ ap (λ xs. trim max_events xs log.truncated) inner
      ∙ slide max_events seen e log.truncated t.lost in
    record {
      window = ap (λ (r : List Event × ℕ). r.0) cut;
      lost = ap (λ (r : List Event × ℕ). r.1) cut;
    }

log_after-LogTracks :
    (steps : List LogStep) (log : EventLog) (seen : List Event)
    → LogTracks log seen
    → LogTracks (log_after steps log) (seen ++ appended_in steps)
unfolding log_after appended_in mark_observed
log_after-LogTracks [] log seen t = rw append-nil t
log_after-LogTracks (appended e ∷ steps) log seen t =
    rw (← append_assoc seen (e ∷ []) (appended_in steps)) (
      log_after-LogTracks steps (append_event e log) (seen ++ e ∷ [])
        (LogTracks-append_event e log seen t))
log_after-LogTracks (marked ids ∷ steps) log seen t =
    log_after-LogTracks steps (mark_observed ids log) seen
      record { window = event_of-mark_entries ids log.events ∙ t.window; lost = t.lost }

abbrev pub empty_log : EventLog
empty_log = record { events = []; truncated = 0 }

-- After any sequence of events appended and identifiers marked from the empty log, the history is
-- the newest `max_events` of the events appended, in their order, and every other is counted as
-- truncated: marking takes nothing away.
pub log_after-newest :
    (steps : List LogStep)
    → (history (log_after steps empty_log)
        ≡ drop (length (appended_in steps) - max_events) (appended_in steps))
      × ((log_after steps empty_log).truncated ≡ length (appended_in steps) - max_events)
log_after-newest steps =
    let t = log_after-LogTracks steps empty_log [] record { window = refl; lost = refl } in
    (t.window, t.lost)
