-- ===== src/Events/Order.antt =====
-- libs/ntdll/sync.c: what the waits return, and what they leave.
use nloader.Base.{
  ℕ, zero, suc, ◌+◌, ◌<◌, ◌≡◌, refl, ap, ◌∙◌, Bool, true, false, Option, none, some, List, [], ◌∷◌,
  ◌++◌, arith, length, get_elem?, set, get_elem?-set_self, Option-cases, inl, inr, ◌⊎◌, All,
  Bool-cases,
}
use nloader.Events.{
  Status, success, timeout, unsuccessful, EventType, notification, synchronization, Event, Object,
  event, Woken, woken, timed_out, failed, set_event, reset_event, check_event, consume, wait_event,
  poll_object, scan,
}

-- The ways in which a wait for the event can end.
pub data Waited (e : Event) (result : Option (Status × Event)) : Type 0 where
  waiting : result ≡ none → Waited e result
  acquired :
      (s : ℕ)
      → 0 < s
      → result ≡ some (success, consume (record e { signaled = s }))
      → Waited e result
  given_up :
      (status : Status) (s : ℕ)
      → (status ≡ timeout) ⊎ (status ≡ unsuccessful)
      → result ≡ some (status, record e { signaled = s })
      → Waited e result

-- Whatever the wake-ups, a wait for an event ends in one of three ways: it still waits; it returns
-- success for an event that was signaled when it looked, and has consumed it; or it returns a
-- timeout or a failure and leaves the event as it is.
pub wait_event-Waited :
    (wakes : List Woken) (t : EventType) (n : ℕ)
    → Waited
        (record { type_of = t; signaled = n })
        (wait_event wakes (record { type_of = t; signaled = n }))
unfolding wait_event
wait_event-Waited [] t zero = waiting refl
wait_event-Waited (woken s ∷ rest) t zero = elim (wait_event-Waited rest t s) [
  | waiting e ↦ waiting e
  | acquired n p e ↦ acquired n p e
  | given_up st n p e ↦ given_up st n p e
]
wait_event-Waited (timed_out s ∷ rest) t zero = given_up timeout s (inl refl) refl
wait_event-Waited (failed s ∷ rest) t zero = given_up unsuccessful s (inr refl) refl
wait_event-Waited [] t (suc n) = acquired (suc n) (omega arith) (ground arith)
wait_event-Waited (woken s ∷ rest) t (suc n) = acquired (suc n) (omega arith) (ground arith)
wait_event-Waited (timed_out s ∷ rest) t (suc n) = acquired (suc n) (omega arith) (ground arith)
wait_event-Waited (failed s ∷ rest) t (suc n) = acquired (suc n) (omega arith) (ground arith)

-- `set_event` on the handle of an event of the world.
pub set_event-signaled :
    (h : ℕ) (e : Event) (objects : List Object)
    → get_elem? objects h ≡ some (event e)
    → set_event (some h) objects ≡ (success, set objects h (event (record e { signaled = 1 })))
unfolding set_event check_event
set_event-signaled h e objects q = rw (set_event, check_event, q) refl

pub get_elem?-bound :
    {A : Type 0} (xs : List A) (i : ℕ) (x : A) → get_elem? xs i ≡ some x → i < length xs
get_elem?-bound [] i x e = ground arith
get_elem?-bound (y ∷ xs) zero x e = omega arith
get_elem?-bound (y ∷ xs) (suc i) x e = let later = get_elem?-bound xs i x e in omega arith

reset_event-signaled :
    (h : ℕ) (e : Event) (objects : List Object)
    → get_elem? objects h ≡ some (event e)
    → reset_event (some h) objects ≡ (success, set objects h (event (record e { signaled = 0 })))
unfolding reset_event check_event
reset_event-signaled h e objects q = rw (reset_event, check_event, q) refl

wait_event-signaled :
    (wakes : List Woken) (t : EventType)
    → wait_event wakes (record { type_of = t; signaled = 1 })
      ≡ some (success, consume (record { type_of = t; signaled = 1 }))
unfolding wait_event
wait_event-signaled [] t = refl
wait_event-signaled (woken s ∷ rest) t = refl
wait_event-signaled (timed_out s ∷ rest) t = refl
wait_event-signaled (failed s ∷ rest) t = refl

wait_event-reset : (t : EventType) → wait_event [] (record { type_of = t; signaled = 0 }) ≡ none
unfolding wait_event
wait_event-reset t = refl

-- A wait behind `NtSetEvent` succeeds at once, whatever wake-ups would follow. A synchronization
-- event lets one wait through: the next one blocks; a notification event stays signaled. Behind
-- `NtResetEvent` a wait of either type blocks.
pub set_event-wait_event :
    (h : ℕ) (t : EventType) (n : ℕ) (objects : List Object) (wakes : List Woken)
    → get_elem? objects h ≡ some (event (record { type_of = t; signaled = n }))
    → (get_elem? (set_event (some h) objects).1 h
        ≡ some (event (record { type_of = t; signaled = 1 })))
      × (wait_event wakes (record { type_of = t; signaled = 1 })
          ≡ some (success, consume (record { type_of = t; signaled = 1 })))
      × ((t ≡ synchronization)
            × (wait_event [] (consume (record { type_of = t; signaled = 1 })) ≡ none)
          ⊎ (t ≡ notification)
            × (consume (record { type_of = t; signaled = 1 })
                ≡ record { type_of = t; signaled = 1 }))
      × (get_elem? (reset_event (some h) objects).1 h
          ≡ some (event (record { type_of = t; signaled = 0 })))
      × (wait_event [] (record { type_of = t; signaled = 0 }) ≡ none)
unfolding consume
set_event-wait_event h t n objects wakes q =
    let e : Event = record { type_of = t; signaled = n } in
    let bound = get_elem?-bound objects h (event e) q in
    (
      ap (λ r. get_elem? r.1 h) (set_event-signaled h e objects q)
          ∙ get_elem?-set_self objects h (event (record { type_of = t; signaled = 1 })) bound,
      wait_event-signaled wakes t,
      lasting t,
      ap (λ r. get_elem? r.1 h) (reset_event-signaled h e objects q)
          ∙ get_elem?-set_self objects h (event (record { type_of = t; signaled = 0 })) bound,
      wait_event-reset t,
    )
  where
    lasting :
        (t : EventType)
        → (t ≡ synchronization)
            × (wait_event [] (consume (record { type_of = t; signaled = 1 })) ≡ none)
          ⊎ (t ≡ notification)
            × (consume (record { type_of = t; signaled = 1 })
                ≡ record { type_of = t; signaled = 1 })
    lasting synchronization = inl (refl, wait_event-reset synchronization)
    lasting notification = inr (refl, refl)

-- Whether a handle ends a wait for any object.
abbrev pub is_ready : List Object → Option ℕ → Bool
is_ready objects none = false
is_ready objects (some h) = elim (get_elem? objects h) [ none ↦ false | some o ↦ (poll_object o).0 ]

-- A pass over handles whose indices start at `i`: the first that is ready, or none.
pub data First (handles : List (Option ℕ)) (i : ℕ) (objects : List Object)
    (result : Option ℕ × List Object) : Type 0 where
  none_ready :
      All (λ h. is_ready objects h ≡ false) handles
      → result ≡ (none, objects)
      → First handles i objects result
  ready_at :
      (before : List (Option ℕ)) (h : ℕ) (after : List (Option ℕ)) (o : Object)
      → handles ≡ before ++ some h ∷ after
      → All (λ g. is_ready objects g ≡ false) before
      → get_elem? objects h ≡ some o
      → (poll_object o).0 ≡ true
      → result ≡ (some (i + length before), set objects h (poll_object o).1)
      → First handles i objects result

First-later :
    (g : Option ℕ) (handles : List (Option ℕ)) (i : ℕ) (objects : List Object)
    (result : Option ℕ × List Object)
    → is_ready objects g ≡ false
    → First handles (i + 1) objects result
    → First (g ∷ handles) i objects result
First-later g handles i objects result r (none_ready a e) = none_ready (r, a) e
First-later g handles i objects result r (ready_at before h after o w a q p e) =
    ready_at (g ∷ before) h after o (ap (λ hs. g ∷ hs) w) (r, a) q p
      (e ∙ ap (λ k. (some k, set objects h (poll_object o).1)) (omega arith))

-- A pass of the wait for any object ends at the first handle that is ready and changes at most that
-- object; if none is ready it changes nothing.
pub scan-First :
    (handles : List (Option ℕ)) (i : ℕ) (objects : List Object)
    → First handles i objects (scan handles i objects)
unfolding scan
scan-First [] i objects = none_ready tt refl
scan-First (none ∷ rest) i objects =
    First-later none rest i objects (scan rest (i + 1) objects) refl
      (scan-First rest (i + 1) objects)
scan-First (some h ∷ rest) i objects = elim (Option-cases (get_elem? objects h)) [
  | inl e ↦
      rw (scan, e)
        (First-later (some h) rest i objects (scan rest (i + 1) objects) (rw (is_ready, e) refl)
          (scan-First rest (i + 1) objects))
  | inr (o, e) ↦ elim (Bool-cases (poll_object o).0) [
    | inl p ↦
        ready_at [] h rest o refl tt e p
          (rw (scan, e, p) (ap (λ k. (some k, set objects h (poll_object o).1)) (omega arith)))
    | inr p ↦
        rw (scan, e, p)
          (First-later (some h) rest i objects (scan rest (i + 1) objects)
            (rw (is_ready, e, p) refl) (scan-First rest (i + 1) objects))
  ]
]
