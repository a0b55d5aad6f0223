-- ===== src/Events/Waits.antt =====
-- libs/ntdll/sync.c: `NtWaitForSingleObject`, `NtWaitForMultipleObjects` and `NtCreateEvent`.
-- What the other threads and stdin do in between is given with each wait, and with each round.
use nloader.Base.{
  ℕ, Bool, true, false, ◌&&◌, ◌||◌, Option, none, some, List, [], ◌∷◌, ◌++◌, ltb, leb, ◌==◌,
  get_elem?, set,
}
use nloader.Events.{
  Status, success, access_violation, invalid_parameter, not_implemented, timeout, wait_at,
  EventType, Object, event, file, thread, other, World, Woken, wait_event, wait_round,
}

-- `NtCreateEvent` with a pointer to a handle: the new object is behind the others.
unfoldable pub create_event : EventType → ℕ → List Object → Status × List Object
create_event t initial objects =
    (success, objects ++ (event (record { type_of = t; signaled = initial }) ∷ []))

unfoldable pub wait_object : ℕ → List Woken → Object → List Object → Option (Status × List Object)
unfolding wait_event
wait_object h wakes (event e) objects = elim (wait_event wakes e) [
  | none ↦ none
  | some (s, e') ↦ some (s, set objects h (event e'))
]
wait_object h wakes (file fd) objects = some (success, objects)
wait_object h wakes thread objects = some (success, objects)
wait_object h wakes other objects = some (not_implemented, objects)

-- `NtWaitForSingleObject`; `none` while it still waits. A thread has ended when it is joined.
unfoldable pub wait_single : Option ℕ → List Woken → List Object → Option (Status × List Object)
unfolding wait_object
wait_single none wakes objects = some (access_violation, objects)
wait_single (some h) wakes objects = elim (get_elem? objects h) [
  | none ↦ some (not_implemented, objects)
  | some o ↦ wait_object h wakes o objects
]

-- What happens before the wait for a handle looks at it, and while it waits.
pub record Turn : Type 0 where
  pub others : List Object → List Object
  pub wakes : List Woken

abbrev pub is_success : Status → Bool
is_success success = true
is_success _ = false

-- The wait for all objects, one after the other; it waits where there are no more turns.
unfoldable pub wait_all : List (Option ℕ) → List Turn → List Object → Option (Status × List Object)
unfolding wait_single
wait_all [] turns objects = some (success, objects)
wait_all (h ∷ handles) [] objects = none
wait_all (h ∷ handles) (t ∷ turns) objects = elim (wait_single h t.wakes (t.others objects)) [
  | none ↦ none
  | some (s, objects') ↦ elim (is_success s) [
    | true ↦ wait_all handles turns objects'
    | false ↦ some (s, objects')
  ]
]

-- A time of the clock, seconds and nanoseconds.
pub record Time : Type 0 where
  pub seconds : ℕ
  pub nanoseconds : ℕ

-- The time-out of a wait: none, a poll, or a deadline.
pub data Limit : Type 0 where
  forever : Limit
  poll : Limit
  deadline : Time → Limit

-- What happens before a round, and what the clock says at its end.
pub record Round : Type 0 where
  pub others : World → World
  pub now : Time

unfoldable pub is_late : Limit → Round → Bool
is_late forever r = false
is_late poll r = true
is_late (deadline d) r =
    ltb d.seconds r.now.seconds
    || (r.now.seconds == d.seconds && leb d.nanoseconds r.now.nanoseconds)

-- The loop of the wait for any object: `none` is a read behind `AsciiToScan`, `some none` a wait that
-- goes on behind the rounds.
unfoldable pub wait_any :
    List (Option ℕ) → Limit → List Round → World → Option (Option (Status × World))
unfolding is_late
wait_any handles limit [] w = some none
wait_any handles limit (r ∷ rounds) w = elim (wait_round handles (r.others w)) [
  | none ↦ none
  | some (found, w') ↦ elim found [
    | some i ↦ some (some (wait_at i, w'))
    | none ↦ elim (is_late limit r) [
      | true ↦ some (some (timeout, w'))
      | false ↦ wait_any handles limit rounds w'
    ]
  ]
]

-- The guards of `NtWaitForMultipleObjects`: `handles` is `none` if the array is null or has no
-- objects.
unfoldable pub wait_multiple_any :
    Option (List (Option ℕ)) → Limit → List Round → World → Option (Option (Status × World))
unfolding wait_any
wait_multiple_any none limit rounds w = some (some (invalid_parameter, w))
wait_multiple_any (some handles) limit rounds w = wait_any handles limit rounds w

unfoldable pub wait_multiple_all :
    Option (List (Option ℕ)) → List Turn → List Object → Option (Status × List Object)
unfolding wait_all
wait_multiple_all none turns objects = some (invalid_parameter, objects)
wait_multiple_all (some handles) turns objects = wait_all handles turns objects
