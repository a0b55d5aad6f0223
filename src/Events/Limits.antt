-- ===== src/Events/Limits.antt =====
-- libs/ntdll/sync.c: how the waits for several objects end.
use nloader.Base.{
  arith, ◌<◌, ◌≤◌, sym, get_elem?-set_self, get_elem?-set_ne, ℕ, suc, ◌≡◌, ◌≢◌, refl, ◌∙◌, Option,
  none, some, List, [], ◌∷◌, ◌++◌, get_elem?, set, All,
}
use nloader.Events.{
  Status, success, timeout, wait_at, EventType, synchronization, Event, Object, event, World, Woken,
  woken, timed_out, failed, wait_event, consume,
}
use nloader.Events.Order.{get_elem?-bound}
use nloader.Events.Waits.{
  wait_object, wait_single, Turn, wait_all, Limit, deadline, poll, forever, Time, Round,
}

-- The clock of a round has reached the deadline, or the wait is a poll.
pub data IsLate : Limit → Round → Type 0 where
  second_over : (end : Time) (r : Round) → end.seconds < r.now.seconds → IsLate (deadline end) r
  same_second :
      (end : Time) (r : Round)
      → r.now.seconds ≡ end.seconds
      → end.nanoseconds ≤ r.now.nanoseconds
      → IsLate (deadline end) r
  polled : (r : Round) → IsLate poll r

-- The clock of a round has not reached the deadline, or there is none.
pub data IsEarly : Limit → Round → Type 0 where
  second_left : (end : Time) (r : Round) → r.now.seconds < end.seconds → IsEarly (deadline end) r
  nanoseconds_left :
      (end : Time) (r : Round)
      → r.now.seconds ≡ end.seconds
      → r.now.nanoseconds < end.nanoseconds
      → IsEarly (deadline end) r
  unlimited : (r : Round) → IsEarly forever r

-- How a wait for any object ends, by the rounds that it makes.
pub data AnyEnds (limit : Limit) (rounds : List Round) (result : Option (Option (Status × World)))
    : Type 0 where
  waiting : All (IsEarly limit) rounds → result ≡ some none → AnyEnds limit rounds result
  expired :
      (before : List Round) (r : Round) (after : List Round) (w : World)
      → rounds ≡ before ++ (r ∷ after)
      → All (IsEarly limit) before
      → IsLate limit r
      → result ≡ some (some (timeout, w))
      → AnyEnds limit rounds result
  found :
      (before : List Round) (r : Round) (after : List Round) (i : ℕ) (w : World)
      → rounds ≡ before ++ (r ∷ after)
      → All (IsEarly limit) before
      → result ≡ some (some (wait_at i, w))
      → AnyEnds limit rounds result
  overrun :
      (before : List Round) (r : Round) (after : List Round)
      → rounds ≡ before ++ (r ∷ after)
      → All (IsEarly limit) before
      → result ≡ none
      → AnyEnds limit rounds result

-- A quiet turn: nothing happens before it.
abbrev pub quiet : List Woken → Turn
quiet wakes = record { others = λ o. o; wakes = wakes }

abbrev pub sync_event : ℕ → Object
sync_event n = event (record { type_of = synchronization; signaled = n })

wait_event-now :
    (wakes : List Woken) (t : EventType) (n : ℕ)
    → wait_event wakes (record { type_of = t; signaled = suc n })
      ≡ some (success, consume (record { type_of = t; signaled = suc n }))
unfolding wait_event
wait_event-now [] t n = ground arith
wait_event-now (woken s ∷ rest) t n = ground arith
wait_event-now (timed_out s ∷ rest) t n = ground arith
wait_event-now (failed s ∷ rest) t n = ground arith

wait_single-event :
    (h : ℕ) (wakes : List Woken) (e e' : Event) (s : Status) (objects : List Object)
    → get_elem? objects h ≡ some (event e)
    → wait_event wakes e ≡ some (s, e')
    → wait_single (some h) wakes objects ≡ some (s, set objects h (event e'))
unfolding wait_single
wait_single-event h wakes e e' s objects q r = rw (wait_single, q, wait_object, r) refl

wait_event-expired :
    (later : List Woken) (t : EventType)
    → wait_event (timed_out 0 ∷ later) (record { type_of = t; signaled = 0 })
      ≡ some (timeout, record { type_of = t; signaled = 0 })
unfolding wait_event
wait_event-expired later t = refl

-- A wait for all objects is none for all at once: a synchronization event that is signaled is
-- consumed by its own wait, and stays so if the wait for a later event, which nobody signals in
-- time, is given up with a time-out.
pub wait_all-timeout :
    (h g n : ℕ) (t : EventType) (rest : List (Option ℕ)) (objects : List Object)
    (wakes later : List Woken) (turns : List Turn)
    → h ≢ g
    → get_elem? objects h ≡ some (sync_event (suc n))
    → get_elem? objects g ≡ some (event (record { type_of = t; signaled = 0 }))
    → (objects' : List Object) × (wait_all
          (some h ∷ some g ∷ rest)
          (quiet wakes ∷ quiet (timed_out 0 ∷ later) ∷ turns)
          objects
        ≡ some (timeout, objects'))
      × (get_elem? objects' h ≡ some (sync_event 0))
unfolding wait_all consume
wait_all-timeout h g n t rest objects wakes later turns ne e f =
    let e0 : Event = record { type_of = synchronization; signaled = 0 } in
    let first =
      wait_single-event h wakes (record { type_of = synchronization; signaled = suc n }) e0 success
        objects e (wait_event-now wakes synchronization n) in
    let idle : Event = record { type_of = t; signaled = 0 } in
    let second =
      wait_single-event g (timed_out 0 ∷ later) idle idle timeout (set objects h (event e0))
        (get_elem?-set_ne objects (event e0) ne ∙ f) (wait_event-expired later t) in
    (
      set (set objects h (event e0)) g (event idle),
      rw (wait_all, first, second) refl,
      get_elem?-set_ne (set objects h (event e0)) (event idle) (λ q. ne (sym q))
          ∙ get_elem?-set_self objects h (event e0)
              (get_elem?-bound objects h (sync_event (suc n)) e),
    )
