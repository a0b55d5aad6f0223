-- ===== src/Events.antt =====
-- libs/ntdll/sync.c: events and waits; libs/ntdll/io.c: the parked keyboard read, which the waits
-- complete.
-- A handle is null, `none`, or the index of an object. `World` is what the calls share: the objects,
-- `g_stdin_kbd`, the I/O status blocks and the keyboard records of the guest by index, and the
-- bytes that stdin has ready. `none` as a result is a read behind `AsciiToScan`.
pub mod Order
pub mod Keyboard
pub mod Cancels
pub mod Steps
pub mod Kept
pub mod Reach
pub mod Waits
pub mod Limits
use nloader.Base.{
  ℕ, zero, suc, ◌+◌, ◌-◌, ◌%◌, ◌^◌, Bool, true, false, Option, none, some, List, [], ◌∷◌, ◌==◌,
  if◌then◌else◌, get_elem?, set,
}
use nloader.Scancodes.{ascii_to_scan}

pub data Status : Type 0 where
  success : Status
  access_violation : Status
  invalid_parameter : Status
  invalid_handle : Status
  timeout : Status
  pending : Status
  cancelled : Status
  unsuccessful : Status
  not_implemented : Status
  object_name_not_found : Status
  wait_at : ℕ → Status

-- `EVENT_TYPE`
pub data EventType : Type 0 where
  notification : EventType
  synchronization : EventType

pub record Event : Type 0 where
  pub type_of : EventType
  pub signaled : ℕ

-- What a handle can point to: an object of another type, or one without the cookie, is `other`;
-- the file is a descriptor.
pub data Object : Type 0 where
  event : Event → Object
  file : ℕ → Object
  thread : Object
  other : Object

-- `KEYBOARD_INPUT_DATA`, the fields that are written.
pub record KeyData : Type 0 where
  pub unit : ℕ
  pub make_code : ℕ
  pub key_break : Bool

pub record StatusBlock : Type 0 where
  pub information : ℕ
  pub status : Status

-- `g_stdin_kbd` while it is active.
pub record Request : Type 0 where
  pub unit_id : ℕ
  pub buffer : ℕ
  pub iosb : ℕ
  pub completion : Option ℕ

pub record World : Type 0 where
  pub objects : List Object
  pub parked : Option Request
  pub blocks : List StatusBlock
  pub buffers : List KeyData
  pub ready : List ℕ

-- `CHECK_HANDLE` for an event: the index and the event, or the status that is returned.
unfoldable pub check_event :
    Option ℕ → List Object → Status → (ℕ → Event → Status × List Object) → Status × List Object
check_event none objects bad found = (access_violation, objects)
check_event (some h) objects bad found = elim (get_elem? objects h) [
  | some (event e) ↦ found h e
  | _ ↦ (bad, objects)
]

-- `NtSetEvent`; the waiters that it wakes see the new state under the same mutex.
unfoldable pub set_event : Option ℕ → List Object → Status × List Object
unfolding check_event
set_event handle objects =
    check_event handle objects invalid_parameter
      (λ h e. (success, set objects h (event (record e { signaled = 1 }))))

-- `NtResetEvent`, which `NtClearEvent` calls.
unfoldable pub reset_event : Option ℕ → List Object → Status × List Object
unfolding check_event
reset_event handle objects =
    check_event handle objects invalid_parameter
      (λ h e. (success, set objects h (event (record e { signaled = 0 }))))

-- A signaled event after a wait that it satisfied.
unfoldable pub consume : Event → Event
consume e = elim (e.type_of) [ synchronization ↦ record e { signaled = 0 } | notification ↦ e ]

-- What a call of `pthread_cond_wait` or `pthread_cond_timedwait` returns with: the event as other
-- threads left it, and whether it timed out or failed.
pub data Woken : Type 0 where
  woken : ℕ → Woken
  timed_out : ℕ → Woken
  failed : ℕ → Woken

-- The loop of `NtWaitForSingleObject` for an event; `none` while it still waits.
unfoldable pub wait_event : List Woken → Event → Option (Status × Event)
unfolding consume
wait_event [] e = if e.signaled == 0 then none else some (success, consume e)
wait_event (woken s ∷ rest) e =
    let later = wait_event rest (record e { signaled = s }) in
    if e.signaled == 0 then later else some (success, consume e)
wait_event (timed_out s ∷ rest) e =
    if e.signaled == 0 then some (timeout, record e { signaled = s }) else some (success, consume e)
wait_event (failed s ∷ rest) e =
    if e.signaled == 0
    then some (unsuccessful, record e { signaled = s })
    else some (success, consume e)

-- One object of a pass of `NtWaitForMultipleObjects` for any object: whether the wait ends at it,
-- and the object. A thread is joined, for which the pass waits.
unfoldable pub poll_object : Object → Bool × Object
unfolding consume
poll_object (event e) = if e.signaled == 0 then (false, event e) else (true, event (consume e))
poll_object (file fd) = (true, file fd)
poll_object thread = (true, thread)
poll_object other = (false, other)

-- The loop over `ObjectsArray` from the index `i`: a null handle is passed over, a handle that
-- points nowhere too.
unfoldable pub scan : List (Option ℕ) → ℕ → List Object → Option ℕ × List Object
unfolding poll_object
scan [] i objects = (none, objects)
scan (none ∷ rest) i objects = scan rest (i + 1) objects
scan (some h ∷ rest) i objects = elim (get_elem? objects h) [
  | none ↦ scan rest (i + 1) objects
  | some o ↦
      let (ends, o') = poll_object o in
      let later = scan rest (i + 1) objects in if ends then (some i, set objects h o') else later
]

-- `deliver_kbd_event`
unfoldable pub deliver : Request → ℕ → World → Option World
unfolding set_event
deliver r ch w = elim (ascii_to_scan ch) [
  | none ↦ none
  | some code ↦ some (record w {
    buffers =
        set w.buffers r.buffer (record { unit = r.unit_id; make_code = code; key_break = true });
    blocks = set w.blocks r.iosb (record { information = 12; status = success });
    objects = (set_event r.completion w.objects).1;
  })
]

-- `nl_kbd_pump` up to the byte that it reads, if a read is parked and stdin has one.
unfoldable pub pump_read : World → Option ℕ × World
pump_read w = elim (w.parked) [
  | none ↦ (none, w)
  | some r ↦ elim (w.ready) [ [] ↦ (none, w) | ch ∷ rest ↦ (some ch, record w { ready = rest }) ]
]

-- `active` is cleared under the mutex, by a pump and by a cancellation: the request that was parked.
unfoldable pub claim : World → Option Request × World
claim w = elim (w.parked) [ none ↦ (none, w) | some r ↦ (some r, record w { parked = none }) ]

-- The rest of `nl_kbd_pump`, with nothing in between: the request may have been cancelled since, and
-- the byte is dropped. The request is delivered to behind the mutex.
unfoldable pub pump_complete : ℕ → World → Option World
unfolding claim deliver
pump_complete ch w =
    let (claimed, w') = claim w in elim claimed [ none ↦ some w' | some r ↦ deliver r ch w' ]

-- `nl_kbd_pump` with nothing in between.
unfoldable pub pump : World → Option World
unfolding pump_read pump_complete
pump w =
    let (byte, w') = pump_read w in elim byte [ none ↦ some w' | some ch ↦ pump_complete ch w' ]

-- One round of the loop of `NtWaitForMultipleObjects` for any object: the index of the wait's end.
unfoldable pub wait_round : List (Option ℕ) → World → Option (Option ℕ × World)
unfolding pump scan
wait_round handles w = elim (pump w) [
  | none ↦ none
  | some w' ↦
      let (found, objects) = scan handles 0 w'.objects in
      some (found, record w' { objects = objects })
]

abbrev pub key_data_size : ℕ
key_data_size = 12

-- What a keyboard read does under the mutex, and behind it.
unfoldable pub park : Request → World → World
park r w = record w { parked = some r }

unfoldable pub announce : Request → World → World
announce r w = record w {
  blocks = set w.blocks r.iosb (record { information = 0; status = pending });
}

-- The keyboard part of `NtReadFile`, with nothing in between; the request has the unit that the
-- handle's name says.
unfoldable pub read_keyboard : Request → ℕ → World → Option (Status × World)
unfolding deliver park announce
read_keyboard r size w =
    if size == key_data_size
    then elim (w.ready) [
      | [] ↦ some (pending, announce r (park r w))
      | ch ∷ rest ↦ elim (deliver r ch (record w { ready = rest })) [
        | none ↦ none
        | some w' ↦ some (success, w')
      ]
    ]
    else elim (get_elem? w.blocks r.iosb) [
      | none ↦ some (invalid_parameter, w)
      | some b ↦ some (
        invalid_parameter,
        record w { blocks = set w.blocks r.iosb (record b { status = invalid_parameter }) },
      )
    ]

-- The status block and the event of a request that a cancellation has claimed.
unfoldable pub report_cancelled : Request → World → World
unfolding set_event
report_cancelled r w = record w {
  blocks = set w.blocks r.iosb (record { information = 0; status = cancelled });
  objects = (set_event r.completion w.objects).1;
}

unfoldable pub drop_parked : World → World
unfolding claim report_cancelled
drop_parked w =
    let (claimed, w') = claim w in elim claimed [ none ↦ w' | some r ↦ report_cancelled r w' ]

-- The status of a block of the guest's.
unfoldable pub set_status : Status → ℕ → World → World
set_status s iosb w = elim (get_elem? w.blocks iosb) [
  | none ↦ w
  | some b ↦ record w { blocks = set w.blocks iosb (record b { status = s }) }
]

-- `NtCancelIoFile` on a handle of stdin, with a status block of its own and nothing in between.
unfoldable pub cancel_keyboard : ℕ → World → World
unfolding drop_parked set_status
cancel_keyboard iosb w = set_status cancelled iosb (drop_parked w)
