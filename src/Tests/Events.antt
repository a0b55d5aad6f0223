-- ===== src/Tests/Events.antt =====
-- libs/ntdll/sync.c, libs/ntdll/io.c and libs/ntdll/scancodes.c on a small world.
use nloader.Base.{◌≡◌, refl, true, false, some, none, List, [], ◌∷◌, arith, get_elem?}
use nloader.Scancodes.{ascii_to_scan}
use nloader.Events.{
  success, pending, synchronization, Event, Object, event, file, Request, World, KeyData,
  StatusBlock, set_event, consume, scan, read_keyboard, pump, pump_complete, cancel_keyboard,
  key_data_size, wait_round, pump_read, claim, park, announce, deliver, check_event, poll_object,
}
use nloader.Events.Keyboard.{Fits, IsCompleted, read_keyboard-IsCompleted}
use nloader.Events.Cancels.{cancel_keyboard_early, cancel_keyboard_late, announce_lost}

abbrev key_event : Event
key_event = record { type_of = synchronization; signaled = 0 }

abbrev objects : List Object
objects = file 0 ∷ event key_event ∷ []

abbrev no_key : KeyData
no_key = record { unit = 0; make_code = 0; key_break = false }

abbrev no_block : StatusBlock
no_block = record { information = 0; status = pending }

abbrev idle : World
idle = record {
  objects = objects;
  parked = none;
  blocks = no_block ∷ no_block ∷ [];
  buffers = no_key ∷ no_key ∷ [];
  ready = [];
}

abbrev first_read : Request
first_read = record { unit_id = 0; buffer = 0; iosb = 0; completion = some 1 }

abbrev second_read : Request
second_read = record { unit_id = 1; buffer = 1; iosb = 1; completion = none }

first_read-Fits : Fits first_read 1 key_event idle
first_read-Fits = record {
  buffer_in = omega arith;
  block_in = omega arith;
  completes = refl;
  event_in = refl;
}

scan_of_q : ascii_to_scan b'q' ≡ some 0x10
unfolding ascii_to_scan
scan_of_q = refl

read_keyboard-IsCompleted_example :
    (w' : World) × (read_keyboard first_read key_data_size idle ≡ some (pending, w'))
    × (w'.parked ≡ some first_read)
    × (get_elem? w'.blocks 0 ≡ some (record { information = 0; status = pending }))
    × IsCompleted first_read b'q' 1 key_event [] (pump (record w' { ready = b'q' ∷ [] }))
read_keyboard-IsCompleted_example =
    read_keyboard-IsCompleted first_read b'q' 0x10 1 key_event [] idle first_read-Fits refl
      scan_of_q

abbrev reading : World
reading = record idle { parked = some first_read }

reading-Fits : Fits first_read 1 key_event reading
reading-Fits = record {
  buffer_in = omega arith;
  block_in = omega arith;
  completes = refl;
  event_in = refl;
}

cancel_keyboard_early_example :
    (pump (cancel_keyboard 1 (record reading { ready = b'q' ∷ [] }))
      ≡ some (cancel_keyboard 1 (record reading { ready = b'q' ∷ [] })))
    × (pump_complete b'q' (cancel_keyboard 1 (record reading { ready = b'q' ∷ [] }))
        ≡ some (cancel_keyboard 1 (record reading { ready = b'q' ∷ [] })))
cancel_keyboard_early_example = cancel_keyboard_early 1 b'q' (record reading { ready = b'q' ∷ [] })

cancel_keyboard_late_example :
    ((claim reading).0 ≡ some first_read)
    × (get_elem? (cancel_keyboard 1 (claim reading).1).blocks 0 ≡ some no_block)
    × IsCompleted first_read b'q' 1 key_event []
        (deliver first_read b'q' (cancel_keyboard 1 (claim reading).1))
cancel_keyboard_late_example =
    cancel_keyboard_late first_read b'q' 0x10 1 1 key_event reading reading-Fits refl
      (λ e. ground (arith, e)) scan_of_q

announce_lost_example :
    (w' : World) × (deliver first_read b'q' (claim (park first_read idle)).1 ≡ some w')
    × (get_elem? w'.blocks 0 ≡ some (record { information = 12; status = success }))
    × (get_elem? (announce first_read w').blocks 0
        ≡ some (record { information = 0; status = pending }))
    × (pump (announce first_read w') ≡ some (announce first_read w'))
announce_lost_example =
    announce_lost first_read b'q' 0x10 1 key_event idle first_read-Fits scan_of_q

-- The wait on the event of a parked read ends in the round in which a key is ready.
wait_round_wakes :
    wait_round (some 1 ∷ []) (record idle { parked = some first_read; ready = b'q' ∷ [] })
    ≡ some (
      some 0,
      record idle {
        blocks = record { information = 12; status = success } ∷ no_block ∷ [];
        buffers = record { unit = 0; make_code = 0x10; key_break = true } ∷ no_key ∷ [];
      },
    )
unfolding wait_round pump pump_read claim pump_complete deliver set_event check_event scan
    poll_object consume ascii_to_scan
wait_round_wakes = refl
