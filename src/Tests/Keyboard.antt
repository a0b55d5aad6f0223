-- ===== src/Tests/Keyboard.antt =====
-- libs/ntdll/io.c: a keyboard read that is parked while bytes arrive and pumps run.
use nloader.Base.{refl, some, none, [], ◌∷◌, arith}
use nloader.Events.{success, Request, World, park, announce}
use nloader.Events.Steps.{System, waiting, arrives, parks, takes, announces, Awaits}
use nloader.Events.Reach.{Reach, here, then_step, Reach-Waits}

abbrev quiet : World
quiet = record {
  objects = [];
  parked = none;
  blocks = record { information = 1; status = success } ∷ [];
  buffers = [];
  ready = [];
}

abbrev parking : Request
parking = record { unit_id = 0; buffer = 0; iosb = 0; completion = none }

abbrev at_start : System
at_start = record { world = quiet; in_flight = []; claimed = []; announcing = []; cancelling = [] }

abbrev behind_mutex : System
behind_mutex = record at_start {
  world = record quiet { parked = some parking };
  announcing = parking ∷ [];
}

abbrev with_byte : System
with_byte = record behind_mutex {
  world = record quiet { parked = some parking; ready = b'a' ∷ [] };
}

abbrev byte_read : System
byte_read = record behind_mutex { in_flight = b'a' ∷ [] }

abbrev at_end : System
at_end = record byte_read {
  world = record quiet { parked = some parking; blocks = waiting ∷ [] };
  announcing = [];
}

-- A byte arrives and is read by a pump before the read has announced itself.
at_end-Reach : Reach at_start at_end
unfolding park announce
at_end-Reach =
    then_step
      (then_step
        (then_step
          (then_step here (
            parks at_start parking (record {
              exists_in = omega arith;
              not_parked = λ p e. cc;
              not_claimed = tt;
              not_cancelling = tt;
            })))
          (arrives behind_mutex b'a'))
        (takes with_byte b'a' [] refl))
      (announces byte_read [] [] parking refl)

Reach-Waits_example : Awaits at_end parking
Reach-Waits_example = Reach-Waits at_end-Reach (λ r e. cc) parking refl
