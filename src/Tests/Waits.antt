-- ===== src/Tests/Waits.antt =====
-- libs/ntdll/sync.c: waits for several objects.
use nloader.Base.{◌≡◌, ℕ, refl, some, none, List, [], ◌∷◌}
use nloader.Events.{wait_at, notification, event, file, World, wait_round}
use nloader.Events.Waits.{poll, Round, Time, wait_any, create_event}
use nloader.Events.Limits.{sync_event}

abbrev idle : World
idle = record {
  objects = sync_event 1 ∷ sync_event 0 ∷ [];
  parked = none;
  blocks = [];
  buffers = [];
  ready = [];
}

abbrev round_at : ℕ → Round
round_at n = record { others = λ w. w; now = record { seconds = n; nanoseconds = 0 } }

abbrev rounds : List Round
rounds = round_at 3 ∷ round_at 4 ∷ round_at 5 ∷ []

abbrev four : Time
four = record { seconds = 4; nanoseconds = 0 }

-- The event is seen in the first round.
found_at_once :
    wait_any (none ∷ some 0 ∷ []) poll rounds idle
    ≡ some (some (wait_at 1, record idle { objects = sync_event 0 ∷ sync_event 0 ∷ [] }))
unfolding wait_any wait_round
found_at_once = refl

created :
    (create_event notification 1 (file 0 ∷ [])).1
    ≡ file 0 ∷ event (record { type_of = notification; signaled = 1 }) ∷ []
unfolding create_event
created = refl
