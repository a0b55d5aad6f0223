-- ===== src/Files/Writes.antt =====
-- libs/ntdll/io.c: what is written to a file.
use nloader.Base.{
  ℕ, suc, ◌+◌, ◌≤◌, ◌<◌, ◌≡◌, refl, ap, ◌∙◌, false, Option, none, some, List, ◌++◌, arith, length,
  length-append, take, drop, take_enough, length-taken, length-drop, ltb, written_at,
  take-drop-written_at,
}
use nloader.Events.{Status, success, StatusBlock, set_event, check_event}
use nloader.Files.{
  at, there, file, Host, World, complete, seek, read_at, read_file, write_at, write_file,
}
use nloader.Files.Reads.{IsFileSystem, checked-open, received-whole}

module _ {S : Type 0} (host : Host S) (contents : ℕ → S → List ℕ) (position : ℕ → S → ℕ)
    (law : IsFileSystem host contents position) where
  seek-there :
      (place fd size : ℕ) (s : S)
      → place ≤ size
      → seek host (there (at place)) (record { descriptor = some fd; size = size }) s
        ≡ some (host.lseek (some fd) (at place) s)
  unfolding seek
  seek-there place fd size s h =
      let inside : ltb size place ≡ false = ground (arith, h) in rw inside refl

  -- A write at a place of the file that the host takes whole.
  abbrev pub TakesWhole : ℕ → ℕ → List ℕ → S → S → Type 0
  TakesWhole fd place bytes s s' =
      host.write (some fd) bytes (host.lseek (some fd) (at place) s) ≡ (some (length bytes), s')

  write_file-contents :
      (event : Option ℕ) (place fd size : ℕ) (bytes : List ℕ) (b : StatusBlock) (w : World S)
      (s : S)
      → w.block ≡ some b
      → place ≤ size
      → place ≤ length (contents fd w.host)
      → TakesWhole fd place bytes w.host s
      → (write_file host
            (file (record { descriptor = some fd; size = size }))
            event
            none
            (there (at place))
            bytes
            w
          ≡ complete host event none (length bytes) (record w { host = s }))
        × (contents fd s ≡ written_at place bytes (contents fd w.host))
  unfolding write_file
  write_file-contents event place fd size bytes b w s e inside reached whole =
      let (same, stands) = law.seeks fd place w.host in
      let (_, left) =
        law.writes fd (length bytes) bytes (host.lseek (some fd) (at place) w.host) s whole
          (omega (arith, ap length same, stands, reached)) in
      (
        rw
            (
              write_file,
              checked-open host (λ r. r) (record { descriptor = some fd; size = size }) b w _ e,
              write_at,
              seek-there place fd size w.host inside,
              whole,
            )
            (ap
              (λ (r : Option ℕ × S).
                complete host event none (length bytes) (record w { host = r.1 }))
              whole),
        left
            ∙ ap
                (λ p.
                  written_at p (take (length bytes) bytes)
                    (contents fd (host.lseek (some fd) (at place) w.host)))
                stands
            ∙ ap (λ c. written_at place (take (length bytes) bytes) c) same
            ∙ ap (λ xs. written_at place xs (contents fd w.host))
                (take_enough (length bytes) bytes (omega arith)),
      )

  complete-quiet :
      (n : ℕ) (w : World S)
      → complete host none none n w
        ≡ (success, record w { block = some (record { information = n; status = success }) })
  unfolding complete set_event check_event
  complete-quiet n w = refl

  read_file-given :
      (keyboard : StatusBlock → World S → Option (Status × World S)) (place fd size n : ℕ)
      (b : StatusBlock) (w : World S) (given : List ℕ) (s : S)
      → w.block ≡ some b
      → place ≤ size
      → host.read (some (suc fd)) n (host.lseek (some (suc fd)) (at place) w.host) ≡ (some given, s)
      → length given ≤ length w.buffer
      → read_file host keyboard
          (file (record { descriptor = some (suc fd); size = size }))
          none
          none
          (there (at place))
          n
          w
        ≡ some (
            complete host none none
              (length given)
              (record w { host = s; buffer = given ++ drop (length given) w.buffer }))
  unfolding read_file
  read_file-given keyboard place fd size n b w given s e inside again room =
      rw
        (
          read_file,
          checked-open host (λ r. some r) (record { descriptor = some (suc fd); size = size }) b w _
              e,
          read_at,
          seek-there place (suc fd) size w.host inside,
          again,
        )
        (received-whole host contents position law none none given
            (record w {
              host = (host.read (some (suc fd)) n (host.lseek (some (suc fd)) (at place) w.host)).1;
            })
            room
          ∙ ap
              (λ (r : Option (List ℕ) × S). some (
                complete host none none (length given)
                  (record w { host = r.1; buffer = given ++ drop (length given) w.buffer })))
              again)

  given-written :
      (place fd : ℕ) (bytes given c : List ℕ) (s s' : S)
      → place ≤ length c
      → contents fd s ≡ written_at place bytes c
      → host.read (some fd) (length bytes) (host.lseek (some fd) (at place) s) ≡ (some given, s')
      → length given ≡ length bytes
      → given ≡ bytes
  given-written place fd bytes given c s s' reached left again all =
      let (same, stands) = law.seeks fd place s in
      let (_, are, _) =
        law.reads fd (length bytes) (host.lseek (some fd) (at place) s) given s' again in
      are
      ∙ ap
          (λ k. take k (
            drop (position fd (host.lseek (some fd) (at place) s))
              (contents fd (host.lseek (some fd) (at place) s))))
          all
      ∙ ap (λ p. take (length bytes) (drop p (contents fd (host.lseek (some fd) (at place) s))))
          stands
      ∙ ap (λ l. take (length bytes) (drop place l)) (same ∙ left)
      ∙ take-drop-written_at place bytes c reached

  -- What was written at a place of a file, whose descriptor is not 0, is read back from it: where
  -- the file was at least as long as the place when it was opened, and still is, the host takes all
  -- bytes, and then gives as many, and the guest's buffer has room for them.
  pub read_file-write_file :
      (keyboard : StatusBlock → World S → Option (Status × World S)) (place fd size : ℕ)
      (bytes : List ℕ) (b : StatusBlock) (w : World S) (s s' : S) (given : List ℕ)
      → w.block ≡ some b
      → place ≤ size
      → place ≤ length (contents (suc fd) w.host)
      → TakesWhole (suc fd) place bytes w.host s
      → host.read (some (suc fd)) (length bytes) (host.lseek (some (suc fd)) (at place) s)
        ≡ (some given, s')
      → length given ≡ length bytes
      → length bytes ≤ length w.buffer
      → (w' w'' : World S) × (write_file host
            (file (record { descriptor = some (suc fd); size = size }))
            none
            none
            (there (at place))
            bytes
            w
          ≡ (success, w'))
        × (read_file host keyboard
              (file (record { descriptor = some (suc fd); size = size }))
              none
              none
              (there (at place))
              (length bytes)
              w'
            ≡ some (success, w''))
        × (w''.buffer ≡ bytes ++ drop (length bytes) w.buffer)
        × (w''.block ≡ some (record { information = length bytes; status = success }))
  read_file-write_file keyboard place fd size bytes b w s s' given e inside reached whole again all
        room =
      let (wrote, left) =
        write_file-contents none place (suc fd) size bytes b w s e inside reached whole in
      let same =
        given-written place (suc fd) bytes given (contents (suc fd) w.host) s s' reached left again
          all in
      let done : StatusBlock = record { information = length bytes; status = success } in
      let w' : World S = record w { host = s; block = some done } in
      let w'' : World S = record w {
        host = s';
        block = some done;
        buffer = bytes ++ drop (length bytes) w.buffer;
      } in
      (
        w',
        w'',
        wrote ∙ complete-quiet (length bytes) (record w { host = s }),
        read_file-given keyboard place fd size (length bytes) done w' given s' refl inside again
              (omega (arith, all, room))
            ∙ ap some (
                ap
                  (λ xs.
                    complete host none none (length xs)
                      (record w' { host = s'; buffer = xs ++ drop (length xs) w.buffer }))
                  same
                ∙ complete-quiet (length bytes)
                    (record w' { host = s'; buffer = bytes ++ drop (length bytes) w.buffer })),
        refl,
        refl,
      )

  -- A write at the end of a file, or closer to it than its bytes are long, enlarges the file, if the
  -- host takes all bytes: where the file has the size that it had when it was opened.
  pub write_file-lt :
      (event : Option ℕ) (place fd size : ℕ) (bytes : List ℕ) (b : StatusBlock) (w : World S)
      (s : S)
      → w.block ≡ some b
      → length (contents fd w.host) ≡ size
      → place ≤ size
      → size < place + length bytes
      → TakesWhole fd place bytes w.host s
      → (write_file host
            (file (record { descriptor = some fd; size = size }))
            event
            none
            (there (at place))
            bytes
            w
          ≡ complete host event none (length bytes) (record w { host = s }))
        × (length (contents fd s) ≡ place + length bytes)
  write_file-lt event place fd size bytes b w s e same inside over whole =
      let (wrote, left) =
        write_file-contents event place fd size bytes b w s e inside (omega (arith, same, inside))
          whole in
      let c = contents fd w.host in
      (
        wrote,
        ap length left
            ∙ omega (
              arith,
              length-append (take place c) (bytes ++ drop (place + length bytes) c),
              length-append bytes (drop (place + length bytes) c),
              length-taken place c (omega (arith, same, inside)),
              length-drop (place + length bytes) c,
              same,
              over,
            ),
      )
