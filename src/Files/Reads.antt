-- ===== src/Files/Reads.antt =====
-- libs/ntdll/io.c: what is read from a file.
use nloader.Base.{
  ℕ, leb, true, ◌≤◌, ◌<◌, ◌≡◌, refl, ap, Option, none, some, List, ◌++◌, arith, length, take, drop,
  written_at,
}
use nloader.Events.{Status, access_violation, invalid_parameter, unsuccessful, StatusBlock}
use nloader.Files.{
  at, before, Offset, here, there, File, file, Host, World, checked, report, complete, received,
}

-- What `lseek`, `read` and `write` document for a regular file: its bytes, and the place in it.
pub record IsFileSystem {S : Type 0} (host : Host S) (contents : ℕ → S → List ℕ)
    (position : ℕ → S → ℕ) : Type 0 where
  pub seeks :
      (fd n : ℕ) (s : S)
      → (contents fd (host.lseek (some fd) (at n) s) ≡ contents fd s)
        × (position fd (host.lseek (some fd) (at n) s) ≡ n)
  -- `EINVAL`
  pub seeks_nowhere :
      (fd n : ℕ) (s : S)
      → (contents fd (host.lseek (some fd) (before n) s) ≡ contents fd s)
        × (position fd (host.lseek (some fd) (before n) s) ≡ position fd s)
  pub reads :
      (fd n : ℕ) (s : S) (bytes : List ℕ) (s' : S)
      → host.read (some fd) n s ≡ (some bytes, s')
      → (length bytes ≤ n)
        × (bytes ≡ take (length bytes) (drop (position fd s) (contents fd s)))
        × (contents fd s' ≡ contents fd s)
  pub writes :
      (fd k : ℕ) (bytes : List ℕ) (s s' : S)
      → host.write (some fd) bytes s ≡ (some k, s')
      → position fd s ≤ length (contents fd s)
      → (k ≤ length bytes)
        × (contents fd s' ≡ written_at (position fd s) (take k bytes) (contents fd s))

module _ {S : Type 0} (host : Host S) where
  pub checked-open :
      {Into : Type 0} (return : Status × World S → Into) (f : File) (b : StatusBlock) (w : World S)
      (next : File → StatusBlock → Into)
      → w.block ≡ some b
      → checked host return (file f) w next ≡ next f b
  unfolding checked
  checked-open {Into} return f b w next e =
      ap
        (λ (o : Option StatusBlock). elim o as (λ x. Into) [
          | none ↦ return (access_violation, w)
          | some b ↦ next f b
        ])
        e

module _ {S : Type 0} (host : Host S) (contents : ℕ → S → List ℕ) (position : ℕ → S → ℕ)
    (law : IsFileSystem host contents position) where
  -- Where a transfer starts.
  abbrev pub start : ℕ → Offset → S → ℕ
  start fd here s = position fd s
  start fd (there (at n)) s = n
  start fd (there (before n)) s = position fd s

  -- The place is not behind the size that the file had when it was opened.
  abbrev pub IsInside : ℕ → Offset → Type 0
  IsInside size here = Unit {0}
  IsInside size (there (at n)) = n ≤ size
  IsInside size (there (before n)) = Unit {0}

  -- The host after the place was sought.
  abbrev pub sought : ℕ → Offset → S → S
  sought fd here s = s
  sought fd (there p) s = host.lseek (some fd) p s

  -- How a read of `n` bytes ends.
  pub data IsRead (event : Option ℕ) (apc : Option (World S → World S)) (offset : Offset) (n fd : ℕ)
      (size : ℕ) (b : StatusBlock) (w : World S) (result : Option (Status × World S)) : Type 0 where
    refused :
        (place : ℕ)
        → offset ≡ there (at place)
        → size < place
        → result ≡ some (report host invalid_parameter b w)
        → IsRead event apc offset n fd size b w result
    failed :
        (s : S)
        → IsInside size offset
        → host.read (some fd) n (sought fd offset w.host) ≡ (none, s)
        → result ≡ some (report host unsuccessful b (record w { host = s }))
        → IsRead event apc offset n fd size b w result
    read :
        (bytes : List ℕ) (s : S)
        → IsInside size offset
        → host.read (some fd) n (sought fd offset w.host) ≡ (some bytes, s)
        → length bytes ≤ n
        → bytes ≡ take (length bytes) (drop (start fd offset w.host) (contents fd w.host))
        → contents fd s ≡ contents fd w.host
        → result
          ≡ some (
              complete host event apc
                (length bytes)
                (record w { host = s; buffer = bytes ++ drop (length bytes) w.buffer }))
        → IsRead event apc offset n fd size b w result

  pub received-whole :
      (event : Option ℕ) (apc : Option (World S → World S)) (bytes : List ℕ) (w : World S)
      → length bytes ≤ length w.buffer
      → received host event apc bytes w
        ≡ some (
            complete host event apc
              (length bytes)
              (record w { buffer = bytes ++ drop (length bytes) w.buffer }))
  unfolding received
  received-whole event apc bytes w h =
      let fits : leb (length bytes) (length w.buffer) ≡ true = ground (arith, h) in rw fits refl
