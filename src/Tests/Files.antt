-- ===== src/Tests/Files.antt =====
-- libs/ntdll/io.c with a host of one file in memory.
use nloader.Base.{
  ℕ, zero, suc, ◌+◌, ◌≤◌, ◌≡◌, ◌⊎◌, ◌≢◌, refl, ap, sym, ◌∙◌, true, false, Option, none, some, List,
  [], ◌∷◌, ◌++◌, arith, length, length-take, take, drop, take_enough, written_at, replicate,
}
use mathlib.Core.Option.{some-injective}
use nloader.Registry.{codes, same_ignoring_case}
use nloader.Events.{Status, success, invalid_parameter, StatusBlock}
use nloader.Files.{Position, at, before, there, File, file, Host, World, read_file, write_file}
use nloader.Files.Open.{Mounted, not_mounted, Opening, opens, refused, unix_open, has_ignoring_case}
use nloader.Files.Reads.{IsFileSystem}
use nloader.Files.Writes.{read_file-write_file}
use nloader.Files.Directory
use nloader.Files.Directory.{
  directory, no_more_entries, query_directory_object, query_directory_object-Listed,
}
use nloader.Files.Mounts.{Listed, volume_path, unix_open-Listed, IsPlain}

-- The bytes of the file, and where it stands.
record Disk : Type 0 where
  bytes : List ℕ
  place : ℕ

abbrev moved : Position → Disk → Disk
moved (at n) s = record s { place = n }
moved (before n) s = s

abbrev host : Host Disk
host = record {
  lseek = λ fd p s. moved p s;
  read = λ fd n s. (
    some (take n (drop s.place s.bytes)),
    record s { place = s.place + length (take n (drop s.place s.bytes)) },
  );
  write = λ fd xs s. (
    some (length xs),
    record { bytes = written_at s.place xs s.bytes; place = s.place + length xs },
  );
  fsync = λ fd s. (true, s);
  close = λ fd s. s;
}

take-length-take : (n : ℕ) (xs : List ℕ) → take (length (take n xs)) xs ≡ take n xs
take-length-take zero xs = refl
take-length-take (suc n) [] = refl
take-length-take (suc n) (x ∷ xs) = ap (λ l. x ∷ l) (take-length-take n xs)

length-take_bound : (n : ℕ) (xs : List ℕ) → length (take n xs) ≤ n
length-take_bound n xs = omega (arith, length-take n xs)

abbrev contents : ℕ → Disk → List ℕ
contents fd s = s.bytes

abbrev position : ℕ → Disk → ℕ
position fd s = s.place

host-IsFileSystem : IsFileSystem host contents position
host-IsFileSystem = record {
  seeks = λ fd n s. (refl, refl);
  seeks_nowhere = λ fd n s. (refl, refl);
  reads = λ fd n s bytes s' e.
      let l = drop s.place s.bytes in
      let same : take n l ≡ bytes =
        some-injective _ _ (ap (λ (r : Option (List ℕ) × Disk). r.0) e) in
      (
        omega (arith, ap length same, length-take_bound n l),
        sym same ∙ sym (take-length-take n l) ∙ ap (λ (xs : List ℕ). take (length xs) l) same,
        sym (ap (λ (r : Option (List ℕ) × Disk). r.1.bytes) e),
      );
  writes = λ fd k bytes s s' e h.
      let same : length bytes ≡ k = some-injective _ _ (ap (λ (r : Option ℕ × Disk). r.0) e) in
      (
        omega (arith, same),
        sym (ap (λ (r : Option ℕ × Disk). r.1.bytes) e)
            ∙ ap (λ xs. written_at s.place xs s.bytes)
                (sym (take_enough (length bytes) bytes (omega arith))
                  ∙ ap (λ n. take n bytes) same),
      );
}

abbrev block : StatusBlock
block = record { information = 0; status = success }

abbrev world : World Disk
world = record {
  host = record { bytes = 1 ∷ 2 ∷ 3 ∷ 4 ∷ []; place = 0 };
  objects = [];
  block = some block;
  buffer = 0 ∷ 0 ∷ 0 ∷ [];
}

abbrev no_keyboard : StatusBlock → World Disk → Option (Status × World Disk)
no_keyboard b w = none

abbrev image : File
image = record { descriptor = some 5; size = 4 }

read_file-write_file_example :
    (w' w'' : World Disk) × (write_file host
        (file image)
        none
        none
        (there (at 1))
        (8 ∷ 9 ∷ [])
        world
      ≡ (success, w'))
    × (read_file host no_keyboard (file image) none none (there (at 1)) 2 w' ≡ some (success, w''))
    × (w''.buffer ≡ (8 ∷ 9 ∷ []) ++ (0 ∷ []))
    × (w''.block ≡ some (record { information = 2; status = success }))
read_file-write_file_example =
    read_file-write_file host contents position host-IsFileSystem no_keyboard 1 4 4 (8 ∷ 9 ∷ [])
      block world (record { bytes = 1 ∷ 8 ∷ 9 ∷ 4 ∷ []; place = 3 })
      (record { bytes = 1 ∷ 8 ∷ 9 ∷ 4 ∷ []; place = 3 }) (8 ∷ 9 ∷ []) refl (omega arith)
      (omega arith) refl refl refl (omega arith)

-- A read of descriptor 0 that asks for other than a record.
not_a_record :
    read_file host no_keyboard
      (file (record { descriptor = some 0; size = 0 }))
      none
      none
      (there (at 1))
      4
      world
    ≡ some (
      invalid_parameter,
      record world { block = some (record { information = 0; status = invalid_parameter }) },
    )
unfolding read_file
not_a_record = refl

-- A buffer of three bytes for four that are read.
short_buffer : read_file host no_keyboard (file image) none none (there (at 0)) 4 world ≡ none
unfolding read_file
short_buffer = refl

unix_open-Listed_example :
    (result : Mounted) × Listed (codes "/dev/sdb1") (some (codes "/dev/sda1 / ext4" ∷ [])) result
    × ((result ≡ not_mounted)
          × (unix_open
                (volume_path (codes "/dev/sdb1") b'}')
                2
                (some (codes "/dev/sda1 / ext4" ∷ []))
              ≡ opens (codes "/dev/sdb1"))
        ⊎ (result ≢ not_mounted)
          × (unix_open
                (volume_path (codes "/dev/sdb1") b'}')
                2
                (some (codes "/dev/sda1 / ext4" ∷ []))
              ≡ refused))
unfolding has_ignoring_case
unix_open-Listed_example =
    unix_open-Listed (codes "/dev/sdb1") b'}' 2 (some (codes "/dev/sda1 / ext4" ∷ []))
      (λ e. omega (arith, e)) refl

notes-IsPlain : IsPlain (codes "notes")
unfolding has_ignoring_case same_ignoring_case
notes-IsPlain = record {
  no_log = refl;
  no_volume = refl;
  no_disk = refl;
  no_image = refl;
  no_keyboard = refl;
  no_mailslot = refl;
}

-- The name of a volume and nothing else.
bare_volume : unix_open (codes "Volume{") 0 none ≡ Opening.fault
unfolding unix_open
bare_volume = refl

query_directory_object-Listed_example :
    Directory.Listed 4096
      (replicate 64 0)
      (query_directory_object directory true false 4096 (replicate 64 0))
    × (query_directory_object directory true true 4096 (replicate 64 0)
        ≡ some (record {
          status = no_more_entries;
          given = false;
          buffer = replicate 64 0;
          return_length = none;
        }))
query_directory_object-Listed_example = query_directory_object-Listed 4096 (replicate 64 0)
