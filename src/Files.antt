-- ===== src/Files.antt =====
-- libs/ntdll/io.c: files and their handles.
-- The calls of the host are parameters, with the state that they share; a descriptor that is -1 is
-- `none`. The part of `NtReadFile` that reads the keyboard is in Events, and a parameter here. A read
-- that is `none` writes behind the guest's buffer.
pub mod Open
pub mod Reads
pub mod Writes
pub mod Directory
pub mod Mounts
use nloader.Base.{
  ℕ, zero, suc, leb, ◌==◌, Bool, true, false, Option, none, some, List, ◌++◌, ltb, if◌then◌else◌,
  length, drop,
}
use nloader.Events.{
  Status, success, access_violation, invalid_parameter, invalid_handle, unsuccessful, StatusBlock,
  Object, set_event, key_data_size,
}

-- The offset of `lseek`; `before n` is -(n + 1).
pub data Position : Type 0 where
  at : ℕ → Position
  before : ℕ → Position

-- `ByteOffset`: null or `FILE_USE_FILE_POINTER_POSITION`, or a place.
pub data Offset : Type 0 where
  here : Offset
  there : Position → Offset

-- A file that is open, its descriptor and the size that it had then.
pub record File : Type 0 where
  pub descriptor : Option ℕ
  pub size : ℕ

pub data Handle : Type 0 where
  null : Handle
  not_a_file : Handle
  file : File → Handle

-- `lseek`, whose result is not looked at, `read` with the bytes, `write` with their number; `none` is
-- an error.
pub record Host (S : Type 0) : Type 0 where
  pub lseek : Option ℕ → Position → S → S
  pub read : Option ℕ → ℕ → S → Option (List ℕ) × S
  pub write : Option ℕ → List ℕ → S → Option ℕ × S
  pub fsync : Option ℕ → S → Bool × S
  pub close : ℕ → S → S

-- What a call shares: the host, the events, the status block and the buffer of the guest.
pub record World (S : Type 0) : Type 0 where
  pub host : S
  pub objects : List Object
  pub block : Option StatusBlock
  pub buffer : List ℕ

module _ {S : Type 0} (host : Host S) where
  -- `CHECK_HANDLE` and `CHECK_POINTER`.
  unfoldable pub checked :
      {Into : Type 0}
      → (Status × World S → Into)
      → Handle
      → World S
      → (File → StatusBlock → Into)
      → Into
  checked return null w next = return (access_violation, w)
  checked return not_a_file w next = return (invalid_parameter, w)
  checked return (file f) w next = elim (w.block) [
    | none ↦ return (access_violation, w)
    | some b ↦ next f b
  ]

  -- A status that the block gets too.
  unfoldable pub report : Status → StatusBlock → World S → Status × World S
  report s b w = (s, record w { block = some (record b { status = s }) })

  -- The end of a transfer of `n` bytes: the block, the event, and the routine of the guest.
  unfoldable pub complete : Option ℕ → Option (World S → World S) → ℕ → World S → Status × World S
  unfolding set_event
  complete event apc n w =
      let w' : World S = record w {
        block = some (record { information = n; status = success });
        objects = (set_event event w.objects).1;
      } in
      (success, elim apc [ none ↦ w' | some routine ↦ routine w' ])

  -- Where the transfer starts, if the offset is not behind the size.
  unfoldable pub seek : Offset → File → S → Option S
  seek here f s = some s
  seek (there (at n)) f s = if ltb f.size n then none else some (host.lseek f.descriptor (at n) s)
  seek (there (before n)) f s = some (host.lseek f.descriptor (before n) s)

  -- What `read` has put into the buffer, which the guest may have made too short.
  unfoldable pub received :
      Option ℕ → Option (World S → World S) → List ℕ → World S → Option (Status × World S)
  unfolding complete
  received event apc bytes w =
      if leb (length bytes) (length w.buffer)
      then some (
          complete event apc (length bytes)
            (record w { buffer = bytes ++ drop (length bytes) w.buffer }))
      else none

  unfoldable pub read_at :
      Option ℕ
      → Option (World S → World S)
      → Offset
      → ℕ
      → File
      → StatusBlock
      → World S
      → Option (Status × World S)
  unfolding report received seek
  read_at event apc offset n f b w = elim (seek offset f w.host) [
    | none ↦ some (report invalid_parameter b w)
    | some s ↦
        let (bytes, s') = host.read f.descriptor n s in
        elim bytes [
          | none ↦ some (report unsuccessful b (record w { host = s' }))
          | some bytes ↦ received event apc bytes (record w { host = s' })
        ]
  ]

  -- `NtReadFile`. Descriptor 0 is the keyboard, whose records have 12 bytes: `keyboard` is what
  -- Events models.
  unfoldable pub read_file :
      (StatusBlock → World S → Option (Status × World S))
      → Handle
      → Option ℕ
      → Option (World S → World S)
      → Offset
      → ℕ
      → World S
      → Option (Status × World S)
  unfolding checked report read_at
  read_file keyboard handle event apc offset n w =
      checked (λ r. some r) handle w
        (λ f b. elim (f.descriptor) [
          | none ↦ some (report invalid_handle b w)
          | some zero ↦
              if n == key_data_size then keyboard b w else some (report invalid_parameter b w)
          | some (suc fd) ↦ read_at event apc offset n f b w
        ])

  unfoldable pub write_at :
      Option ℕ
      → Option (World S → World S)
      → Offset
      → List ℕ
      → File
      → StatusBlock
      → World S
      → Status × World S
  unfolding report complete seek
  write_at event apc offset bytes f b w = elim (seek offset f w.host) [
    | none ↦ report invalid_parameter b w
    | some s ↦
        let (count, s') = host.write f.descriptor bytes s in
        elim count [
          | none ↦ report unsuccessful b (record w { host = s' })
          | some n ↦ complete event apc n (record w { host = s' })
        ]
  ]

  unfoldable pub write_file :
      Handle → Option ℕ → Option (World S → World S) → Offset → List ℕ → World S → Status × World S
  unfolding checked write_at
  write_file handle event apc offset bytes w =
      checked (λ r. r) handle w (λ f b. write_at event apc offset bytes f b w)

  unfoldable pub flush_buffers_file : Handle → World S → Status × World S
  unfolding checked report
  flush_buffers_file handle w =
      checked (λ r. r) handle w
        (λ f b. elim (f.descriptor) [
          | none ↦ report invalid_handle b w
          | some fd ↦
              let (flushed, s) = host.fsync (some fd) w.host in
              report (if flushed then success else unsuccessful) (record b { information = 0 })
                (record w { host = s })
        ])
