-- ===== src/Lib.antt =====
-- nloader runs native Windows executables (autochk, bootcfg) on a Unix host. The loader (loader.c)
-- checks a PE image, maps its sections and binds its imports to libraries of its own, ntdll
-- (libs/ntdll) and bcd (libs/bcd), which answer the calls of the guest. This library models the
-- parts that carry logic of their own and proves what makes them correct.
--
-- The parts, and the modules that model them:
--   Loader     loader.c, `setup_nloader` up to the blocks of the process: `pe_offset`,
--              `read_file_header` and `read_optional_header` are its reads and checks,
--              `image_extent` and `map_sections` its two loops over the sections. `get_bytes` and
--              `getb_ok` are the macro `GETB`. Loader.Imports has the import table
--              (`bind_libraries` and `bind_names` are its two loops) and `nl_resolve`,
--              Loader.Patch the stubs, the patches, the header and the protection.
--   Lznt1      libs/ntdll/lznt1.c, the decompressor: `decompress_lznt1` is
--              `RtlDecompressBufferLZNT1`, with a function for each loop and each branch.
--   Splay      libs/ntdll/splay.c, the generic tables: `splay` is the loop of `splay` on a tree
--              whose links are constructors; Splay.Table has the operations on the table and
--              on its chain of insertion.
--   Crc64      libs/ntdll/crc64.c, the table and `RtlCrc64`.
--   Wide       libs/ntdll/crt.c, the functions on strings of 16-bit units, under the names of the
--              C functions without `rpl_`.
--   Rtl        libs/ntdll/rtl.c, the counted strings and their conversions, under the names of the
--              C functions without `Rtl`; Rtl.Format has `RtlFormatMessage` and `get_arg`,
--              Rtl.Logs has its conversion for the log,
--              Rtl.Resources has `RtlFindMessage`, Rtl.Equal has
--              `RtlEqualUnicodeString`, with `strcmp` as a parameter.
--   Format     libs/ntdll/format.c, `__format` and the functions that print to a buffer; `snprintf`
--              for a number is the parameter `render`.
--              Format.Debug has `__dbg_print`, which `DbgPrint` calls.
--   Heap       libs/ntdll/heap.c, under the names of the C functions without `Rtl`; the blocks have
--              their header, and `malloc` and `realloc` are parameters.
--   Registry   libs/ntdll/registry.c: the table of values, `RegistryLookup` and the queries.
--   Events     libs/ntdll/sync.c, events and waits, and the keyboard reads of libs/ntdll/io.c, which
--              the waits complete: `read_keyboard`, `pump` and `cancel_keyboard` are the parts of
--              `NtReadFile`, `nl_kbd_pump` and `NtCancelIoFile` that share `g_stdin_kbd`;
--              Events.Steps has what they do under the mutex and behind it as the steps of a
--              system, Events.Reach what these steps keep, Events.Cancels what can happen between
--              two of them.
--              Events.Waits has the waits for one object, for all and for any of several, with
--              the rounds of its loop and the turns of the other threads as arguments.
--   Scancodes  libs/ntdll/scancodes.c, the table by which a byte of stdin becomes a key.
--   Files      libs/ntdll/io.c: `read_file` and `write_file` at a place of a file, where the reads of
--              descriptor 0 are the parameter `keyboard`, Files.Open with
--              `unix_open`, what a path stands for and whether it is mounted, and `create_file`,
--              Files.Directory with the directory of devices.
--   Controls   libs/ntdll/ioctl.c: `report` and `answer` are the macros `CTL_CHECK_SIZE`; a
--              structure is the list of its fields, at the offsets they have on x86_64.
--              Controls.Disk has the controls of a drive, Controls.Info the information on files
--              and volumes.
--   Timeouts   libs/ntdll/sync.c, `interval_to_timespec` and `NtDelayExecution`.
-- Base has the names that the modules share; Tests has the runs on concrete data.
--
-- A buffer is the list of its bytes or units, a pointer into it an index or the rest of the list. A
-- read or a write outside a buffer, which C leaves undefined, is a result of its own: `fault`,
-- `overrun`, `outside`, `undefined` or `none`. Numbers are natural numbers, with the wrap-around of
-- their C type written out. Calls of the host are parameters: `Host` in Loader, `getpagesize` and
-- `mmap` there, `malloc` in Heap, the compare and allocate routines in Splay.Table, the wake-ups of
-- a condition and the bytes of stdin in Events, `open`, `lseek`, `read` and `write` in Files.
--
-- Loops that are not structural take fuel, and the proofs show that it is enough: a chunk of
-- Lznt1 has a header of two bytes, so that the length of the input bounds the chunks, and each
-- group of a block takes a byte of it; a round of `splay` goes down at least one level of the
-- tree; the loop that halves `blockpos` ends within 16 rounds. A round of `walk_resources` over
-- the resources goes on in a directory or one level down, of which there are three, and no index
-- of an entry reaches the length of the image; a round of `print_loop` takes at least a byte of the
-- format. A round over the import descriptors takes 20 off their size, and a round over the names
-- of a library reads 8 bytes further on in the image.
--
-- Not modelled: the blocks of the process that `setup_nloader` fills, `NtClose` and threads; the exits
-- of the loader where `malloc` or `realloc` fails; a thread that is joined has ended, for which a pass
-- of a wait waits; the settings of the terminal, logs, stubs that return one status, and
-- libs/ntdll/avltable.c, bitmap.c, splaytree.c, sd.c, random.c, crc32.c and timefields.c, which come
-- from other projects.
pub mod Base
pub mod Lznt1
pub mod Splay
pub mod Tests
pub mod Crc64
pub mod Wide
pub mod Rtl
pub mod Format
pub mod Controls
pub mod Files
pub mod Heap
pub mod Registry
pub mod Scancodes
pub mod Events
pub mod Loader
pub mod Timeouts
