-- ===== src/Lib.antt =====
-- The parts of the kernel that have logic of their own, and what makes them correct: the file layer,
-- the shell, the keyboard's queue, the text screen, the task executor, the frame allocator, and what
-- boot, interrupts and panics do around them.
--
-- The kernel keeps its files behind a virtual file system (kernel/src/fs/vfs.rs): a table of mounts,
-- a table of open files, and a cache of directory entries. A call resolves a path from the root
-- directory down, first through the mounts and the cache, then through the driver of the file system
-- that the directory lies in (kernel/src/drivers/fs: ramfs, devfs), and puts what it finds into the
-- cache. The shell (kernel/src/shell) is a task of the executor (kernel/src/task): it takes
-- scancodes from the queue that the keyboard interrupt fills and that wakes it, edits a line, cuts
-- it into tokens, calls the file layer, and prints on the text screen (kernel/src/vga.rs). The frame
-- allocator (kernel/src/memory.rs) gives out the physical memory that the boot loader reports. Boot
-- (kernel/src/main.rs) sets up the tables and the interrupts (gdt.rs, interrupts.rs), the memory,
-- the file layer and the executor in this order; a panic prints a report and halts (panic.rs).
--
-- Parts:
-- - Prelude: names of the libraries, tests on numbers, lists measured by native numbers, texts.
-- - BTreeMap: alloc's map as an association list in ascending order; Keys: the orders of the keys;
--   Order: what keeps the order.
-- - Fs/Path: Path, Path::from_str, Path::is_absolute (kernel/src/fs/path.rs).
-- - Fs/Types: the types of kernel/src/fs/mod.rs and kernel/src/fs/vfs.rs. Fs/State: actions on a
--   state (Act), the state of the file layer (Vfs) and the actions on it (Io); State/Keeps: rules
--   for what an action keeps.
-- - Fs/Registry: kernel/src/fs/registry.rs, kernel/src/device/char.rs, and the init functions of
--   kernel/src/drivers. Fs/Node: FsNode objects. Fs/Ram, Fs/Dev: kernel/src/drivers/fs/ram.rs and
--   dev.rs with kernel/src/drivers/char; Ram/Children and Ram/Listing: a directory's children.
--   Fs/Drivers: the trait objects of kernel/src/fs/mod.rs.
-- - Of kernel/src/fs/vfs.rs: Fs/Cache (DirectoryCache), Fs/Resolve (get_cached_or_lookup,
--   resolve_path, resolve_path_parent_directory), Fs/Mount (mount, create_root), Fs/Files (open_path
--   for open, close, read_fd and write_fd for read and write; Files/Table and Files/Moves: the table
--   of descriptors; Files/Descriptors: what open_path adds to it; Files/Pieces: transfers in a row),
--   Fs/Directories (read_directory, create_directory, stat, prune_directory_cache), Fs/Init (init).
-- - Fs/Calls: the calls of the VFS as data, and sequences of them; its children prove what every
--   call keeps, from what each single write keeps (KeepsWrites, KeepsLinks, KeepsCached,
--   KeepsDirectories, KeepsFiles, KeepsMounts, each an interface that an invariant fills, and
--   CallsKept for the whole calls). Fs/Links: link counts against open files. Fs/Reachable: the
--   states that the kernel reaches.
-- - Vga: kernel/src/vga.rs; Loops: what new_line does in one step; Screen: the screen against an
--   endless sheet (Sheet); Typing: single characters, and texts in a row; Colored: with_color.
-- - ArrayQueue: the interface of crossbeam's bounded queue, a parameter of the executor and of the
--   keyboard; Bounded: a list that keeps its laws.
-- - Task: what the executor runs (Runtime); Task/Executor: kernel/src/task/executor.rs and the ids
--   of kernel/src/task/mod.rs. Its children: Steps and Ends (rounds, termination, order), Wakers (an
--   invariant), Spawn, Idle (run and sleep_if_idle as a step relation, with interrupts).
-- - Shell/Parser: kernel/src/shell/parser.rs. Of kernel/src/shell/mod.rs: Shell/Console (printing,
--   and the lines of ls), Shell/Commands (parse_and_execute; each command is a function of its name;
--   Commands/Descriptors: the descriptors a command takes), Shell/Line (the keys: enter, backspace,
--   other characters), Shell/Run (run). Shell/Keyboard: kernel/src/shell/keyboard.rs; its child
--   Wakeups has add_scancode and poll_next as interleaved steps, and Received says what add_scancode
--   does with the screen and the queue of tasks.
-- - Memory: kernel/src/memory.rs; Memory/Frames: the frames of a memory map, and allocate_frame;
--   Memory/Heap: init_heap of kernel/src/allocator.rs; its child Maps says what is mapped.
-- - Kernel/Panic: kernel/src/panic.rs; Kernel/Interrupts: the handlers of kernel/src/interrupts.rs;
--   Kernel/Tables: kernel/src/gdt.rs and init_idt; Kernel/Boot: kernel_main of kernel/src/main.rs up
--   to the executor's run, with memory::init of kernel/src/memory.rs.
--
-- Conventions: texts and buffers are lists of bytes. A call returns, fails with an IoError, or
-- panics: a failed assertion, unwrap, todo! or an overflow of a checked usize or u64 sum, as in a
-- debug build. The counters behind ids are atomics and wrap around at 2^64. An Arc is its fields and
-- an address; what changes behind a lock is in the state under the address. A Weak is the entry it
-- points to, found only while a mount, a caller or a local variable (the list locals) keeps the
-- entry or one below it alive. A trait object of a file system is the mount that has it, and its
-- driver's operation is chosen by the type of the file system. The kernel runs one task at a time
-- and no interrupt handler uses the VFS, so that calls do not overlap and every lock is free.
--
-- The writer, the console, the executor, the keyboard's statics and the frame allocator are states
-- of their own, with actions in the same form (Act). The keyboard's state has the screen and the
-- queue of tasks beside it, since its interrupt changes both. Interrupts are off while the writer is
-- used; those that wake a task come between the rounds of the executor (Task/Executor/Idle) and
-- between the steps of poll_next (Shell/Keyboard/Wakeups), and what wakes a task within a round is
-- the poll. A future, pc_keyboard, AtomicWaker, the x86_64 crate's frames, pages, mapper and tables,
-- Debug of a string and from_utf8_lossy are parameters, with the laws that the proofs use as fields
-- of their records.
--
-- Loops run over lists or count down, and end with them, but for these. The loop that collects the
-- shell's tokens has one unit of fuel for each call of the iterator; one more than the length of the
-- line is enough. run_ready_tasks has one for each round; it returns false where they run out, and
-- Task/Executor/Ends says how many are enough. step_by has one for each byte of a region, and
-- advances by 4096. digits has 20, the digits of a u64.
--
-- Not modelled: the level 4 page table itself (kernel/src/memory.rs), which is used through a raw
-- pointer: only its address is computed, and what the x86_64 crate does with it is a parameter; the
-- allocator behind the heap, which is another project's; block devices (stubs); SyncCell
-- (kernel/src/util), a cell whose one use is written out in next_node_id; and unmount, which is
-- todo!() and not called. A handler that does not return ends where its endless loop of hlt begins.
pub mod Prelude
pub mod BTreeMap
pub mod Fs
pub mod Vga
pub mod ArrayQueue
pub mod Task
pub mod Memory
pub mod Shell
pub mod Kernel
