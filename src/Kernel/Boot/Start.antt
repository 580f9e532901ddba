-- ===== src/Kernel/Boot/Start.antt =====
-- The start of the kernel (kernel/src/main.rs), where every step of it returns.
use riptide.Kernel.Boot.{banner}
use riptide.Kernel.Boot.Mounts.{mounted, two_mounts, start_runs}
use riptide.Prelude.{
  ℕ, ◌<◌, ◌/◌, ◌≡◌, Option, refl, ap, ◌∙◌, true, false, some, none, List, [], ◌∷◌, ◌++◌, map, arith,
}
use riptide.BTreeMap.{lookup, insert}
use riptide.BTreeMap.Keys.{nat_key, bytes_key, pair_key}
use riptide.Fs.State.{Vfs, boot, ok}
use riptide.Fs.Init.{start}
use riptide.ArrayQueue.{ArrayQueue}
use riptide.Vga.{initial_writer, Buffer, Writer, write_string}
use riptide.Vga.Typing.{write_string-returns}
use riptide.Task.{Runtime}
use riptide.Task.Executor
use riptide.Task.Executor.{new_executor}
use riptide.Task.Executor.Steps.{pending}
use riptide.Task.Executor.Wakers.{WellFormed}
use riptide.Task.Executor.Spawn.{spawn_new, spawn_new-returns}
use riptide.Memory
use riptide.Memory.{MemoryRegion, page_size}
use riptide.Memory.Heap.{Mapper, Machine, init_heap, heap_start, heap_size, page_starts}
use riptide.Memory.Heap.Maps.{init_heap-maps}
use riptide.Kernel.Tables.{X86, Tables, unset, stack_size, init_gdt, init_idt, init_pics}
use riptide.Kernel.Tables.Gates.{AreSet, stages}
use riptide.Kernel.Boot.{
  Kernel, BootInfo, Paging, on_writer, on_tables, on_memory, active_level_4_table, init_memory,
  on_vfs, start_executor, kernel_main,
}
use riptide.Fs.State.{Act, Io, expect}
use riptide.Fs.State.Keeps.{bind-ok, modify_lem, pure_lem}

module _ (C : X86) (M : Mapper) (P : Paging M) (R : Runtime) (Q : ArrayQueue ℕ) where
  -- The kernel as the boot loader leaves it.
  abbrev pub loaded : Buffer → Kernel C M P R Q
  loaded buffer = record {
    writer = initial_writer buffer;
    tables = unset C;
    interrupts_enabled = false;
    memory = none;
    vfs = boot;
    executor = none;
  }

  -- The mapper and the frame allocator before the heap is set up, for the address of the level 4 table
  -- and the offset of the physical memory.
  abbrev pub bare : ℕ → ℕ → List MemoryRegion → Machine M.World
  bare table offset memory_map = record {
    world = P.offset_page_table table offset (Memory.init memory_map);
    heap = none;
  }

  -- The kernel right before `executor.run`: the tables, the heap with its pages behind what was mapped
  -- before, the mounts, and the executor with its one task.
  pub record IsStarted (stack_end : ℕ) (before : Machine M.World) (shell : R.Future)
      (k : Kernel C M P R Q) : Type 0 where
    pub tables : AreSet C stack_end k.tables
    pub interrupts : k.interrupts_enabled ≡ true
    pub machine : Machine M.World
    pub memory : k.memory ≡ some machine
    pub heap : machine.heap ≡ some (heap_start, heap_size)
    pub new_pages : List (M.Page × M.Frame)
    pub mapped : M.mapped machine.world ≡ M.mapped before.world ++ new_pages
    pub pages :
        map M.start_address (map (λ (r : M.Page × M.Frame). r.0) new_pages)
        ≡ page_starts 32 (heap_start / page_size)
    pub mounts : mounted k.vfs ≡ two_mounts
    pub files : k.vfs.files ≡ []
    pub executor : Executor.State R Q
    pub running : k.executor ≡ some executor
    pub tasks : executor.tasks ≡ (0, shell) ∷ []
    pub queue : pending R Q executor ≡ 0 ∷ []

  new_executor-WellFormed : (world : R.World) → WellFormed R Q (new_executor R Q world)
  unfolding lookup
  new_executor-WellFormed world = record {
    own = λ id w e. absurd (ground (arith, e));
    there = λ id w e. absurd (ground (arith, e));
    below = λ id e. absurd (ground (arith, e));
  }

  -- The queue of a new executor is empty.
  queue-new_executor : (world : R.World) → pending R Q (new_executor R Q world) ≡ []
  queue-new_executor world = Q.to_list-new

  module _ (k : Kernel C M P R Q) where
    writer_step :
        (m : Act Writer (Unit {0})) (w : Writer)
        → m k.writer ≡ (ok tt, w)
        → on_writer C M P R Q m k ≡ (ok tt, record k { writer = w })
    unfolding on_writer
    writer_step m w e = rw e refl

    tables_step :
        (m : Act (Tables C) (Unit {0})) (t : Tables C)
        → m k.tables ≡ (ok tt, t)
        → on_tables C M P R Q m k ≡ (ok tt, record k { tables = t })
    unfolding on_tables
    tables_step m t e = rw e refl

    expect_step : {A : Type 0} (o : Option A) (a : A) → o ≡ some a → expect o k ≡ (ok a, k)
    expect_step o a e = rw e (pure_lem a k)

    init_memory_step :
        (offset table : ℕ) (memory_map : List MemoryRegion)
        → C.add_address offset P.level_4_table_frame ≡ some table
        → init_memory C M P R Q offset memory_map k ≡ (ok (bare table offset memory_map), k)
    unfolding init_memory active_level_4_table
    init_memory_step offset table memory_map e =
        bind-ok (expect (C.add_address offset P.level_4_table_frame)) _ k (expect_step _ table e)
        ∙ pure_lem (bare table offset memory_map) k

    memory_step :
        {A : Type 0} (machine : Machine M.World) (m : Act (Machine M.World) A) (a : A)
        (t : Machine M.World)
        → m machine ≡ (ok a, t)
        → on_memory C M P R Q machine m k ≡ (ok a, record k { memory = some t })
    unfolding on_memory
    memory_step machine m a t e = rw e refl

    vfs_step :
        (m : Io (Unit {0})) (v : Vfs)
        → m k.vfs ≡ (ok tt, v)
        → on_vfs C M P R Q m k ≡ (ok tt, record k { vfs = v })
    unfolding on_vfs
    vfs_step m v e = rw e refl

    executor_step :
        (world : R.World) (shell : R.Future) (e : Executor.State R Q)
        → spawn_new R Q shell (new_executor R Q world) ≡ (ok tt, e)
        → start_executor C M P R Q world shell k ≡ (ok tt, record k { executor = some e })
    unfolding start_executor
    executor_step world shell e h = rw h refl

  -- Where the offset of the physical memory, the level 4 table and the end of the stack of double
  -- faults are addresses, `init_heap` finds the frames that it needs, and the queue of tasks has room
  -- for one, `kernel_main` gets to `executor.run`: no step of it panics. Then interrupts are on, and
  -- each of the five handlers stands at its vector in the table that is loaded; the 32 pages of the heap are mapped, in order, behind what was mapped before,
  -- and the allocator has their range; a RAM file system is mounted at the root, the device file
  -- system at `/dev`, and nothing else; no file is open; and the shell is the only task, and the one
  -- that is ready.
  pub kernel_main-IsStarted :
      (boot_info : BootInfo) (stack_start stack_end offset table : ℕ) (world : R.World)
      (shell : R.Future) (buffer : Buffer) (heaped : Machine M.World)
      → C.add_address stack_start stack_size ≡ some stack_end
      → C.virt_addr boot_info.physical_memory_offset ≡ some offset
      → C.add_address offset P.level_4_table_frame ≡ some table
      → init_heap M (bare table offset boot_info.memory_map) ≡ (ok none, heaped)
      → 0 < Q.capacity
      → (k : Kernel C M P R Q) × (kernel_main C M P R Q boot_info stack_start world shell
            (loaded buffer)
          ≡ (ok tt, k))
        × IsStarted stack_end (bare table offset boot_info.memory_map) shell k
  unfolding kernel_main insert
  kernel_main-IsStarted boot_info stack_start stack_end offset table world shell buffer heaped fits
        canonical readable frames room =
      let line = write_string-returns banner (initial_writer buffer) (omega arith) in
      let g = stages C stack_start stack_end fits in
      let task =
        spawn_new-returns R Q shell (new_executor R Q world) (new_executor-WellFormed world)
          (omega arith) (ground (arith, queue-new_executor world, room)) in
      let before = bare table offset boot_info.memory_map in
      let heap = init_heap-maps M before heaped frames in
      let k1 : Kernel C M P R Q = record (loaded buffer) { writer = line.0 } in
      let k2 : Kernel C M P R Q = record k1 { tables = g.described } in
      let k3 : Kernel C M P R Q = record k1 { tables = g.interrupting } in
      let k4 : Kernel C M P R Q = record k1 { tables = g.remapped } in
      let k5 : Kernel C M P R Q = record k4 { interrupts_enabled = true } in
      let k6 : Kernel C M P R Q = record k5 { memory = some heaped } in
      let k7 : Kernel C M P R Q = record k6 { vfs = (start boot).1 } in
      let k8 : Kernel C M P R Q = record k7 { executor = some task.0 } in
      (
        k8,
        bind-ok _ _ (loaded buffer)
              (writer_step (loaded buffer) (write_string banner) line.0 line.1)
            ∙ bind-ok _ _ k1 (tables_step k1 (init_gdt C stack_start) g.described g.gdt_step)
            ∙ bind-ok _ _ k2 (tables_step k2 (init_idt C) g.interrupting g.idt_step)
            ∙ bind-ok _ _ k3 (tables_step k3 (init_pics C) g.remapped g.pics_step)
            ∙ bind-ok _ _ k4 (modify_lem _ k4)
            ∙ bind-ok _ _ k5 (expect_step k5 _ offset canonical)
            ∙ bind-ok _ _ k5 (init_memory_step k5 offset table boot_info.memory_map readable)
            ∙ bind-ok _ _ k5 (memory_step k5 before (init_heap M) none heaped frames)
            ∙ bind-ok _ _ k6 (pure_lem tt k6)
            ∙ bind-ok _ _ k6
                (vfs_step k6 start (start boot).1 (ap (λ o. (o, (start boot).1)) start_runs.0))
            ∙ executor_step k7 world shell task.0 task.1,
        record {
          tables = g.set;
          interrupts = refl;
          machine = heaped;
          memory = refl;
          heap = heap.0;
          new_pages = heap.1;
          mapped = heap.2;
          pages = heap.3;
          mounts = start_runs.1;
          files = start_runs.2;
          executor = task.0;
          running = refl;
          tasks = task.6;
          queue = task.4 ∙ ap (λ (ids : List ℕ). ids ++ 0 ∷ []) (queue-new_executor world);
        },
      )
