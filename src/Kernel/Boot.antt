-- ===== src/Kernel/Boot.antt =====
-- `kernel_main` (kernel/src/main.rs), up to `executor.run`.
pub mod Mounts
pub mod Start
use riptide.Prelude.{ℕ, Bool, true, false, Option, none, some, List, [], ◌∷◌, ◌++◌, Bytes, codes}
use riptide.Fs.State.{
  Vfs, Act, Outcome, ok, err, panic, Io, pure, panics, gets, modify, ◌>>=◌, ◌>>◌, match_option,
  expect,
}
use riptide.Fs.Init.{start}
use riptide.ArrayQueue.{ArrayQueue}
use riptide.Vga.{Writer, write_string, newline}
use riptide.Task.{Runtime}
use riptide.Task.Executor
use riptide.Task.Executor.{new_executor, spawn, new_task}
use riptide.Task.Executor.Spawn.{spawn_new}
use riptide.Memory
use riptide.Memory.{MemoryRegion, FrameAllocator}
use riptide.Memory.Heap.{Mapper, Machine, init_heap}
use riptide.Shell.Commands.{version}
use riptide.Kernel.Tables.{X86, Tables, init_gdt, init_idt, init_pics}

-- The first line of the kernel.
abbrev pub banner : Bytes
banner = codes "RiptideOS (v" ++ version ++ codes ")" ++ newline ∷ []

-- What `kernel_main` reads of `bootloader::BootInfo`.
pub record BootInfo : Type 0 where
  pub physical_memory_offset : ℕ
  pub memory_map : List MemoryRegion

-- What `memory::init` uses of the processor and of the `x86_64` crate: the start address of the frame
-- that CR3 names, and `OffsetPageTable::new` of the table at an address, with an offset. The mapper
-- stands beside the frame allocator that it is used with.
pub record Paging (M : Mapper) : Type 0 where
  pub level_4_table_frame : ℕ
  pub offset_page_table : ℕ → ℕ → FrameAllocator → M.World

module _ (C : X86) (M : Mapper) (P : Paging M) (R : Runtime) (Q : ArrayQueue ℕ) where
  -- The parts that are set up one after the other. The executor is there once it has been made; the
  -- rest of the kernel, which the tasks work on, is `world`.
  pub record Kernel : Type 0 where
    pub writer : Writer
    pub tables : Tables C
    pub interrupts_enabled : Bool
    -- the mapper, the frame allocator and the heap, once they are there
    pub memory : Option (Machine M.World)
    pub vfs : Vfs
    pub executor : Option (Executor.State R Q)

  unfoldable pub on_writer : Act Writer (Unit {0}) → Act Kernel (Unit {0})
  on_writer m k = let r = m k.writer in (r.0, record k { writer = r.1 })

  unfoldable pub on_tables : Act (Tables C) (Unit {0}) → Act Kernel (Unit {0})
  on_tables m k = let r = m k.tables in (r.0, record k { tables = r.1 })

  unfoldable pub on_memory : {A : Type 0} → Machine M.World → Act (Machine M.World) A → Act Kernel A
  on_memory machine m k = let r = m machine in (r.0, record k { memory = some r.1 })

  -- `active_level_4_table`: the address of the table that is read and written through a pointer
  unfoldable pub active_level_4_table : ℕ → Act Kernel ℕ
  active_level_4_table physical_memory_offset =
      expect (C.add_address physical_memory_offset P.level_4_table_frame)

  -- `memory::init`, and `BootInfoFrameAllocator::init`
  unfoldable pub init_memory : ℕ → List MemoryRegion → Act Kernel (Machine M.World)
  unfolding active_level_4_table
  init_memory physical_memory_offset memory_map = do
    level_4_table ← active_level_4_table physical_memory_offset
    pure (record {
      world = P.offset_page_table level_4_table physical_memory_offset (Memory.init memory_map);
      heap = none;
    })

  unfoldable pub on_vfs : Io (Unit {0}) → Act Kernel (Unit {0})
  on_vfs m k = let r = m k.vfs in (r.0, record k { vfs = r.1 })

  -- `Executor::new`, and the task of the shell
  unfoldable pub start_executor : R.World → R.Future → Act Kernel (Unit {0})
  start_executor world shell k =
      let r = spawn_new R Q shell (new_executor R Q world) in
      (r.0, record k { executor = some r.1 })

  -- `kernel_main`, for the address of the stack of double faults, the rest of the kernel and the
  -- future that `shell::run()` returns
  unfoldable pub kernel_main : BootInfo → ℕ → R.World → R.Future → Act Kernel (Unit {0})
  unfolding on_writer on_tables init_memory on_memory on_vfs start_executor
  kernel_main boot_info stack_start world shell = do
    on_writer (write_string banner)
    on_tables (init_gdt C stack_start)
    on_tables (init_idt C)
    on_tables (init_pics C)
    modify λ k. record k { interrupts_enabled = true }
    phys_mem_offset ← expect (C.virt_addr boot_info.physical_memory_offset)
    machine ← init_memory phys_mem_offset boot_info.memory_map
    failed ← on_memory machine (init_heap M)
    match_option failed (pure tt) λ e. panics
    on_vfs start
    start_executor world shell
