-- ===== src/Kernel/Tests.antt =====
-- The start, the interrupts and a panic on small machines.
use riptide.Prelude.{
  ℕ, ◌+◌, ◌≡◌, refl, ap, true, Option, none, some, List, [], ◌∷◌, ◌++◌, codes, length, arith, ◌==◌,
  if◌then◌else◌,
}
use mathlib.Core.Option
use riptide.Fs.State.{Outcome, ok, panic}
use riptide.ArrayQueue.{ArrayQueue}
use riptide.ArrayQueue.Bounded.{bounded}
use riptide.Vga.{Writer, blank_cell}
use riptide.Vga.Screen.{Sheet, Shows, type_string}
use riptide.Task.{Runtime}
use riptide.Memory.Heap.Tests.{listing, machine, ready, is_ready}
use riptide.Shell.Keyboard.Waker.{option_waker}
use riptide.Kernel.Panic.{PanicInfo, Screen, panic_handler}
use riptide.Kernel.Panic.Report.{Ends, report, panic_handler-Ends}
use riptide.Kernel.Interrupts.{Interrupted, timer_interrupt_handler, keyboard_interrupt_handler}
use riptide.Kernel.Interrupts.Acknowledge.{Handled, interrupts-acknowledged}
use riptide.Kernel.Tables.{X86, Tables, Gate, unset, init_gdt, init_idt}
use riptide.Kernel.Tables.Gates.{AreSet, set_tables, set_tables-AreSet}
use riptide.Kernel.Boot.{Kernel, BootInfo, Paging, kernel_main}
use riptide.Kernel.Boot.Start.{loaded, IsStarted, kernel_main-IsStarted}

-- A screen that is blank, with a few characters typed.
abbrev blank : Writer
blank = record { column_position = 3; color_code = 7; buffer = λ r c. blank_cell 7 }

abbrev blank_sheet : Sheet
blank_sheet = record { rows = λ k c. blank_cell 7; column = 3; color = 7 }

blank-Shows : Shows blank blank_sheet
blank-Shows = record {
  cells = λ k c i j. refl;
  columns = refl;
  colors = refl;
  within = omega arith;
}

abbrev info : PanicInfo
info = record { location = some (codes "src/main.rs:1:1"); message = codes "no" }

abbrev screen : Screen
screen = record { writer = blank; ports = []; interrupts_enabled = true }

panic_handler-Ends_example : Ends (panic_handler info) screen (report info blank_sheet)
panic_handler-Ends_example = panic_handler-Ends info screen blank_sheet blank-Shows

abbrev scancodes : ArrayQueue ℕ
scancodes = bounded 2

abbrev tasks : ArrayQueue ℕ
tasks = bounded 2

-- One scancode waits, and so does the shell's task.
abbrev interrupted : Interrupted scancodes tasks option_waker
interrupted = record {
  scancodes = record {
    scancode_queue = some (30 ∷ []);
    waker = some 7;
    task_queue = [];
    writer = blank;
  };
  acknowledged = [];
}

interrupts-acknowledged_example :
    ((w : Writer) × (timer_interrupt_handler scancodes tasks option_waker interrupted ≡ (
      ok tt,
      record interrupted {
        scancodes = record interrupted.scancodes { writer = w };
        acknowledged = 32 ∷ [];
      },
    ))
      × Shows w (type_string (codes ".") blank_sheet))
    × Handled scancodes tasks option_waker []
        (keyboard_interrupt_handler scancodes tasks option_waker 31 interrupted)
        (some (record {
          waiting = some (30 ∷ 31 ∷ []);
          ready_tasks = 7 ∷ [];
          registered = none;
          sheet = blank_sheet;
        }))
interrupts-acknowledged_example =
    interrupts-acknowledged scancodes tasks option_waker 31 interrupted blank_sheet blank-Shows

-- Tables that are functions.
set_at : (i a : ℕ) (t : ℕ → Option ℕ) → (if i == i then some a else t i) ≡ some a
set_at i a t = ground arith

abbrev functions : X86
functions = record {
  Gdt = List ℕ;
  Tss = ℕ → Option ℕ;
  Idt = ℕ → Option Gate;
  Descriptor = ℕ;
  Selector = ℕ;
  new_gdt = [];
  new_tss = λ i. none;
  new_idt = λ v. none;
  kernel_code_segment = 1;
  tss_segment = λ t. 2;
  append = λ d g. some (length g, g ++ d ∷ []);
  set_stack = λ i a t j. if j == i then some a else t j;
  stack_at = λ i t. t i;
  add_address = λ a n. some (a + n);
  virt_addr = λ a. some a;
  breakpoint = 3;
  page_fault = 14;
  double_fault = 8;
  set_handler_fn =
      λ u h t v. if v == u then some (record { handler = h; stack_index = none }) else t v;
  set_stack_index = λ u i t v.
      if v == u then Option.map (λ (g : Gate). record g { stack_index = some i }) (t v) else t v;
  gate = λ v t. t v;
  stack-set = set_at;
  gate-set_handler_fn = λ v u h t. refl;
  gate-set_stack_index = λ v u i t. refl;
  exceptions = (
    omega arith,
    omega arith,
    omega arith,
    (λ e. omega (arith, e)),
    (λ e. omega (arith, e)),
    λ e. omega (arith, e),
  );
  room = λ t. ((0, 1 ∷ []), refl, (1, 1 ∷ 2 ∷ []), refl);
}

set_tables-AreSet_example :
    (s : Tables functions) × (set_tables functions 4096 (unset functions) ≡ (ok tt, s))
    × AreSet functions 24576 s
    × (init_gdt functions 4096 s ≡ (panic, s))
    × (init_idt functions s ≡ (panic, s))
set_tables-AreSet_example = set_tables-AreSet functions 4096 24576 refl

-- Futures that are ready at once.
abbrev at_once : Runtime
at_once = record {
  Future = ℕ;
  World = ℕ;
  poll = λ id f w. record { ready = true; future = f; world = w; woken = [] };
}

-- The level 4 table is at an offset of 4096, and nothing is mapped.
abbrev unmapped : Paging listing
unmapped = record { level_4_table_frame = 4096; offset_page_table = λ table offset frames. (0, []) }

abbrev boot_info : BootInfo
boot_info = record { physical_memory_offset = 8192; memory_map = [] }

kernel_main-IsStarted_example :
    (k : Kernel functions listing unmapped at_once scancodes) × (kernel_main functions listing
        unmapped at_once scancodes boot_info 4096 0 5
        (loaded functions listing unmapped at_once scancodes (λ r c. blank_cell 7))
      ≡ (ok tt, k))
    × IsStarted functions listing unmapped at_once scancodes 24576 machine 5 k
kernel_main-IsStarted_example =
    kernel_main-IsStarted functions listing unmapped at_once scancodes boot_info 4096 24576 8192
      12288 0 5 (λ r c. blank_cell 7) ready.1 refl refl refl
      (ap (λ (o : Outcome (Option (Unit {0}))). (o, ready.1)) is_ready) (omega arith)
