-- ===== src/Kernel/Tables.antt =====
-- The descriptor tables of the processor (kernel/src/gdt.rs, and `init_idt` and `init_pics` of
-- kernel/src/interrupts.rs).
pub mod Gates
use riptide.Prelude.{
  ℕ, ◌+◌, ◌*◌, ◌<◌, ◌≡◌, ◌≢◌, Bool, true, false, not, Option, none, some, ◌==◌, if◌then◌else◌,
}
use mathlib.Core.Option
use riptide.Fs.State.{Act, ok, pure, panics, gets, modify, ◌>>=◌, ◌>>◌, assert, expect}
use riptide.Fs.Registry.{is_some}
use riptide.Kernel.Interrupts.{timer, keyboard, as_u8}

-- The handlers of interrupts.rs.
pub data Handler : Type 0 where
  breakpoint_handler page_fault_handler double_fault_handler : Handler
  timer_interrupt_handler keyboard_interrupt_handler : Handler

-- An entry of the interrupt table: its handler, and the index of the stack that it switches to.
pub record Gate : Type 0 where
  pub handler : Handler
  pub stack_index : Option ℕ

abbrev on_stack : ℕ → Gate → Gate
on_stack index g = record g { stack_index = some index }

-- What the kernel uses of the `x86_64` crate: the tables, the vectors of three exceptions, which are
-- among the first 32, and the sum of an address and an offset, which has to be canonical. `append`
-- fails on a table that is full; a new one has room for two descriptors.
pub record X86 : Type 1 where
  pub Gdt : Type 0
  pub Tss : Type 0
  pub Idt : Type 0
  pub Descriptor : Type 0
  pub Selector : Type 0
  pub new_gdt : Gdt
  pub new_tss : Tss
  pub new_idt : Idt
  pub kernel_code_segment : Descriptor
  pub tss_segment : Tss → Descriptor
  pub append : Descriptor → Gdt → Option (Selector × Gdt)
  pub set_stack : ℕ → ℕ → Tss → Tss
  pub stack_at : ℕ → Tss → Option ℕ
  pub add_address : ℕ → ℕ → Option ℕ
  -- `VirtAddr::new`, which panics on an address that is not canonical
  pub virt_addr : ℕ → Option ℕ
  pub breakpoint : ℕ
  pub page_fault : ℕ
  pub double_fault : ℕ
  pub set_handler_fn : ℕ → Handler → Idt → Idt
  pub set_stack_index : ℕ → ℕ → Idt → Idt
  pub gate : ℕ → Idt → Option Gate
  pub stack-set : (i a : ℕ) (t : Tss) → stack_at i (set_stack i a t) ≡ some a
  pub gate-set_handler_fn :
      (v u : ℕ) (h : Handler) (t : Idt)
      → gate v (set_handler_fn u h t)
        ≡ (if v == u then some (record { handler = h; stack_index = none }) else gate v t)
  pub gate-set_stack_index :
      (v u i : ℕ) (t : Idt)
      → gate v (set_stack_index u i t)
        ≡ (if v == u then Option.map (on_stack i) (gate v t) else gate v t)
  pub exceptions :
      (breakpoint < 32)
      × (page_fault < 32)
      × (double_fault < 32)
      × (breakpoint ≢ page_fault)
      × (breakpoint ≢ double_fault)
      × (page_fault ≢ double_fault)
  pub room :
      (t : Tss)
      → (code : Selector × Gdt) × (append kernel_code_segment new_gdt ≡ some code)
        × (last : Selector × Gdt) × (append (tss_segment t) code.1 ≡ some last)

-- `DOUBLE_FAULT_IST_INDEX`
abbrev pub double_fault_ist_index : ℕ
double_fault_ist_index = 0

-- `STACK_SIZE`
abbrev pub stack_size : ℕ
stack_size = 4096 * 5

module _ (C : X86) where
  -- The three `StaticCell`s, what is loaded, and whether the PICs are initialized.
  pub record Tables : Type 0 where
    pub gdt : Option C.Gdt
    pub tss : Option C.Tss
    pub idt : Option C.Idt
    pub loaded_gdt : Option C.Gdt
    pub loaded_idt : Option C.Idt
    pub code_segment : Option C.Selector
    pub task_segment : Option C.Selector
    pub pics_initialized : Bool

  -- Before the start.
  abbrev pub unset : Tables
  unset = record {
    gdt = none;
    tss = none;
    idt = none;
    loaded_gdt = none;
    loaded_idt = none;
    code_segment = none;
    task_segment = none;
    pics_initialized = false;
  }

  -- `gdt.append(...)`
  unfoldable pub append_gdt : C.Descriptor → Act Tables C.Selector
  append_gdt d = do
    cell ← gets (λ s. s.gdt)
    gdt ← expect cell
    appended ← expect (C.append d gdt)
    modify λ s. record s { gdt = some appended.1 }
    pure appended.0

  -- `gdt::init`, for the address of the static `STACK`
  unfoldable pub init_gdt : ℕ → Act Tables (Unit {0})
  unfolding append_gdt
  init_gdt stack_start = do
    gdt_set ← gets (λ s. is_some s.gdt)
    assert (not gdt_set)
    modify λ s. record s { gdt = some C.new_gdt }
    code_segment ← append_gdt C.kernel_code_segment
    tss_set ← gets (λ s. is_some s.tss)
    assert (not tss_set)
    stack_end ← expect (C.add_address stack_start stack_size)
    let tss = C.set_stack double_fault_ist_index stack_end C.new_tss
    modify λ s. record s { tss = some tss }
    tss_segment ← append_gdt (C.tss_segment tss)
    modify λ s. record s { loaded_gdt = s.gdt }
    modify λ s. record s { code_segment = some code_segment }
    modify λ s. record s { task_segment = some tss_segment }

  abbrev pub handled : C.Idt
  handled = C.set_handler_fn (as_u8 keyboard) keyboard_interrupt_handler (
      C.set_handler_fn (as_u8 timer) timer_interrupt_handler (
        C.set_stack_index C.double_fault double_fault_ist_index (
          C.set_handler_fn C.double_fault double_fault_handler (
            C.set_handler_fn C.page_fault page_fault_handler
              (C.set_handler_fn C.breakpoint breakpoint_handler C.new_idt)))))

  -- `init_idt`
  unfoldable pub init_idt : Act Tables (Unit {0})
  init_idt = do
    idt_set ← gets (λ s. is_some s.idt)
    assert (not idt_set)
    modify λ s. record s { idt = some handled }
    modify λ s. record s { loaded_idt = s.idt }

  -- `init_pics`
  unfoldable pub init_pics : Act Tables (Unit {0})
  init_pics = modify λ s. record s { pics_initialized = true }
