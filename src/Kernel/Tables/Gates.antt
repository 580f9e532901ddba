-- ===== src/Kernel/Tables/Gates.antt =====
-- What the processor finds in its tables behind `gdt::init` and `init_idt` (kernel/src/gdt.rs,
-- kernel/src/interrupts.rs).
use riptide.Prelude.{ℕ, ◌<◌, ◌≡◌, refl, ◌∙◌, true, Option, none, some, arith}
use riptide.Fs.State.{Act, ok, panic, ◌>>=◌, ◌>>◌}
use riptide.Fs.State.Keeps.{bind-ok}
use riptide.Kernel.Interrupts.{timer, keyboard, as_u8}
use riptide.Kernel.Tables.{
  X86, Tables, Gate, Handler, breakpoint_handler, page_fault_handler, double_fault_handler,
  timer_interrupt_handler, keyboard_interrupt_handler, unset, append_gdt, init_gdt, init_idt,
  init_pics, handled, stack_size, double_fault_ist_index,
}

module _ (C : X86) where
  abbrev plain : Handler → Option Gate
  plain h = some (record { handler = h; stack_index = none })

  -- Each handler at its own vector; the double fault's switches to its own stack.
  pub record HasGates (t : C.Idt) : Type 0 where
    pub breakpoints : C.gate C.breakpoint t ≡ plain breakpoint_handler
    pub page_faults : C.gate C.page_fault t ≡ plain page_fault_handler
    pub double_faults :
        C.gate C.double_fault t
        ≡ some
            (record { handler = double_fault_handler; stack_index = some double_fault_ist_index })
    pub timers : C.gate (as_u8 timer) t ≡ plain timer_interrupt_handler
    pub keyboards : C.gate (as_u8 keyboard) t ≡ plain keyboard_interrupt_handler

  abbrev exceptions_handled : C.Idt
  exceptions_handled = C.set_handler_fn C.double_fault double_fault_handler (
      C.set_handler_fn C.page_fault page_fault_handler
        (C.set_handler_fn C.breakpoint breakpoint_handler C.new_idt))

  abbrev timer_handled : C.Idt
  timer_handled =
      C.set_handler_fn (as_u8 timer) timer_interrupt_handler
        (C.set_stack_index C.double_fault double_fault_ist_index exceptions_handled)

  -- The interrupts do not reach into the exceptions.
  gate-exception :
      (v : ℕ)
      → v < 32
      → C.gate v (handled C)
        ≡ C.gate v (C.set_stack_index C.double_fault double_fault_ist_index exceptions_handled)
  gate-exception v below = ground (
    arith,
    C.gate-set_handler_fn v (as_u8 keyboard) keyboard_interrupt_handler timer_handled,
    C.gate-set_handler_fn v (as_u8 timer) timer_interrupt_handler
        (C.set_stack_index C.double_fault double_fault_ist_index exceptions_handled),
    below,
  )

  handled-HasGates : HasGates (handled C)
  handled-HasGates = record {
    breakpoints =
        gate-exception C.breakpoint C.exceptions.0
        ∙ ground (
          arith,
          C.gate-set_stack_index C.breakpoint C.double_fault double_fault_ist_index
              exceptions_handled,
          C.gate-set_handler_fn C.breakpoint C.double_fault double_fault_handler (
              C.set_handler_fn C.page_fault page_fault_handler
                (C.set_handler_fn C.breakpoint breakpoint_handler C.new_idt)),
          C.gate-set_handler_fn C.breakpoint C.page_fault page_fault_handler
              (C.set_handler_fn C.breakpoint breakpoint_handler C.new_idt),
          C.gate-set_handler_fn C.breakpoint C.breakpoint breakpoint_handler C.new_idt,
          C.exceptions,
        );
    page_faults =
        gate-exception C.page_fault C.exceptions.1
        ∙ ground (
          arith,
          C.gate-set_stack_index C.page_fault C.double_fault double_fault_ist_index
              exceptions_handled,
          C.gate-set_handler_fn C.page_fault C.double_fault double_fault_handler (
              C.set_handler_fn C.page_fault page_fault_handler
                (C.set_handler_fn C.breakpoint breakpoint_handler C.new_idt)),
          C.gate-set_handler_fn C.page_fault C.page_fault page_fault_handler
              (C.set_handler_fn C.breakpoint breakpoint_handler C.new_idt),
          C.exceptions,
        );
    double_faults =
        gate-exception C.double_fault C.exceptions.2
        ∙ ground (
          arith,
          C.gate-set_stack_index C.double_fault C.double_fault double_fault_ist_index
              exceptions_handled,
          C.gate-set_handler_fn C.double_fault C.double_fault double_fault_handler (
              C.set_handler_fn C.page_fault page_fault_handler
                (C.set_handler_fn C.breakpoint breakpoint_handler C.new_idt)),
        );
    timers = ground (
      arith,
      C.gate-set_handler_fn (as_u8 timer) (as_u8 keyboard) keyboard_interrupt_handler timer_handled,
      C.gate-set_handler_fn (as_u8 timer) (as_u8 timer) timer_interrupt_handler
          (C.set_stack_index C.double_fault double_fault_ist_index exceptions_handled),
    );
    keyboards = ground (
      arith,
      C.gate-set_handler_fn (as_u8 keyboard) (as_u8 keyboard) keyboard_interrupt_handler
          timer_handled,
    );
  }

  init_gdt_lem :
      (stack_start stack_end : ℕ)
      → C.add_address stack_start stack_size ≡ some stack_end
      → (g : C.Gdt) × (code task : C.Selector) × (init_gdt C stack_start (unset C) ≡ (
        ok tt,
        record (unset C) {
          gdt = some g;
          tss = some (C.set_stack double_fault_ist_index stack_end C.new_tss);
          loaded_gdt = some g;
          code_segment = some code;
          task_segment = some task;
        },
      ))
  unfolding init_gdt append_gdt ◌>>=◌
  init_gdt_lem stack_start stack_end fits =
      let r = C.room (C.set_stack double_fault_ist_index stack_end C.new_tss) in
      (r.2.1, r.0.0, r.2.0, rw r.1 (rw fits (rw r.3 refl)))

  -- The three steps of the start.
  abbrev pub set_tables : ℕ → Act (Tables C) (Unit {0})
  set_tables stack_start = init_gdt C stack_start >> init_idt C >> init_pics C

  -- The tables behind the start: the gates are loaded, and the stack of double faults is set.
  pub record AreSet (stack_end : ℕ) (s : Tables C) : Type 0 where
    pub idt : C.Idt
    pub loaded : s.loaded_idt ≡ some idt
    pub gates : HasGates idt
    pub tss : C.Tss
    pub in_use : s.tss ≡ some tss
    pub stack : C.stack_at double_fault_ist_index tss ≡ some stack_end
    pub pics : s.pics_initialized ≡ true

  -- The steps one by one, from tables that are not set.
  pub record Stages (stack_start stack_end : ℕ) : Type 0 where
    pub described : Tables C
    pub interrupting : Tables C
    pub remapped : Tables C
    pub gdt_step : init_gdt C stack_start (unset C) ≡ (ok tt, described)
    pub idt_step : init_idt C described ≡ (ok tt, interrupting)
    pub pics_step : init_pics C interrupting ≡ (ok tt, remapped)
    pub set : AreSet stack_end remapped
    pub gdt_again : init_gdt C stack_start remapped ≡ (panic, remapped)
    pub idt_again : init_idt C remapped ≡ (panic, remapped)

  pub stages :
      (stack_start stack_end : ℕ)
      → C.add_address stack_start stack_size ≡ some stack_end
      → Stages stack_start stack_end
  unfolding init_gdt init_idt init_pics ◌>>=◌
  stages stack_start stack_end fits =
      let r = init_gdt_lem stack_start stack_end fits in
      let tss = C.set_stack double_fault_ist_index stack_end C.new_tss in
      let s1 : Tables C = record (unset C) {
        gdt = some r.0;
        tss = some tss;
        loaded_gdt = some r.0;
        code_segment = some r.1;
        task_segment = some r.2;
      } in
      let s2 : Tables C = record s1 { idt = some (handled C); loaded_idt = some (handled C) } in
      record {
        described = s1;
        interrupting = s2;
        remapped = record s2 { pics_initialized = true };
        gdt_step = r.3;
        idt_step = refl;
        pics_step = refl;
        set = record {
          idt = handled C;
          loaded = refl;
          gates = handled-HasGates;
          tss = tss;
          in_use = refl;
          stack = C.stack-set double_fault_ist_index stack_end C.new_tss;
          pics = refl;
        };
        gdt_again = refl;
        idt_again = refl;
      }

  -- Where the end of the stack is an address, the steps return from tables that are not set: each of
  -- the five handlers stands at its vector in the table that is loaded, the double fault's with the
  -- index at which the task state has the end of the stack of double faults. A second `gdt::init` and
  -- a second `init_idt` panic.
  pub set_tables-AreSet :
      (stack_start stack_end : ℕ)
      → C.add_address stack_start stack_size ≡ some stack_end
      → (s : Tables C) × (set_tables stack_start (unset C) ≡ (ok tt, s))
        × AreSet stack_end s
        × (init_gdt C stack_start s ≡ (panic, s))
        × (init_idt C s ≡ (panic, s))
  set_tables-AreSet stack_start stack_end fits =
      let g = stages stack_start stack_end fits in
      (
        g.remapped,
        bind-ok (init_gdt C stack_start >> init_idt C) (λ _. init_pics C) (unset C)
              (bind-ok (init_gdt C stack_start) (λ _. init_idt C) (unset C) g.gdt_step ∙ g.idt_step)
            ∙ g.pics_step,
        g.set,
        g.gdt_again,
        g.idt_again,
      )
