-- ===== src/Kernel/Interrupts.antt =====
-- The handlers of interrupts (kernel/src/interrupts.rs).
pub mod Acknowledge
use riptide.Prelude.{ℕ, ◌+◌, List, [], ◌∷◌, ◌++◌, Bytes, codes, some, none}
use riptide.Fs.State.{Act, pure, modify, ◌>>=◌, ◌>>◌}
use riptide.ArrayQueue.{ArrayQueue}
use riptide.Vga.{Writer, write_string, newline}
use riptide.Shell.Keyboard
use riptide.Shell.Keyboard.{add_scancode}
use riptide.Shell.Keyboard.Waker.{AtomicWaker}
use riptide.Kernel.Panic.{PanicInfo, Screen, panic_handler}

-- `PIC_1_OFFSET` and `PIC_2_OFFSET`
abbrev pub pic_1_offset : ℕ
pic_1_offset = 32

abbrev pub pic_2_offset : ℕ
pic_2_offset = pic_1_offset + 8

-- `enum InterruptIndex`
pub data InterruptIndex : Type 0 where
  timer keyboard : InterruptIndex

-- `InterruptIndex::as_u8`
abbrev pub as_u8 : InterruptIndex → ℕ
as_u8 timer = pic_1_offset
as_u8 keyboard = pic_1_offset + 1

module _ (Q T : ArrayQueue ℕ) (W : AtomicWaker) where
  -- What the handlers work on: the scancodes with the queue of tasks and the screen, and the ends of
  -- interrupts that went to the PICs, oldest first.
  pub record Interrupted : Type 0 where
    pub scancodes : Keyboard.State Q T W
    pub acknowledged : List ℕ

  unfoldable pub on_scancodes : Act (Keyboard.State Q T W) (Unit {0}) → Act Interrupted (Unit {0})
  on_scancodes m s = let r = m s.scancodes in (r.0, record s { scancodes = r.1 })

  -- `acknowledge_interrupt`
  unfoldable pub acknowledge_interrupt : InterruptIndex → Act Interrupted (Unit {0})
  acknowledge_interrupt index =
      modify λ s. record s { acknowledged = s.acknowledged ++ as_u8 index ∷ [] }

  -- `timer_interrupt_handler`
  unfoldable pub timer_interrupt_handler : Act Interrupted (Unit {0})
  unfolding on_scancodes acknowledge_interrupt
  timer_interrupt_handler = do
    on_scancodes (Keyboard.on_writer Q T W (write_string (codes ".")))
    acknowledge_interrupt timer

  -- `keyboard_interrupt_handler`, for the scancode that the port 0x60 gives
  unfoldable pub keyboard_interrupt_handler : ℕ → Act Interrupted (Unit {0})
  unfolding on_scancodes acknowledge_interrupt
  keyboard_interrupt_handler scancode = do
    on_scancodes (add_scancode Q T W scancode)
    acknowledge_interrupt keyboard

-- `breakpoint_handler`, for the text of the stack frame
unfoldable pub breakpoint_handler : Bytes → Act Writer (Unit {0})
breakpoint_handler stack_frame =
    write_string (codes "EXCEPTION: BREAKPOINT" ++ newline ∷ stack_frame ++ newline ∷ [])

-- `page_fault_handler`, up to the loop of `hlt` at its end, for the texts of the address, of the error
-- code and of the stack frame
unfoldable pub page_fault_handler : Bytes → Bytes → Bytes → Act Writer (Unit {0})
page_fault_handler accessed error_code stack_frame = do
  write_string (codes "EXCEPTION: PAGE FAULT" ++ newline ∷ [])
  write_string (codes "Accessed Address: " ++ accessed ++ newline ∷ [])
  write_string (codes "Error Code: " ++ error_code ++ newline ∷ [])
  write_string (stack_frame ++ newline ∷ [])

-- `double_fault_handler`: a panic, which ends in the handler of panics
unfoldable pub double_fault_handler : Bytes → Bytes → Act Screen (Unit {0})
unfolding panic_handler
double_fault_handler location stack_frame = panic_handler (record {
  location = some location;
  message = codes "EXCEPTION: DOUBLE FAULT" ++ newline ∷ stack_frame;
})
