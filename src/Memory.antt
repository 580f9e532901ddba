-- ===== src/Memory.antt =====
-- Physical frames (kernel/src/memory.rs), and the heap below.
pub mod Frames
pub mod Heap
mod Tests
use riptide.Prelude.{
  ℕ, zero, suc, ◌+◌, ◌-◌, ◌*◌, ◌/◌, ◌≡◌, Bool, true, false, Option, none, some, List, [], ◌∷◌, ◌++◌,
  ltb, take, if◌then◌else◌,
}
use riptide.Fs.State.{Act, ok, pure, panics, gets, modify, ◌>>=◌, ◌>>◌, assert, add_usize}

-- An entry of the boot loader's memory map: the addresses of its range, and whether its type is
-- `Usable`.
pub record MemoryRegion : Type 0 where
  pub start_addr : ℕ
  pub end_addr : ℕ
  pub usable : Bool

-- `BootInfoFrameAllocator`
pub record FrameAllocator : Type 0 where
  pub memory_map : List MemoryRegion
  pub next : ℕ

-- `BootInfoFrameAllocator::init`
abbrev pub init : List MemoryRegion → FrameAllocator
init memory_map = record { memory_map = memory_map; next = 0 }

abbrev pub page_size : ℕ
page_size = 4096

-- `(start..end).step_by(4096)`; one step of fuel for each address is enough
unfoldable pub step_by : ℕ → ℕ → ℕ → List ℕ
step_by zero start end = []
step_by (suc fuel) start end =
    let rest = step_by fuel (start + page_size) end in if ltb start end then start ∷ rest else []

-- The addresses of one region.
unfoldable pub region_addresses : MemoryRegion → List ℕ
unfolding step_by
region_addresses r = step_by (r.end_addr - r.start_addr) r.start_addr r.end_addr

-- `usable_frames`, up to the start addresses
unfoldable pub frame_addresses : List MemoryRegion → List ℕ
unfolding region_addresses
frame_addresses [] = []
frame_addresses (r ∷ rs) =
    let rest = frame_addresses rs in if r.usable then region_addresses r ++ rest else rest

-- What the allocator uses of the `x86_64` crate: whether `PhysAddr::new` accepts an address, where it
-- panics otherwise, and the frame that contains an address.
pub record PhysFrames : Type 1 where
  pub Frame : Type 0
  pub is_phys_addr : ℕ → Bool
  pub containing_address : ℕ → Frame
  pub start_address : Frame → ℕ
  pub start-containing : (a : ℕ) → start_address (containing_address a) ≡ a / page_size * page_size

abbrev pub all {ℓ} : {A : Type ℓ} → (A → Bool) → List A → Bool
all p [] = true
all p (x ∷ xs) = if p x then all p xs else false

-- `nth`
unfoldable pub nth {ℓ} : {A : Type ℓ} → ℕ → List A → Option A
nth n [] = none
nth zero (x ∷ xs) = some x
nth (suc n) (x ∷ xs) = nth n xs

module _ (P : PhysFrames) where
  abbrev pub framed : Option ℕ → Option P.Frame
  framed none = none
  framed (some a) = some (P.containing_address a)

  -- `allocate_frame`: `nth` goes through the frames up to the one that it returns
  unfoldable pub allocate_frame : Act FrameAllocator (Option P.Frame)
  unfolding frame_addresses nth
  allocate_frame = do
    addresses ← gets (λ s. frame_addresses s.memory_map)
    next ← gets (λ s. s.next)
    assert (all P.is_phys_addr (take (suc next) addresses))
    following ← add_usize next 1
    modify λ s. record s { next = following }
    pure (framed (nth next addresses))
