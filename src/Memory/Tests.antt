-- ===== src/Memory/Tests.antt =====
-- A memory map with a gap: two usable pages, a reserved one, and one that is usable.
use riptide.Prelude.{
  ℕ, ◌*◌, ◌/◌, ◌%◌, ◌^◌, ◌<◌, ◌≡◌, refl, true, false, some, List, [], ◌∷◌, arith, ltb,
}
use riptide.Fs.State.{ok, ◌>>=◌}
use riptide.Memory.{
  MemoryRegion, FrameAllocator, PhysFrames, page_size, init, frame_addresses, step_by,
  region_addresses, nth, allocate_frame,
}
use riptide.Memory.Frames.{IsValid, IsUsable}
use riptide.Memory.Frames.Allocate.{allocate_frame-IsUsable, allocate_frame-once}

abbrev frames : PhysFrames
frames = record {
  Frame = ℕ;
  is_phys_addr = λ a. ltb a (2 ^ 52);
  containing_address = λ a. a / page_size;
  start_address = λ f. f * page_size;
  start-containing = λ a. refl;
}

abbrev region : ℕ → ℕ → MemoryRegion
region first last = record {
  start_addr = first * page_size;
  end_addr = last * page_size;
  usable = true;
}

abbrev memory : List MemoryRegion
memory = region 1 3 ∷ record (region 3 4) { usable = false } ∷ region 5 6 ∷ []

abbrev allocator : FrameAllocator
allocator = init memory

abbrev after : ℕ → FrameAllocator
after n = record allocator { next = n }

memory-IsValid : IsValid 0 memory
memory-IsValid = (
  omega arith,
  refl,
  omega arith,
  (omega arith, refl, omega arith, (omega arith, refl, omega arith, tt)),
)

first_frame : allocate_frame frames allocator ≡ (ok (some 1), after 1)
unfolding allocate_frame frame_addresses region_addresses step_by nth ◌>>=◌
first_frame = refl

-- The third frame lies behind the gap.
third_frame : allocate_frame frames (after 2) ≡ (ok (some 5), after 3)
unfolding allocate_frame frame_addresses region_addresses step_by nth ◌>>=◌
third_frame = refl

allocate_frame-IsUsable_example : IsUsable (5 * page_size) memory × (5 * page_size % page_size ≡ 0)
allocate_frame-IsUsable_example =
    allocate_frame-IsUsable frames 5 (after 2) (after 3) memory-IsValid third_frame

allocate_frame-once_example : 1 * page_size < 5 * page_size
allocate_frame-once_example =
    allocate_frame-once frames 1 5 allocator (after 1) (after 2) (after 3) memory-IsValid
      first_frame refl (omega arith) third_frame
