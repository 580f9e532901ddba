-- ===== src/Memory/Heap/Tests.antt =====
-- `init_heap` with a mapper that keeps a list.
use riptide.Prelude.{
  ℕ, zero, suc, ◌+◌, ◌-◌, ◌*◌, ◌/◌, ◌≡◌, refl, sym, ap, Option, none, some, List, [], ◌∷◌, ◌++◌,
  map,
}
use riptide.Fs.State.{Act, Outcome, ok, ◌>>=◌}
use riptide.Memory.{page_size}
use riptide.Memory.Heap.{
  Mapper, Machine, heap_start, heap_size, page_starts, map_pages, on_world, init_heap,
}
use riptide.Memory.Heap.Maps.{init_heap-maps}

abbrev upto : ℕ → ℕ → List ℕ
upto zero first = []
upto (suc count) first = first ∷ upto count (first + 1)

pub starts :
    (count first : ℕ) → map (λ p. p * page_size) (upto count first) ≡ page_starts count first
starts zero first = refl
starts (suc count) first = ap (λ (xs : List ℕ). first * page_size ∷ xs) (starts count (first + 1))

-- The next frame, and what is mapped.
abbrev Frames : Type 0
Frames = ℕ × List (ℕ × ℕ)

abbrev give : Act Frames (Option ℕ)
give w = (ok (some w.0), (w.0 + 1, w.1))

abbrev enter_page : ℕ → ℕ → Act Frames (Option (Unit {0}))
enter_page p f w = (ok none, (w.0, w.1 ++ (p, f) ∷ []))

abbrev pub listing : Mapper
listing = record {
  Page = ℕ;
  Frame = ℕ;
  World = Frames;
  Error = Unit;
  frame_allocation_failed = tt;
  containing_address = λ a. a / page_size;
  start_address = λ p. p * page_size;
  range_inclusive = λ a b. upto (b + 1 - a) a;
  allocate_frame = give;
  map_to = enter_page;
  mapped = λ w. w.1;
  range-starts = λ a b. starts (b / page_size + 1 - a / page_size) (a / page_size);
  allocate-mapped = λ w w2 o e. sym (ap (λ (r : Outcome (Option ℕ) × Frames). r.1.1) e);
  map_to-mapped = λ p f w w2 e. sym (ap (λ (r : Outcome (Option (Unit {0})) × Frames). r.1.1) e);
}

abbrev pub machine : Machine Frames
machine = record { world = (0, []); heap = none }

abbrev pub ready : Outcome (Option (Unit {0})) × Machine Frames
ready = init_heap listing machine

pub is_ready : ready.0 ≡ ok none
unfolding init_heap map_pages on_world ◌>>=◌
is_ready = refl

init_heap-maps_example :
    (ready.1.heap ≡ some (heap_start, heap_size))
    × (new : List (ℕ × ℕ)) × (ready.1.world.1 ≡ [] ++ new)
    × (map (λ p. p * page_size) (map (λ (r : ℕ × ℕ). r.0) new)
        ≡ page_starts 32 (heap_start / page_size))
init_heap-maps_example =
    init_heap-maps listing machine ready.1
      (ap (λ (o : Outcome (Option (Unit {0}))). (o, ready.1)) is_ready)
