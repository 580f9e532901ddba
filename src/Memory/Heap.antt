-- ===== src/Memory/Heap.antt =====
-- The heap (kernel/src/allocator.rs): the pages that `init_heap` maps.
pub mod Maps
pub mod Tests
use riptide.Prelude.{
  ℕ, zero, suc, ◌+◌, ◌-◌, ◌*◌, ◌/◌, ◌≡◌, Option, none, some, List, [], ◌∷◌, ◌++◌, map,
}
use riptide.Fs.State.{Act, Outcome, ok, pure, modify, ◌>>=◌, ◌>>◌, match_option}
use riptide.Memory.{page_size}

-- `HEAP_START`
abbrev pub heap_start : ℕ
heap_start = 0x444444440000

-- `HEAP_SIZE`
abbrev pub heap_size : ℕ
heap_size = 128 * 1024

-- The start addresses of `count` pages from page number `first` on.
abbrev pub page_starts : ℕ → ℕ → List ℕ
page_starts zero first = []
page_starts (suc count) first = first * page_size ∷ page_starts count (first + 1)

-- What `init_heap` uses of the `x86_64` crate: pages, the inclusive range between two, the allocator
-- and the mapper that it is given, and which frames the mapper has mapped pages to, in order. Both
-- work on the same state, since `map_to` may allocate frames for its tables.
pub record Mapper : Type 1 where
  pub Page : Type 0
  pub Frame : Type 0
  pub World : Type 0
  pub Error : Type 0
  pub frame_allocation_failed : Error
  pub containing_address : ℕ → Page
  pub start_address : Page → ℕ
  pub range_inclusive : Page → Page → List Page
  pub allocate_frame : Act World (Option Frame)
  -- `none` is `Ok`
  pub map_to : Page → Frame → Act World (Option Error)
  pub mapped : World → List (Page × Frame)
  pub range-starts :
      (a b : ℕ)
      → map start_address (range_inclusive (containing_address a) (containing_address b))
        ≡ page_starts (b / page_size + 1 - a / page_size) (a / page_size)
  pub allocate-mapped :
      (w w2 : World) (o : Option Frame) → allocate_frame w ≡ (ok o, w2) → mapped w2 ≡ mapped w
  pub map_to-mapped :
      (p : Page) (f : Frame) (w w2 : World)
      → map_to p f w ≡ (ok none, w2)
      → mapped w2 ≡ mapped w ++ (p, f) ∷ []

-- The mapper's state, and the range that `ALLOCATOR` was given.
pub record Machine (World : Type 0) : Type 0 where
  pub world : World
  pub heap : Option (ℕ × ℕ)

module _ (M : Mapper) where
  -- `page_range`
  abbrev pub heap_pages : List M.Page
  heap_pages =
      M.range_inclusive (M.containing_address heap_start)
        (M.containing_address (heap_start + heap_size - 1))

  -- The loop; the result is the error that ends it.
  unfoldable pub map_pages : List M.Page → Act M.World (Option M.Error)
  map_pages [] = pure none
  map_pages (page ∷ pages) = do
    frame ← M.allocate_frame
    let rest = map_pages pages
    match_option frame (pure (some M.frame_allocation_failed))
        λ f. do failed ← M.map_to page f; match_option failed rest λ e. pure (some e)

  unfoldable pub on_world : {A : Type 0} → Act M.World A → Act (Machine M.World) A
  on_world m s = let r = m s.world in (r.0, record s { world = r.1 })

  -- `init_heap`; `none` is `Ok(())`
  unfoldable pub init_heap : Act (Machine M.World) (Option M.Error)
  unfolding map_pages on_world
  init_heap = do
    failed ← on_world (map_pages heap_pages)
    match_option failed (do modify λ s. record s { heap = some (heap_start, heap_size) }; pure none)
        λ e. pure (some e)
