-- ===== src/Memory/Frames/Allocate.antt =====
-- `allocate_frame` (kernel/src/memory.rs): what it gives out, and that it gives it out once.
use riptide.Prelude.{
  ℕ, suc, ◌+◌, ◌%◌, ◌≤◌, ◌<◌, ◌≡◌, refl, sym, ap, ◌∙◌, Option, none, some, List, arith, take, leb,
  Bool-cases, inl, inr,
}
use riptide.Fs.Types.{word_max}
use riptide.Fs.State.{ok, panic, ◌>>=◌}
use riptide.Memory.{
  MemoryRegion, FrameAllocator, PhysFrames, page_size, frame_addresses, nth, all, framed,
  allocate_frame,
}
use riptide.Memory.Frames.{
  IsValid, IsUsable, frame_addresses-Ascends, nth-Ascends, nth-ascending, nth-IsUsable,
}

module _ (P : PhysFrames) where
  -- What is known where `allocate_frame` returns.
  record Allocated (o : Option P.Frame) (s t : FrameAllocator) : Type 0 where
    given : o ≡ framed P (nth s.next (frame_addresses s.memory_map))
    map_kept : t.memory_map ≡ s.memory_map
    moved : t.next ≡ s.next + 1

  allocated :
      (s t : FrameAllocator) (o : Option P.Frame) → allocate_frame P s ≡ (ok o, t) → Allocated o s t
  unfolding allocate_frame ◌>>=◌
  allocated s t o e =
      elim (Bool-cases (all P.is_phys_addr (take (suc s.next) (frame_addresses s.memory_map)))) [
        | inl f ↦ elim (Bool-cases (leb (s.next + 1) word_max)) [
          | inl g ↦
              let run : allocate_frame P s ≡ (
                ok (framed P (nth s.next (frame_addresses s.memory_map))),
                record s { next = s.next + 1 },
              ) =
                rw (f, g) refl in
              let same = sym run ∙ e in
              record {
                given = ground (arith, same);
                map_kept = ground (arith, same);
                moved = ground (arith, same);
              }
          | inr g ↦
              let run : allocate_frame P s ≡ (panic, s) = rw (f, g) refl in
              absurd (ground (arith, run, e))
        ]
        | inr f ↦
            let run : allocate_frame P s ≡ (panic, s) = rw f refl in absurd (ground (arith, run, e))
      ]

  framed-some :
      (o : Option ℕ) (f : P.Frame)
      → some f ≡ framed P o
      → (a : ℕ) × (o ≡ some a) × (f ≡ P.containing_address a)
  framed-some none f e = absurd (ground (arith, e))
  framed-some (some a) f e = (a, refl, ground (arith, e))

  aligned : (a : ℕ) → a % page_size ≡ 0 → P.start_address (P.containing_address a) ≡ a
  aligned a h = P.start-containing a ∙ omega (arith, h)

  -- On a valid memory map, a frame that `allocate_frame` gives out starts at a multiple of the page
  -- size and within a usable region.
  pub allocate_frame-IsUsable :
      (f : P.Frame) (s t : FrameAllocator)
      → IsValid 0 s.memory_map
      → allocate_frame P s ≡ (ok (some f), t)
      → IsUsable (P.start_address f) s.memory_map × (P.start_address f % page_size ≡ 0)
  allocate_frame-IsUsable f s t valid e =
      let given = framed-some _ f (allocated s t (some f) e).given in
      let ascends = frame_addresses-Ascends 0 s.memory_map valid in
      let at_page = nth-Ascends s.next 0 given.0 (frame_addresses s.memory_map) ascends given.1 in
      let start : P.start_address f ≡ given.0 =
        ap P.start_address given.2 ∙ aligned given.0 at_page.1 in
      rw start (nth-IsUsable s.next given.0 s.memory_map given.1, at_page.1)

  -- On a valid memory map, of two calls of one allocator that give a frame out, the later one gives a
  -- frame that starts at a greater address; so no frame is given out twice. The later call may come
  -- after any number of calls: its state has the same map, and is not behind the first call's result.
  pub allocate_frame-once :
      (f g : P.Frame) (s t u v : FrameAllocator)
      → IsValid 0 s.memory_map
      → allocate_frame P s ≡ (ok (some f), t)
      → u.memory_map ≡ t.memory_map
      → t.next ≤ u.next
      → allocate_frame P u ≡ (ok (some g), v)
      → P.start_address f < P.start_address g
  allocate_frame-once f g s t u v valid e same later e2 =
      let one = allocated s t (some f) e in
      let two = allocated u v (some g) e2 in
      let first = framed-some _ f one.given in
      let second = framed-some _ g two.given in
      let addresses = frame_addresses s.memory_map in
      let ascends = frame_addresses-Ascends 0 s.memory_map valid in
      let second_at : nth u.next addresses ≡ some second.0 =
        ap (λ (m : List MemoryRegion). nth u.next (frame_addresses m)) (sym one.map_kept ∙ sym same)
        ∙ second.1 in
      let start : P.start_address f ≡ first.0 =
        ap P.start_address first.2
        ∙ aligned first.0 (nth-Ascends s.next 0 first.0 addresses ascends first.1).1 in
      let start2 : P.start_address g ≡ second.0 =
        ap P.start_address second.2
        ∙ aligned second.0 (nth-Ascends u.next 0 second.0 addresses ascends second_at).1 in
      rw start (
        rw start2 (
          nth-ascending s.next u.next 0 first.0 second.0 addresses ascends
            (omega (arith, one.moved, later)) first.1 second_at))
