-- ===== src/Memory/Heap/Maps.antt =====
-- What `init_heap` has mapped where it returns `Ok` (kernel/src/allocator.rs).
use mathlib.Core.Path.{subst}
use riptide.Prelude.{
  ◌+◌, ◌-◌, ◌/◌, ◌≡◌, refl, sym, ap, ◌∙◌, Option, none, some, List, [], ◌∷◌, ◌++◌, map, append-nil,
  append_assoc,
}
use riptide.Fs.State.{Act, Outcome, ok, err, panic, pure, modify, ◌>>=◌, ◌>>◌, match_option}
use riptide.Fs.State.Keeps.{
  Triple, Holds, Top, Triple-bind, Triple-pure, Triple-weaken, Triple-modify,
}
use riptide.Memory.{page_size}
use riptide.Memory.Heap.{
  Mapper, Machine, heap_start, heap_size, page_starts, heap_pages, map_pages, on_world, init_heap,
}

-- What is known of each return.
Triple-ok :
    {S A : Type 0} {R : S → Type 0} {Q : A → S → Type 0} (m : Act S A)
    → ((s t : S) (a : A) → R s → m s ≡ (ok a, t) → Q a t)
    → Triple R Top m Q
Triple-ok {S} {A} {R} {Q} m h = record { at = λ s r. go s r (m s) refl }
  where
    go : (s : S) → R s → (r : Outcome A × S) → m s ≡ r → Holds Top Q r
    go s r (ok a, t) e = h s t a r e
    go s r (err x, t) e = tt
    go s r (panic, t) e = tt

module _ (M : Mapper) where
  -- The pages are mapped, each to a frame, behind those of `before`.
  Mapped : List (M.Page × M.Frame) → List M.Page → Option M.Error → M.World → Type 0
  Mapped before pages none w =
      (new : List (M.Page × M.Frame)) × (M.mapped w ≡ before ++ new)
      × (map (λ (r : M.Page × M.Frame). r.0) new ≡ pages)
  Mapped before pages (some e) w = Unit

  Had : List (M.Page × M.Frame) → M.World → Type 0
  Had before w = M.mapped w ≡ before

  After : List (M.Page × M.Frame) → M.Page → M.Frame → Option M.Error → M.World → Type 0
  After before page f none w = M.mapped w ≡ before ++ (page, f) ∷ []
  After before page f (some e) w = Unit

  Mapped-cons :
      (before : List (M.Page × M.Frame)) (page : M.Page) (f : M.Frame) (pages : List M.Page)
      (failed : Option M.Error) (w : M.World)
      → Mapped (before ++ (page, f) ∷ []) pages failed w
      → Mapped before (page ∷ pages) failed w
  unfolding Mapped
  Mapped-cons before page f pages none w h = (
    (page, f) ∷ h.0,
    h.1 ∙ append_assoc before ((page, f) ∷ []) h.0,
    ap (λ (ps : List M.Page). page ∷ ps) h.2,
  )
  Mapped-cons before page f pages (some e) w h = tt

  map_to-After :
      (before : List (M.Page × M.Frame)) (page : M.Page) (f : M.Frame) (w w2 : M.World)
      (failed : Option M.Error)
      → Had before w
      → M.map_to page f w ≡ (ok failed, w2)
      → After before page f failed w2
  unfolding Had After
  map_to-After before page f w w2 none h e =
      M.map_to-mapped page f w w2 e ∙ ap (λ (m : List (M.Page × M.Frame)). m ++ (page, f) ∷ []) h
  map_to-After before page f w w2 (some x) h e = tt

  -- The rest of the loop, behind `map_to`.
  Triple-rest :
      (before : List (M.Page × M.Frame)) (page : M.Page) (f : M.Frame) (pages : List M.Page)
      (failed : Option M.Error)
      → ((b : List (M.Page × M.Frame)) → Triple (Had b) Top (map_pages M pages) (Mapped b pages))
      → Triple
          (After before page f failed)
          Top
          (match_option failed (map_pages M pages) λ e. pure (some e))
          (Mapped before (page ∷ pages))
  unfolding Had After Mapped
  Triple-rest before page f pages none rest =
      Triple-weaken (map_pages M pages) (λ w h. h) (λ w h. h)
        (λ failed w h. Mapped-cons before page f pages failed w h) (rest (before ++ (page, f) ∷ []))
  Triple-rest before page f pages (some e) rest = Triple-pure (some e) (λ w h. tt)

  Triple-framed :
      (before : List (M.Page × M.Frame)) (page : M.Page) (pages : List M.Page)
      (frame : Option M.Frame)
      → ((b : List (M.Page × M.Frame)) → Triple (Had b) Top (map_pages M pages) (Mapped b pages))
      → Triple
          (Had before)
          Top
          (match_option frame (pure (some M.frame_allocation_failed)) λ f.
            M.map_to page f >>= λ failed.
            match_option failed (map_pages M pages) λ e. pure (some e))
          (Mapped before (page ∷ pages))
  unfolding Mapped
  Triple-framed before page pages none rest =
      Triple-pure (some M.frame_allocation_failed) (λ w h. tt)
  Triple-framed before page pages (some f) rest =
      Triple-bind (M.map_to page f) _
        (Triple-ok {Q = After before page f} (M.map_to page f)
          (λ w w2 failed h e. map_to-After before page f w w2 failed h e))
        (λ failed. Triple-rest before page f pages failed rest)

  Triple-map_pages :
      (pages : List M.Page) (before : List (M.Page × M.Frame))
      → Triple (Had before) Top (map_pages M pages) (Mapped before pages)
  unfolding map_pages Mapped Had
  Triple-map_pages [] before = Triple-pure none (λ w h. ([], h ∙ sym (append-nil before), refl))
  Triple-map_pages (page ∷ pages) before =
      Triple-bind M.allocate_frame _
        (Triple-ok {Q = λ _. Had before} M.allocate_frame
          (λ w w2 o h e. M.allocate-mapped w w2 o e ∙ h))
        (λ frame. Triple-framed before page pages frame (Triple-map_pages pages))

  -- What the machine looks like behind the loop.
  Outside : Machine M.World → Option M.Error → Machine M.World → Type 0
  Outside s failed t = Mapped (M.mapped s.world) (heap_pages M) failed t.world

  Triple-on_world :
      (s : Machine M.World)
      → Triple (λ t. t ≡ s) Top (on_world M (map_pages M (heap_pages M))) (Outside s)
  unfolding on_world Outside Had
  Triple-on_world s = record {
    at = λ t e. rw e (
        go (map_pages M (heap_pages M) s.world)
          ((Triple-map_pages (heap_pages M) (M.mapped s.world)).at s.world refl));
  }
    where
      go :
          (r : Outcome (Option M.Error) × M.World)
          → Holds Top (Mapped (M.mapped s.world) (heap_pages M)) r
          → Holds Top (Outside s) (r.0, record s { world = r.1 })
      go (ok failed, w) h = h
      go (err x, w) h = tt
      go (panic, w) h = tt

  Ready : Machine M.World → Option M.Error → Machine M.World → Type 0
  Ready s none t =
      (t.heap ≡ some (heap_start, heap_size))
      × (new : List (M.Page × M.Frame)) × (M.mapped t.world ≡ M.mapped s.world ++ new)
      × (map (λ (r : M.Page × M.Frame). r.0) new ≡ heap_pages M)
  Ready s (some e) t = Unit

  Triple-init_heap : (s : Machine M.World) → Triple (λ t. t ≡ s) Top (init_heap M) (Ready s)
  unfolding init_heap Ready Outside Mapped
  Triple-init_heap s =
      Triple-bind (on_world M (map_pages M (heap_pages M))) _ (Triple-on_world s)
        (λ failed. go failed)
    where
      go :
          (failed : Option M.Error)
          → Triple
              (Outside s failed)
              Top
              (match_option failed
                (do modify λ s. record s { heap = some (heap_start, heap_size) }; pure none)
                λ e. pure (some e))
              (Ready s)
      go none =
          Triple-bind (modify λ s. record s { heap = some (heap_start, heap_size) }) _
            (Triple-modify {Q = Ready s none} _ (λ t h. (refl, h.0, h.1, h.2)))
            (λ _. Triple-pure none (λ t h. h))
      go (some e) = Triple-pure (some e) (λ t h. tt)

  -- Where `init_heap` returns `Ok`, the mapper has mapped, behind what it had mapped before, the 32
  -- pages from the heap's start on, in order, each to one frame, and the allocator has been given the
  -- heap's range.
  pub init_heap-maps :
      (s t : Machine M.World)
      → init_heap M s ≡ (ok none, t)
      → (t.heap ≡ some (heap_start, heap_size))
        × (new : List (M.Page × M.Frame)) × (M.mapped t.world ≡ M.mapped s.world ++ new)
        × (map M.start_address (map (λ (r : M.Page × M.Frame). r.0) new)
            ≡ page_starts 32 (heap_start / page_size))
  unfolding Ready
  init_heap-maps s t e =
      let h = subst (Holds Top (Ready s)) e ((Triple-init_heap s).at s refl) in
      (
        h.0,
        h.1,
        h.2,
        ap (λ (ps : List M.Page). map M.start_address ps) h.3
            ∙ M.range-starts heap_start (heap_start + heap_size - 1),
      )
