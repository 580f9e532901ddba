-- ===== src/Memory/Frames.antt =====
-- The frames that the memory map gives (kernel/src/memory.rs, `usable_frames`).
pub mod Allocate
use riptide.Prelude.{
  ℕ, zero, suc, ◌+◌, ◌-◌, ◌*◌, ◌/◌, ◌%◌, ◌≤◌, ◌<◌, ◌≡◌, refl, Bool, true, false, Option, none, some,
  List, [], ◌∷◌, ◌++◌, ltb, arith, All, if◌then◌else◌, Bool-cases, inl, inr, ◌⊎◌,
}
use mathlib.Core.Path.{subst}
use riptide.Memory.{MemoryRegion, page_size, step_by, region_addresses, frame_addresses, nth}

-- The regions are in ascending order, do not overlap, and begin at a multiple of the page size: what
-- `BootInfoFrameAllocator::init` asks for as a valid memory map.
abbrev pub IsValid : ℕ → List MemoryRegion → Type 0
IsValid from [] = Unit
IsValid from (r ∷ rs) =
    (from ≤ r.start_addr)
    × (r.start_addr % page_size ≡ 0)
    × (r.start_addr ≤ r.end_addr)
    × IsValid r.end_addr rs

-- The addresses ascend, from `from` on, in steps of a page at least.
abbrev pub Ascends : ℕ → List ℕ → Type 0
Ascends from [] = Unit
Ascends from (a ∷ addresses) = (from ≤ a) × (a % page_size ≡ 0) × Ascends (a + 1) addresses

Ascends-weaken : (from later : ℕ) (xs : List ℕ) → from ≤ later → Ascends later xs → Ascends from xs
Ascends-weaken from later [] h a = tt
Ascends-weaken from later (x ∷ xs) h a = (omega (arith, h, a.0), a.1, a.2)

step_by-Ascends :
    (fuel from start end later : ℕ) (rest : List ℕ)
    → start % page_size ≡ 0
    → from ≤ start
    → from ≤ later
    → end ≤ later
    → Ascends later rest
    → Ascends from (step_by fuel start end ++ rest)
unfolding step_by
step_by-Ascends zero from start end later rest e h k l a = Ascends-weaken from later rest k a
step_by-Ascends (suc fuel) from start end later rest e h k l a = elim (Bool-cases (ltb start end)) [
  | inl f ↦ rw f (
    h,
    e,
    step_by-Ascends fuel (start + 1) (start + page_size) end later rest (omega (arith, e))
        (omega arith) (ground (arith, f, l)) l a,
  )
  | inr f ↦ rw f (Ascends-weaken from later rest k a)
]

-- The frames of a valid memory map ascend.
pub frame_addresses-Ascends :
    (from : ℕ) (map : List MemoryRegion) → IsValid from map → Ascends from (frame_addresses map)
unfolding frame_addresses region_addresses
frame_addresses-Ascends from [] h = tt
frame_addresses-Ascends from (r ∷ rs) h =
    let rest = frame_addresses-Ascends r.end_addr rs h.3 in
    elim (Bool-cases r.usable) [
      | inl u ↦ rw u (
          step_by-Ascends (r.end_addr - r.start_addr) from r.start_addr r.end_addr r.end_addr
            (frame_addresses rs) h.1 h.0 (omega (arith, h.0, h.2)) (omega arith) rest)
      | inr u ↦
          rw u (Ascends-weaken from r.end_addr (frame_addresses rs) (omega (arith, h.0, h.2)) rest)
    ]

nth-Ascends :
    (i from a : ℕ) (xs : List ℕ)
    → Ascends from xs
    → nth i xs ≡ some a
    → (from ≤ a) × (a % page_size ≡ 0)
unfolding nth
nth-Ascends i from a [] h e = absurd (ground (arith, e))
nth-Ascends zero from a (x ∷ xs) h e =
    let same : x ≡ a = ground (arith, e) in (rw (← same) h.0, rw (← same) h.1)
nth-Ascends (suc i) from a (x ∷ xs) h e =
    let r = nth-Ascends i (x + 1) a xs h.2 e in (omega (arith, r.0, h.0), r.1)

nth-ascending :
    (i j from a b : ℕ) (xs : List ℕ)
    → Ascends from xs
    → i < j
    → nth i xs ≡ some a
    → nth j xs ≡ some b
    → a < b
unfolding nth
nth-ascending i j from a b [] h l e f = absurd (ground (arith, e))
nth-ascending zero zero from a b (x ∷ xs) h l e f = absurd (omega (arith, l))
nth-ascending zero (suc j) from a b (x ∷ xs) h l e f =
    let r = nth-Ascends j (x + 1) b xs h.2 f in
    let same : x ≡ a = ground (arith, e) in omega (arith, r.0, same)
nth-ascending (suc i) zero from a b (x ∷ xs) h l e f = absurd (omega (arith, l))
nth-ascending (suc i) (suc j) from a b (x ∷ xs) h l e f =
    nth-ascending i j (x + 1) a b xs h.2 (omega (arith, l)) e f

-- An address within a usable region.
abbrev pub IsUsable : ℕ → List MemoryRegion → Type 0
IsUsable a [] = ⊥
IsUsable a (r ∷ rs) = ((r.usable ≡ true) × (r.start_addr ≤ a) × (a < r.end_addr)) ⊎ IsUsable a rs

nth-All : (P : ℕ → Type 0) (i a : ℕ) (xs : List ℕ) → All P xs → nth i xs ≡ some a → P a
unfolding nth
nth-All P i a [] h e = absurd (ground (arith, e))
nth-All P zero a (x ∷ xs) h e = subst P (ground (arith, e)) h.0
nth-All P (suc i) a (x ∷ xs) h e = nth-All P i a xs h.1 e

All-append : (P : ℕ → Type 0) (xs ys : List ℕ) → All P xs → All P ys → All P (xs ++ ys)
All-append P [] ys h k = k
All-append P (x ∷ xs) ys h k = (h.0, All-append P xs ys h.1 k)

All-map : (P Q : ℕ → Type 0) (xs : List ℕ) → ((a : ℕ) → P a → Q a) → All P xs → All Q xs
All-map P Q [] f h = tt
All-map P Q (x ∷ xs) f h = (f x h.0, All-map P Q xs f h.1)

step_by-within :
    (fuel from start end : ℕ)
    → from ≤ start
    → All (λ a. (from ≤ a) × (a < end)) (step_by fuel start end)
unfolding step_by
step_by-within zero from start end h = tt
step_by-within (suc fuel) from start end h = elim (Bool-cases (ltb start end)) [
  | inl f ↦
      rw f (
        (h, ground (arith, f)),
        step_by-within fuel from (start + page_size) end (omega (arith, h)),
      )
  | inr f ↦ rw f tt
]

All-if :
    (P : ℕ → Type 0) (b : Bool) (xs ys : List ℕ)
    → (b ≡ true → All P xs)
    → All P ys
    → All P (if b then xs else ys)
All-if P true xs ys h k = h refl
All-if P false xs ys h k = k

-- Every address of a frame lies in a usable region.
frame_addresses-IsUsable :
    (map : List MemoryRegion) → All (λ a. IsUsable a map) (frame_addresses map)
unfolding frame_addresses region_addresses
frame_addresses-IsUsable [] = tt
frame_addresses-IsUsable (r ∷ rs) =
    let Here : ℕ → Type 0 = λ a. IsUsable a (r ∷ rs) in
    let own = step_by (r.end_addr - r.start_addr) r.start_addr r.end_addr in
    let rest =
      All-map (λ a. IsUsable a rs) Here (frame_addresses rs) (λ a h. inr h)
        (frame_addresses-IsUsable rs) in
    let within =
      step_by-within (r.end_addr - r.start_addr) r.start_addr r.start_addr r.end_addr
        (omega arith) in
    All-if Here r.usable (own ++ frame_addresses rs) (frame_addresses rs)
      (λ u.
        All-append Here own (frame_addresses rs)
          (All-map (λ a. (r.start_addr ≤ a) × (a < r.end_addr)) Here own (λ a h. inl (u, h.0, h.1))
            within)
          rest)
      rest

pub nth-IsUsable :
    (i a : ℕ) (map : List MemoryRegion) → nth i (frame_addresses map) ≡ some a → IsUsable a map
nth-IsUsable i a map e =
    nth-All (λ a. IsUsable a map) i a (frame_addresses map) (frame_addresses-IsUsable map) e
