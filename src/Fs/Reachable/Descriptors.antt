-- ===== src/Fs/Reachable/Descriptors.antt =====
-- The descriptors that `open` (kernel/src/fs/vfs.rs) gives out in the states that the kernel reaches.
use riptide.Prelude.{ℕ, suc, ◌+◌, ◌≤◌, ◌≡◌, ◌≢◌, refl, none, List, Bytes, length, arith}
use mathlib.Core.Path.{subst}
use riptide.BTreeMap.{lookup}
use riptide.BTreeMap.Keys.{nat_key}
use riptide.Fs.Types.{FileMode, word_max}
use riptide.Fs.State.{Vfs, ok, boot}
use riptide.Fs.State.Keeps.{Holds, Triple-bind, Triple-weaken, Top}
use riptide.Fs.Init.{start}
use riptide.Fs.Files.{open_path}
use riptide.Fs.Files.Descriptors.{open_path-new}
use riptide.Fs.Calls.{Call, serve}
use riptide.Fs.Calls.Descriptors.{Below}
use riptide.Fs.Calls.Reserved.{and_calls, and_calls_lem, serve-Below, start-Below}
use riptide.Fs.Reachable.{serve_from_boot}

boot-Below : (k : ℕ) → k + 1 ≤ word_max → Below k boot
unfolding lookup
boot-Below k h = (λ fd q. refl, omega (arith, h))

serve_from_boot-Below :
    (k : ℕ) (cs : List Call) (s : Vfs)
    → length cs + k + 2 ≤ word_max
    → serve_from_boot cs boot ≡ (ok tt, s)
    → Below k s
unfolding serve_from_boot
serve_from_boot-Below k cs s fits e =
    let j = and_calls k cs in
    subst (Holds Top (λ _. Below k)) e (
      (Triple-bind {P = Top} start (λ _. serve cs)
          (Triple-weaken start (λ s h. h) (λ s h. tt) (λ a s h. h) (start-Below j))
          (λ u. Triple-weaken (serve cs) (λ s h. h) (λ s h. tt) (λ a s h. h) (serve-Below k cs))).at
        boot (boot-Below (suc j) (omega (arith, and_calls_lem k cs, fits))))

-- A descriptor that `open` returns is not in use, in every state that the kernel reaches with fewer
-- than 2^64 - 3 calls of the VFS, and every other descriptor stands for what it stood for.
pub open_path-unused :
    (cs : List Call) (path : Bytes) (mode : FileMode) (fd : ℕ) (s s2 : Vfs)
    → length cs + 3 ≤ word_max
    → serve_from_boot cs boot ≡ (ok tt, s)
    → open_path path mode s ≡ (ok fd, s2)
    → (lookup fd s.files ≡ none)
      × ((other : ℕ) → other ≢ fd → lookup other s2.files ≡ lookup other s.files)
open_path-unused cs path mode fd s s2 fits reached opened =
    let below = serve_from_boot-Below 1 cs s (omega (arith, fits)) reached in
    let new = open_path-new path mode fd s s2 below.0 (omega (arith, below.1)) opened in
    (new.0, new.1)
