-- ===== src/Marching/Scan.antt =====
-- model3d/mc.go: squareSpacer.Scan, which passes the planes of a grid in pairs to a callback while other
-- goroutines sample the planes ahead in a ring of caches. A cache is busy from the start of its fetch
-- until its `Done` is received; to receive from a cache that is not busy waits for ever, which is `none`.
-- All indices are below the length of the ring, so the ring is a function of the index.
use model3d.Base.{
  ℕ, zero, suc, ◌+◌, ◌-◌, ◌%◌, ◌≤◌, ◌<◌, ◌≡◌, Bool, true, false, Option, none, some, List, [], ◌∷◌,
  ltb, nat_beq, if◌then◌else◌, nat_eq,
}

pub record AsyncCache : Type 0 where
  pub z : ℕ
  pub busy : Bool

abbrev Ring : Type 0
Ring = ℕ → AsyncCache

-- one call of the callback: its argument and what the two caches are at that time
pub record Call : Type 0 where
  pub z : ℕ
  pub bottom : AsyncCache
  pub top : AsyncCache

unfoldable pub put_cache : ℕ → AsyncCache → Ring → Ring
put_cache i c caches j = if nat_beq i j then c else caches j

unfoldable pub start_fetch : ℕ → ℕ → Ring → Ring
start_fetch i z caches = put_cache i (record { z = z; busy = true }) caches

unfoldable pub receive : ℕ → Ring → Option Ring
receive i caches =
    if (caches i).busy then some (put_cache i (record (caches i) { busy = false }) caches) else none

-- the loop, with `prev` for `nextZ - 1` and the number of rounds that are left
unfoldable pub scan_loop : ℕ → ℕ → ℕ → ℕ → Ring → Option (List Call)
unfolding receive start_fetch put_cache
scan_loop len zs zero prev caches = some []
scan_loop len zs (suc rounds) prev caches =
    let next = prev + 1 in
    elim (receive (next % len) caches) [
      | none ↦ none
      | some ready ↦
          let call : Call = record {
            z = next;
            bottom = ready (prev % len);
            top = ready (next % len);
          } in
          let ahead = next + len - 1 in
          let started = if ltb ahead zs then start_fetch (prev % len) ahead ready else ready in
          elim (scan_loop len zs rounds next started) [
            | none ↦ none
            | some calls ↦ some (call ∷ calls)
          ]
    ]

unfoldable pub scan : ℕ → ℕ → Option (List Call)
unfolding receive
scan max_procs zs =
    let num_gos = if ltb (zs - 1) max_procs then zs - 1 else max_procs in
    elim (receive 0 (λ i. record { z = i; busy = true })) [
      | none ↦ none
      | some caches ↦ scan_loop (num_gos + 1) zs (zs - 1) 0 caches
    ]

abbrev idle : ℕ → AsyncCache
idle z = record { z = z; busy = false }

-- the calls for the planes behind `prev`: each with the plane below it and its own, both sampled
abbrev pub pairs : ℕ → ℕ → List Call
pairs zero prev = []
pairs (suc n) prev =
    record { z = prev + 1; bottom = idle prev; top = idle (prev + 1) } ∷ pairs n (prev + 1)

-- the ring holds a window of planes: `prev` is sampled, and those above it are on their way
IsWindow : ℕ → ℕ → ℕ → Ring → Type 0
IsWindow len zs prev caches =
    (z : ℕ)
    → prev ≤ z
    → z < prev + len
    → z < zs
    → caches (z % len) ≡ record { z = z; busy = ltb prev z }

-- the ring after one round
abbrev next_ring : ℕ → ℕ → ℕ → Ring → Ring
next_ring len zs prev caches =
    let next = prev + 1 in
    let ahead = next + len - 1 in
    let ready = put_cache (next % len) (record (caches (next % len)) { busy = false }) caches in
    if ltb ahead zs then start_fetch (prev % len) ahead ready else ready

first_ring : ℕ → AsyncCache
unfolding put_cache
first_ring = put_cache 0 (idle 0) (λ i. record { z = i; busy = true })
