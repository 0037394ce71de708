-- ===== src/Upstream/Tests.antt =====
-- A pool that is new, and one with an idle connection.
use route_lang.Common.{
  ℕ, zero, suc, ◌≡◌, ◌⊎◌, refl, sym, subst, true, false, none, some, [], ◌∷◌, All,
}
use route_lang.Pool.Invariant.{IsPool, init-IsPool}
use route_lang.Upstream.{
  max_conns, UpstreamPool, init, matches, alloc, free, find_idle, return_idle, shutdown, conn_at,
}
use route_lang.Upstream.Refinement.{slab-init, Simulates, slab-Simulates}
use route_lang.Upstream.Idle.{IdleOpen, Taken, find_idle-Taken, operations-IdleOpen}

slab-Simulates_example : Simulates init
slab-Simulates_example =
    slab-Simulates init (subst (IsPool max_conns) (sym slab-init) (init-IsPool max_conns))

abbrev one : UpstreamPool
one = record {
  conns =
      record { fd = some 5; upstream_id = 1; idle = true; allocated = true }
      ∷ record { fd = some 6; upstream_id = 2; idle = true; allocated = true }
      ∷ [];
  free_stack = [];
  free_top = 0;
}

one-IdleOpen : IdleOpen one
unfolding IdleOpen
one-IdleOpen zero h = (refl, refl)
one-IdleOpen (suc zero) h = (refl, refl)
one-IdleOpen (suc (suc i)) h = absurd cc

found-second : (find_idle one 2).1 ≡ some 1
unfolding find_idle
found-second = refl

find_idle-Taken_example :
    ((find_idle one 2 ≡ (one, none)) × All (λ c. matches 2 c ≡ false) one.conns)
    ⊎ ((i : ℕ) × ((find_idle one 2).1 ≡ some i) × Taken one (find_idle one 2).0 2 i)
find_idle-Taken_example = find_idle-Taken one 2 one-IdleOpen

operations-IdleOpen_example :
    IdleOpen init
    × IdleOpen (alloc one).0
    × ((i : ℕ) → IdleOpen (free one i).0)
    × ((upstream_id : ℕ) → IdleOpen (find_idle one upstream_id).0)
    × ((i : ℕ) → IdleOpen (return_idle one i))
    × IdleOpen (shutdown one).0
    × ((i : ℕ) → (conn_at (shutdown one).0 i).idle ≡ false)
operations-IdleOpen_example = operations-IdleOpen one one-IdleOpen
