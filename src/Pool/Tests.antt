-- ===== src/Pool/Tests.antt =====
-- A pool of three objects.
use route_lang.Common.{ℕ, ◌≡◌, ◌⊎◌, refl, inl, inr, arith, none, some}
use route_lang.Pool.{SlabPool, init, alloc_with_id, free}
use route_lang.Pool.Invariant.{
  IsPool, Allocated, init-IsPool, alloc_with_id-Allocated, free-alloc_with_id, free-IsPool,
}

alloc-last : (alloc_with_id (init 3)).1 ≡ some 2
unfolding init alloc_with_id
alloc-last = refl

alloc_with_id-Allocated_example :
    ((alloc_with_id (init 3) ≡ (init 3, none)) × ((init 3).free_top ≡ 0))
    ⊎ ((idx : ℕ) × (q : SlabPool) × (alloc_with_id (init 3) ≡ (q, some idx))
        × Allocated 3 (init 3) q idx)
alloc_with_id-Allocated_example = alloc_with_id-Allocated 3 (init 3) (init-IsPool 3)

free-alloc_with_id_example : free 3 (alloc_with_id (init 3)).0 2 ≡ init 3
free-alloc_with_id_example = free-alloc_with_id 3 (init 3) (init-IsPool 3) 2 alloc-last

taken-IsPool : IsPool 3 (alloc_with_id (init 3)).0
unfolding init
taken-IsPool = elim (alloc_with_id-Allocated 3 (init 3) (init-IsPool 3)) [
  | inl (e, empty) ↦ absurd (omega arith)
  | inr (idx, q, e, a) ↦ rw e a.pool
]

free-IsPool_example : IsPool 3 (free 3 (alloc_with_id (init 3)).0 2)
free-IsPool_example = free-IsPool 3 (alloc_with_id (init 3)).0 taken-IsPool 2
