-- ===== src/Pool.antt =====
-- `SlabPool` of include/rut/runtime/slab_pool.h, after `init` has mapped its memory. An object is
-- its index, and `capacity` the template's `Cap`.
pub mod Invariant
mod Tests
use route_lang.Common.{
  ℕ, zero, suc, ◌+◌, ◌-◌, Bool, true, false, not, ◌||◌, Option, none, some, List, [], ◌∷◌, ◌++◌,
  leb, ◌==◌, if◌then◌else◌, get_or, set, replicate,
}

pub record SlabPool : Type 0 where
  pub free_stack : List ℕ
  pub in_use_map : List Bool
  pub free_top : ℕ

-- `for (i = 0; i < Cap; i++) free_stack[i] = i`.
pub fill : ℕ → List ℕ
fill zero = []
fill (suc n) = fill n ++ (n ∷ [])

unfoldable pub init : ℕ → SlabPool
unfolding fill
init capacity = record {
  free_stack = fill capacity;
  in_use_map = replicate capacity false;
  free_top = capacity;
}

-- `alloc_with_id`; `none` is the null pointer.
unfoldable pub alloc_with_id : SlabPool → SlabPool × Option ℕ
alloc_with_id p =
    let idx : ℕ = get_or p.free_stack (p.free_top - 1) 0 in
    if p.free_top == 0
    then (p, none)
    else (record p { free_top = p.free_top - 1; in_use_map = set p.in_use_map idx true }, some idx)

-- `free(u32 idx)`.
unfoldable pub free : ℕ → SlabPool → ℕ → SlabPool
free capacity p idx =
    if leb capacity idx || leb capacity p.free_top
    then p
    else if not (get_or p.in_use_map idx false)
    then p
    else record {
      free_stack = set p.free_stack p.free_top idx;
      in_use_map = set p.in_use_map idx false;
      free_top = p.free_top + 1;
    }
