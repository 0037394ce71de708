-- ===== src/Pool/Invariant.antt =====
-- The free stack holds each object that is not in use, once.
use route_lang.Common.{
  take-suc, ℕ, zero, suc, ◌+◌, ◌-◌, ◌≤◌, ◌<◌, ◌==◌, ◌≡◌, ◌⊎◌, refl, ap, subst, ◌∙◌, true, false,
  not, ◌||◌, none, some, List, [], ◌∷◌, ◌++◌, leb, length, get_or, set, take, contains,
  contains-append, nodup, nodup-snoc, length-set, length-append, ltb, take-length, set-set,
  set-get_or, get_or-replicate, length-replicate, get_or-set_self, get_or-set_ne, arith, inl, inr,
  Bool-cases,
}
use route_lang.Pool.{SlabPool, fill, init, alloc_with_id, free}

pub record IsPool (capacity : ℕ) (p : SlabPool) : Type 0 where
  pub stack_size : length p.free_stack ≡ capacity
  pub map_size : length p.in_use_map ≡ capacity
  pub top : p.free_top ≤ capacity
  pub once : nodup (take p.free_top p.free_stack) ≡ true
  pub inside : (i : ℕ) → contains i (take p.free_top p.free_stack) ≡ true → i < capacity
  pub is_free :
      (i : ℕ)
      → i < capacity
      → contains i (take p.free_top p.free_stack) ≡ not (get_or p.in_use_map i false)

take-set :
    (xs : List ℕ) (n a : ℕ) → n < length xs → take (suc n) (set xs n a) ≡ take n xs ++ (a ∷ [])
take-set [] n a h = absurd (omega arith)
take-set (x ∷ xs) zero a h = refl
take-set (x ∷ xs) (suc n) a h = ap (◌∷◌ x) (take-set xs n a (omega arith))

snoc-nodup :
    (xs : List ℕ) (a : ℕ)
    → nodup (xs ++ (a ∷ [])) ≡ true
    → (nodup xs ≡ true) × (contains a xs ≡ false)
snoc-nodup [] a h = (refl, refl)
snoc-nodup (x ∷ xs) a h = ground (arith, snoc-nodup xs a, contains-append x xs (a ∷ []))

-- What `alloc_with_id` does: with no free object nothing, else it takes one that was not in use.
pub record Allocated (capacity : ℕ) (p q : SlabPool) (idx : ℕ) : Type 0 where
  pub pool : IsPool capacity q
  pub valid : idx < capacity
  pub was_free : get_or p.in_use_map idx false ≡ false
  pub taken : q.in_use_map ≡ set p.in_use_map idx true
  pub fewer : p.free_top ≡ q.free_top + 1

module _ (capacity : ℕ) (p : SlabPool) (w : IsPool capacity p) where
  module _ (n : ℕ) (e : p.free_top ≡ suc n) where
    abbrev idx : ℕ
    idx = get_or p.free_stack n 0

    abbrev rest : List ℕ
    rest = take n p.free_stack

    stack : take p.free_top p.free_stack ≡ rest ++ (idx ∷ [])
    stack = rw e (take-suc p.free_stack n 0 (omega (arith, w.stack_size, w.top)))

    split : (nodup rest ≡ true) × (contains idx rest ≡ false)
    split = snoc-nodup rest idx (rw stack at w.once)

    valid : idx < capacity
    valid = w.inside idx (ground (arith, stack, contains-append idx rest (idx ∷ [])))

    abbrev after : SlabPool
    after = record p { free_top = n; in_use_map = set p.in_use_map idx true }

    after-is_free :
        (i : ℕ) → i < capacity → contains i rest ≡ not (get_or (set p.in_use_map idx true) i false)
    after-is_free i h = elim (Bool-cases (i == idx)) [
      | inl same ↦ ground (arith, split, w.map_size, get_or-set_self p.in_use_map idx true false)
      | inr other ↦ ground (
        arith,
        w.is_free i h,
        stack,
        contains-append i rest (idx ∷ []),
        get_or-set_ne p.in_use_map idx i true false,
      )
    ]

    after-IsPool : IsPool capacity after
    after-IsPool = record {
      stack_size = w.stack_size;
      map_size = length-set p.in_use_map idx true ∙ w.map_size;
      top = omega (arith, w.top);
      once = split.0;
      inside = λ i m. w.inside i (ground (arith, stack, contains-append i rest (idx ∷ [])));
      is_free = after-is_free;
    }

    after-Allocated : Allocated capacity p after idx
    after-Allocated = record {
      pool = after-IsPool;
      valid = valid;
      was_free = ground (arith, w.is_free idx valid, stack, contains-append idx rest (idx ∷ []));
      taken = refl;
      fewer = omega arith;
    }

    -- Freeing what was just allocated restores the pool.
    pub after-free : free capacity after idx ≡ p
    unfolding free
    after-free = ground (
      arith,
      w.map_size,
      w.top,
      valid,
      after-Allocated.was_free,
      get_or-set_self p.in_use_map idx true false,
      set-set p.in_use_map idx true false,
      set-get_or p.in_use_map idx false,
      set-get_or p.free_stack n 0,
    )

  -- `alloc_with_id` takes an object that was not in use and marks it, and fails, changing nothing,
  -- only if all objects are in use.
  pub alloc_with_id-Allocated :
      ((alloc_with_id p ≡ (p, none)) × (p.free_top ≡ 0))
      ⊎ ((idx : ℕ) × (q : SlabPool) × (alloc_with_id p ≡ (q, some idx))
          × Allocated capacity p q idx)
  unfolding alloc_with_id
  alloc_with_id-Allocated = elim (Bool-cases (p.free_top == 0)) [
    | inl empty ↦ inl (ground arith, ground arith)
    | inr some_left ↦
        let e : p.free_top ≡ suc (p.free_top - 1) = ground arith in
        inr (
          idx (p.free_top - 1) e,
          after (p.free_top - 1) e,
          ground arith,
          after-Allocated (p.free_top - 1) e,
        )
  ]

  -- An object that `alloc_with_id` returned and `free` takes back leaves the pool as it was.
  pub free-alloc_with_id :
      (i : ℕ) → (alloc_with_id p).1 ≡ some i → free capacity (alloc_with_id p).0 i ≡ p
  unfolding alloc_with_id
  free-alloc_with_id i h = elim (Bool-cases (p.free_top == 0)) [
    | inl empty ↦ absurd (ground arith)
    | inr some_left ↦
        let e : p.free_top ≡ suc (p.free_top - 1) = ground arith in
        let at : idx (p.free_top - 1) e ≡ i = ground arith in
        rw some_left (
          subst (λ k. free capacity (after (p.free_top - 1) e) k ≡ p) at
            (after-free (p.free_top - 1) e))
  ]

  module _ (i : ℕ) (low : i < capacity) (room : p.free_top < capacity)
      (used : get_or p.in_use_map i false ≡ true) where
    abbrev freed : SlabPool
    freed = record {
      free_stack = set p.free_stack p.free_top i;
      in_use_map = set p.in_use_map i false;
      free_top = p.free_top + 1;
    }

    freed_stack :
        take (p.free_top + 1) (set p.free_stack p.free_top i)
        ≡ take p.free_top p.free_stack ++ (i ∷ [])
    freed_stack =
        let next : suc p.free_top ≡ p.free_top + 1 = omega arith in
        subst
          (λ k. take k (set p.free_stack p.free_top i) ≡ take p.free_top p.free_stack ++ (i ∷ []))
          next (take-set p.free_stack p.free_top i (omega (arith, w.stack_size)))

    freed-is_free :
        (j : ℕ)
        → j < capacity
        → contains j (take (p.free_top + 1) (set p.free_stack p.free_top i))
          ≡ not (get_or (set p.in_use_map i false) j false)
    freed-is_free j h = elim (Bool-cases (j == i)) [
      | inl same ↦ ground (
        arith,
        freed_stack,
        contains-append j (take p.free_top p.free_stack) (i ∷ []),
        w.map_size,
        get_or-set_self p.in_use_map i false false,
      )
      | inr other ↦ ground (
        arith,
        freed_stack,
        contains-append j (take p.free_top p.free_stack) (i ∷ []),
        w.is_free j h,
        get_or-set_ne p.in_use_map i j false false,
      )
    ]

    freed-IsPool : IsPool capacity freed
    freed-IsPool = record {
      stack_size = length-set p.free_stack p.free_top i ∙ w.stack_size;
      map_size = length-set p.in_use_map i false ∙ w.map_size;
      top = omega arith;
      once = ground (
        arith,
        freed_stack,
        w.once,
        w.is_free i low,
        nodup-snoc (take p.free_top p.free_stack) i,
      );
      inside = λ j m. ground (
        arith,
        freed_stack,
        contains-append j (take p.free_top p.free_stack) (i ∷ []),
        w.inside j,
      );
      is_free = freed-is_free;
    }

  -- `free` keeps the invariant, whatever index it is given.
  pub free-IsPool : (i : ℕ) → IsPool capacity (free capacity p i)
  unfolding free
  free-IsPool i = elim (Bool-cases (leb capacity i || leb capacity p.free_top)) [
    | inl out ↦ rw out w
    | inr fits ↦ elim (Bool-cases (get_or p.in_use_map i false)) [
      | inl used ↦ rw (fits, used) (freed-IsPool i (ground arith) (ground arith) used)
      | inr unused ↦ rw (fits, unused) w
    ]
  ]

fill_lem :
    (n : ℕ)
    → (length (fill n) ≡ n) × (nodup (fill n) ≡ true) × ((i : ℕ) → contains i (fill n) ≡ ltb i n)
unfolding fill
fill_lem zero = (refl, refl, λ i. ground arith)
fill_lem (suc n) = (
  omega (arith, fill_lem n, length-append (fill n) (n ∷ [])),
  ground (arith, nodup-snoc (fill n) n, fill_lem n, (fill_lem n).2 n),
  λ i. ground (arith, contains-append i (fill n) (n ∷ []), (fill_lem n).2 i),
)

-- A pool that `init` has filled has every object free.
pub init-IsPool : (capacity : ℕ) → IsPool capacity (init capacity)
unfolding init
init-IsPool n = record {
  stack_size = (fill_lem n).0;
  map_size = length-replicate n false;
  top = omega arith;
  once = rw all (fill_lem n).1;
  inside = λ i m. ground (arith, all, (fill_lem n).2 i);
  is_free = λ i h. ground (arith, all, (fill_lem n).2 i, get_or-replicate n i false);
}
  where
    all : take n (fill n) ≡ fill n
    all = take-length (fill n) n (omega (arith, fill_lem n))
