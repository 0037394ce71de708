-- ===== src/Upstream/Refinement.antt =====
-- The upstream pool as a slab pool, where its connections are only looked at for `allocated`.
use route_lang.Common.{
  length, ℕ, zero, suc, ◌-◌, ◌<◌, ◌≡◌, ◌==◌, ◌||◌, not, refl, ap, sym, ◌∙◌, Bool, true, false,
  Option, none, some, List, [], ◌∷◌, map, get_or, set, set-get_or, take, leb, contains, nodup,
  nodup-length, length-take, arith, inl, inr, Bool-cases, replicate,
}
use route_lang.Pool.{SlabPool, fill, alloc_with_id}
use route_lang.Pool
use route_lang.Pool.Invariant.{IsPool}
use route_lang.Upstream.{
  UpstreamConn, empty_conn, max_conns, UpstreamPool, init, conn_at, is_open, alloc, free, find_from,
  take_found, find_idle, return_idle, reset_all, shutdown,
}

abbrev pub is_allocated : UpstreamConn → Bool
is_allocated c = c.allocated

-- What is forgotten is what the connections are used for.
abbrev pub slab : UpstreamPool → SlabPool
slab p = record {
  free_stack = p.free_stack;
  in_use_map = map is_allocated p.conns;
  free_top = p.free_top;
}

map-set :
    (cs : List UpstreamConn) (i : ℕ) (c : UpstreamConn)
    → map is_allocated (set cs i c) ≡ set (map is_allocated cs) i c.allocated
map-set [] i c = refl
map-set (d ∷ cs) zero c = refl
map-set (d ∷ cs) (suc i) c = ap (◌∷◌ d.allocated) (map-set cs i c)

get_or-map :
    (cs : List UpstreamConn) (i : ℕ)
    → get_or (map is_allocated cs) i false ≡ (get_or cs i empty_conn).allocated
get_or-map [] i = refl
get_or-map (d ∷ cs) zero = refl
get_or-map (d ∷ cs) (suc i) = get_or-map cs i

-- `alloc` takes the object that the slab pool takes.
pub slab-alloc :
    (p : UpstreamPool)
    → (slab (alloc p).0 ≡ (alloc_with_id (slab p)).0) × ((alloc p).1 ≡ (alloc_with_id (slab p)).1)
unfolding alloc alloc_with_id
slab-alloc p = elim (Bool-cases (p.free_top == 0)) [
  | inl empty ↦ rw empty (refl, refl)
  | inr some_left ↦ rw some_left (
    ap (λ m. record { free_stack = p.free_stack; in_use_map = m; free_top = p.free_top - 1 })
        (map-set p.conns (get_or p.free_stack (p.free_top - 1) 0)
          (record { fd = none; upstream_id = 0; idle = false; allocated = true })),
    refl,
  )
]

abbrev held : UpstreamPool → List ℕ
held p = take p.free_top p.free_stack

-- While a connection is in use the free stack has room.
room_lem :
    (p : UpstreamPool) (i : ℕ)
    → IsPool max_conns (slab p)
    → i < max_conns
    → (conn_at p i).allocated ≡ true
    → p.free_top < max_conns
room_lem p i w low used = omega (
  arith,
  nodup-length max_conns (i ∷ held p) once inside,
  length-take p.free_top p.free_stack,
  w.stack_size,
  w.top,
)
  where
    missing : contains i (held p) ≡ false
    missing = ground (arith, w.is_free i low, get_or-map p.conns i, used)

    once : nodup (i ∷ held p) ≡ true
    once = ground (arith, w.once, missing)

    inside : (a : ℕ) → contains a (i ∷ held p) ≡ true → a < max_conns
    inside a m = elim (Bool-cases (contains a (held p))) [
      | inl there ↦ w.inside a there
      | inr other ↦ ground (arith, m, other, low)
    ]

-- `free` gives back what the slab pool gives back.
pub slab-free :
    (p : UpstreamPool) (i : ℕ)
    → IsPool max_conns (slab p)
    → slab (free p i).0 ≡ route_lang.Pool.free max_conns (slab p) i
unfolding free route_lang.Pool.free
slab-free p i w = elim (Bool-cases (leb max_conns i)) [
  | inl out ↦ ground (arith, out)
  | inr low ↦ elim (Bool-cases (conn_at p i).allocated) [
    | inr unused ↦ ground (arith, low, unused, get_or-map p.conns i)
    | inl used ↦ ground (
      arith,
      low,
      used,
      get_or-map p.conns i,
      room_lem p i w (ground (arith, low)) used,
      map-set p.conns i (record (conn_at p i) { fd = none; idle = false; allocated = false }),
    )
  ]
]

map-replicate : (n : ℕ) → map is_allocated (replicate n empty_conn) ≡ replicate n false
map-replicate zero = refl
map-replicate (suc n) = ap (◌∷◌ false) (map-replicate n)

pub slab-init : slab init ≡ route_lang.Pool.init max_conns
unfolding init route_lang.Pool.init
slab-init =
    ap (λ m. record { free_stack = fill max_conns; in_use_map = m; free_top = max_conns })
      (map-replicate max_conns)

reset_all-replicate :
    (cs : List UpstreamConn)
    → map is_allocated (reset_all cs) ≡ replicate (length (map is_allocated cs)) false
unfolding reset_all
reset_all-replicate [] = refl
reset_all-replicate (c ∷ cs) = ap (◌∷◌ false) (reset_all-replicate cs)

slab-shutdown :
    (p : UpstreamPool)
    → IsPool max_conns (slab p)
    → slab (shutdown p).0 ≡ route_lang.Pool.init max_conns
unfolding shutdown route_lang.Pool.init
slab-shutdown p w =
    ap (λ m. record { free_stack = fill max_conns; in_use_map = m; free_top = max_conns })
      (reset_all-replicate p.conns ∙ ap (λ n. replicate n false) w.map_size)

-- A change of a connection that keeps `allocated`.
pub slab-kept :
    (p : UpstreamPool) (i : ℕ) (c : UpstreamConn)
    → c.allocated ≡ (conn_at p i).allocated
    → slab (record p { conns = set p.conns i c }) ≡ slab p
slab-kept p i c e =
    ap (λ m. record { free_stack = p.free_stack; in_use_map = m; free_top = p.free_top })
      (map-set p.conns i c
        ∙ ap (set (map is_allocated p.conns) i) (e ∙ sym (get_or-map p.conns i))
        ∙ set-get_or (map is_allocated p.conns) i false)

slab-find_idle : (p : UpstreamPool) (id : ℕ) → slab (find_idle p id).0 ≡ slab p
unfolding find_idle take_found
slab-find_idle p id = kept (find_from id 0 p.conns)
  where
    kept : (o : Option ℕ) → slab (take_found p o).0 ≡ slab p
    kept none = refl
    kept (some i) = slab-kept p i (record (conn_at p i) { idle = false }) refl

slab-return_idle : (p : UpstreamPool) (i : ℕ) → slab (return_idle p i) ≡ slab p
unfolding return_idle
slab-return_idle p i =
    elim (Bool-cases
      (leb max_conns i || (not (conn_at p i).allocated || not (is_open (conn_at p i).fd)))) [
        | inl refused ↦ rw refused refl
        | inr done ↦ rw done (slab-kept p i (record (conn_at p i) { idle = true }) refl)
      ]

-- What each operation is for the slab pool.
pub record Simulates (p : UpstreamPool) : Type 0 where
  pub allocates :
      (slab (alloc p).0 ≡ (alloc_with_id (slab p)).0) × ((alloc p).1 ≡ (alloc_with_id (slab p)).1)
  pub frees : (i : ℕ) → slab (free p i).0 ≡ route_lang.Pool.free max_conns (slab p) i
  pub finds : (upstream_id : ℕ) → slab (find_idle p upstream_id).0 ≡ slab p
  pub returns : (i : ℕ) → slab (return_idle p i) ≡ slab p
  pub shuts_down : slab (shutdown p).0 ≡ route_lang.Pool.init max_conns

-- On a pool whose free stack holds each connection that is not allocated exactly once, `alloc` and
-- `free` are those of a slab pool of 4096 objects, `find_idle` and `return_idle` change nothing of it,
-- and `shutdown` makes it new.
pub slab-Simulates : (p : UpstreamPool) → IsPool max_conns (slab p) → Simulates p
slab-Simulates p w = record {
  allocates = slab-alloc p;
  frees = λ i. slab-free p i w;
  finds = slab-find_idle p;
  returns = slab-return_idle p;
  shuts_down = slab-shutdown p w;
}
