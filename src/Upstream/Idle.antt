-- ===== src/Upstream/Idle.antt =====
-- Idle connections: find_idle and return_idle.
use route_lang.Common.{
  ℕ, zero, suc, ◌+◌, ◌-◌, ◌<◌, ◌≡◌, ◌≢◌, ◌⊎◌, ◌==◌, ◌||◌, not, refl, ap, sym, ◌∙◌, true, false,
  Option, none, some, List, [], ◌∷◌, length, get_or, get_or-set_self, get_or-set_ne,
  get_or-replicate, replicate, set, All, leb, arith, inl, inr, Bool-cases,
}
use route_lang.Upstream.{
  UpstreamConn, empty_conn, max_conns, UpstreamPool, conn_at, is_open, alloc, free, matches,
  find_from, take_found, find_idle, return_idle, init, reset_all, shutdown,
}

-- The first connection that matches.
record First (upstream_id : ℕ) (cs : List UpstreamConn) (k : ℕ) : Type 0 where
  inside : k < length cs
  fits : matches upstream_id (get_or cs k empty_conn) ≡ true
  first : (j : ℕ) → j < k → matches upstream_id (get_or cs j empty_conn) ≡ false

find_from-First :
    (upstream_id i : ℕ) (cs : List UpstreamConn)
    → ((find_from upstream_id i cs ≡ none) × All (λ c. matches upstream_id c ≡ false) cs)
      ⊎ ((k : ℕ) × (find_from upstream_id i cs ≡ some (i + k)) × First upstream_id cs k)
unfolding find_from
find_from-First id i [] = inl (refl, tt)
find_from-First id i (c ∷ cs) = elim (Bool-cases (matches id c)) [
  | inl here ↦ inr (
    0,
    rw here (ap some (omega arith)),
    record { inside = omega arith; fits = here; first = λ j h. absurd (omega arith) },
  )
  | inr other ↦ elim (find_from-First id (i + 1) cs) [
    | inl (nothing, all) ↦ inl (rw other nothing, (other, all))
    | inr (k, later, f) ↦ inr (
      suc k,
      rw other (later ∙ ap some (omega arith)),
      record { inside = omega (arith, f.inside); fits = f.fits; first = before other k f },
    )
  ]
]
  where
    before :
        matches id c ≡ false
        → (k : ℕ) → First id cs k
        → (j : ℕ) → j < suc k
        → matches id (get_or (c ∷ cs) j empty_conn) ≡ false
    before other k f zero h = other
    before other k f (suc j) h = f.first j (omega arith)

-- An idle connection is allocated and open.
unfoldable pub IdleOpen : UpstreamPool → Type 0
IdleOpen p =
    (i : ℕ)
    → (conn_at p i).idle ≡ true
    → ((conn_at p i).allocated ≡ true) × (is_open (conn_at p i).fd ≡ true)

-- What `find_idle` finds: the first connection that is idle, of the upstream and open; it is idle no
-- more and as it was otherwise.
pub record Taken (p q : UpstreamPool) (upstream_id i : ℕ) : Type 0 where
  pub was : matches upstream_id (conn_at p i) ≡ true
  pub allocated : (conn_at p i).allocated ≡ true
  pub first : (j : ℕ) → j < i → matches upstream_id (conn_at p j) ≡ false
  pub now : conn_at q i ≡ record (conn_at p i) { idle = false }
  pub others : (j : ℕ) → j ≢ i → conn_at q j ≡ conn_at p j

-- Where every idle connection is allocated and open, `find_idle` takes the first idle connection of
-- the upstream, or returns null, changing nothing, if there is none.
pub find_idle-Taken :
    (p : UpstreamPool) (upstream_id : ℕ)
    → IdleOpen p
    → ((find_idle p upstream_id ≡ (p, none)) × All (λ c. matches upstream_id c ≡ false) p.conns)
      ⊎ ((i : ℕ) × ((find_idle p upstream_id).1 ≡ some i)
          × Taken p (find_idle p upstream_id).0 upstream_id i)
unfolding find_idle take_found IdleOpen
find_idle-Taken p id w = elim (find_from-First id 0 p.conns) [
  | inl (nothing, all) ↦ inl (ap (take_found p) nothing, all)
  | inr (k, e, f) ↦
      let at : find_from id 0 p.conns ≡ some k = e ∙ ap some (omega arith) in
      inr (
        k,
        ap (λ o. (take_found p o).1) at,
        rw at (record {
          was = f.fits;
          allocated = (w k (ground (arith, f.fits))).0;
          first = f.first;
          now =
              get_or-set_self p.conns k (record (conn_at p k) { idle = false }) empty_conn f.inside;
          others = λ j ne.
              get_or-set_ne p.conns k j (record (conn_at p k) { idle = false }) empty_conn
                (λ e. ne (sym e));
        }),
      )
]

-- A connection that is idle only if it is allocated and open.
abbrev Sound : UpstreamConn → Type 0
Sound c = c.idle ≡ true → (c.allocated ≡ true) × (is_open c.fd ≡ true)

set-Sound :
    (cs : List UpstreamConn) (i : ℕ) (c : UpstreamConn)
    → ((j : ℕ) → Sound (get_or cs j empty_conn))
    → Sound c
    → (j : ℕ) → Sound (get_or (set cs i c) j empty_conn)
set-Sound [] i c w q j = w j
set-Sound (d ∷ cs) zero c w q zero = q
set-Sound (d ∷ cs) zero c w q (suc j) = w (suc j)
set-Sound (d ∷ cs) (suc i) c w q zero = w zero
set-Sound (d ∷ cs) (suc i) c w q (suc j) = set-Sound cs i c (λ k. w (suc k)) q j

init-IdleOpen : IdleOpen init
unfolding init IdleOpen
init-IdleOpen i h =
    let e : get_or (replicate max_conns empty_conn) i empty_conn ≡ empty_conn =
      get_or-replicate max_conns i empty_conn in
    cc (sym h ∙ ap (λ c. c.idle) e)

reset_all_idle :
    (cs : List UpstreamConn) (i : ℕ) → (get_or (reset_all cs) i empty_conn).idle ≡ false
unfolding reset_all
reset_all_idle [] i = refl
reset_all_idle (c ∷ cs) zero = refl
reset_all_idle (c ∷ cs) (suc i) = reset_all_idle cs i

shutdown_idle : (p : UpstreamPool) (i : ℕ) → (conn_at (shutdown p).0 i).idle ≡ false
unfolding shutdown
shutdown_idle p i = reset_all_idle p.conns i

shutdown-IdleOpen : (p : UpstreamPool) → IdleOpen (shutdown p).0
unfolding IdleOpen
shutdown-IdleOpen p i h = cc (sym h ∙ shutdown_idle p i)

module _ (p : UpstreamPool) (w : IdleOpen p) where
  alloc-IdleOpen : IdleOpen (alloc p).0
  unfolding alloc IdleOpen
  alloc-IdleOpen = elim (Bool-cases (p.free_top == 0)) [
    | inl empty ↦ rw empty w
    | inr some_left ↦ rw some_left (
        set-Sound p.conns (get_or p.free_stack (p.free_top - 1) 0)
          (record { fd = none; upstream_id = 0; idle = false; allocated = true }) w (λ h. cc))
  ]

  free-IdleOpen : (i : ℕ) → IdleOpen (free p i).0
  unfolding free IdleOpen
  free-IdleOpen i = elim (Bool-cases (leb max_conns i)) [
    | inl out ↦ rw out w
    | inr low ↦ elim (Bool-cases (conn_at p i).allocated) [
      | inr unused ↦ rw (low, unused) w
      | inl used ↦ elim (Bool-cases (leb max_conns p.free_top)) [
        | inl full ↦ rw (low, used, full) after
        | inr room ↦ rw (low, used, room) after
      ]
    ]
  ]
    where
      after :
          (j : ℕ)
          → Sound (
              get_or
                (set p.conns i
                  (record (conn_at p i) { fd = none; idle = false; allocated = false }))
                j
                empty_conn)
      after =
          set-Sound p.conns i (record (conn_at p i) { fd = none; idle = false; allocated = false })
            w (λ h. cc)

  find_idle-IdleOpen : (upstream_id : ℕ) → IdleOpen (find_idle p upstream_id).0
  unfolding find_idle take_found IdleOpen
  find_idle-IdleOpen id = kept (find_from id 0 p.conns)
    where
      kept : (o : Option ℕ) → IdleOpen (take_found p o).0
      kept none = w
      kept (some i) = set-Sound p.conns i (record (conn_at p i) { idle = false }) w (λ h. cc)

  return_idle-IdleOpen : (i : ℕ) → IdleOpen (return_idle p i)
  unfolding return_idle IdleOpen
  return_idle-IdleOpen i =
      elim (Bool-cases
        (leb max_conns i || (not (conn_at p i).allocated || not (is_open (conn_at p i).fd)))) [
          | inl refused ↦ rw refused w
          | inr done ↦ rw done (
              set-Sound p.conns i (record (conn_at p i) { idle = true }) w
                (λ h. (ground (arith, done), ground (arith, done))))
        ]

  -- In a new pool every idle connection is allocated and open, and every operation keeps that;
  -- behind `shutdown` none is idle.
  pub operations-IdleOpen :
      IdleOpen init
      × IdleOpen (alloc p).0
      × ((i : ℕ) → IdleOpen (free p i).0)
      × ((upstream_id : ℕ) → IdleOpen (find_idle p upstream_id).0)
      × ((i : ℕ) → IdleOpen (return_idle p i))
      × IdleOpen (shutdown p).0
      × ((i : ℕ) → (conn_at (shutdown p).0 i).idle ≡ false)
  operations-IdleOpen = (
    init-IdleOpen,
    alloc-IdleOpen,
    free-IdleOpen,
    find_idle-IdleOpen,
    return_idle-IdleOpen,
    shutdown-IdleOpen p,
    shutdown_idle p,
  )
