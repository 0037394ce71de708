-- ===== src/Upstream.antt =====
-- include/rut/runtime/upstream_pool.h: the upstream connections of a shard. A connection is its
-- index; `fd` is `none` for -1. `close` is the list of descriptors that a call closes.
pub mod Refinement
pub mod Idle
mod Tests
use route_lang.Common.{
  ℕ, zero, suc, ◌+◌, ◌-◌, Bool, true, false, not, ◌&&◌, ◌||◌, Option, none, some, List, [], ◌∷◌,
  ◌++◌, leb, ◌==◌, if◌then◌else◌, get_or, set, replicate,
}
use route_lang.Pool.{fill}

pub record UpstreamConn : Type 0 where
  pub fd : Option ℕ
  pub upstream_id : ℕ
  pub idle : Bool
  pub allocated : Bool

abbrev pub empty_conn : UpstreamConn
empty_conn = record { fd = none; upstream_id = 0; idle = false; allocated = false }

abbrev pub max_conns : ℕ
max_conns = 4096

pub record UpstreamPool : Type 0 where
  pub conns : List UpstreamConn
  pub free_stack : List ℕ
  pub free_top : ℕ

unfoldable pub init : UpstreamPool
init = record {
  conns = replicate max_conns empty_conn;
  free_stack = fill max_conns;
  free_top = max_conns;
}

abbrev pub conn_at : UpstreamPool → ℕ → UpstreamConn
conn_at p i = get_or p.conns i empty_conn

-- `none` is the null pointer.
unfoldable pub alloc : UpstreamPool → UpstreamPool × Option ℕ
alloc p =
    let idx : ℕ = get_or p.free_stack (p.free_top - 1) 0 in
    if p.free_top == 0 then (p, none) else (
      record p {
        free_top = p.free_top - 1;
        conns =
            set p.conns idx (record { fd = none; upstream_id = 0; idle = false; allocated = true });
      },
      some idx,
    )

abbrev pub closed : Option ℕ → List ℕ
closed none = []
closed (some fd) = fd ∷ []

abbrev pub is_open : Option ℕ → Bool
is_open none = false
is_open (some fd) = true

-- The connection is reset and its descriptor closed before the test of `free_top`.
unfoldable pub free : UpstreamPool → ℕ → UpstreamPool × List ℕ
free p i =
    let c : UpstreamConn = conn_at p i in
    let conns : List UpstreamConn =
      set p.conns i (record c { fd = none; idle = false; allocated = false }) in
    if leb max_conns i
    then (p, [])
    else if not c.allocated
    then (p, [])
    else if leb max_conns p.free_top
    then (record p { conns = conns }, closed c.fd)
    else (
      record {
        conns = conns;
        free_stack = set p.free_stack p.free_top i;
        free_top = p.free_top + 1;
      },
      closed c.fd,
    )

abbrev pub matches : ℕ → UpstreamConn → Bool
matches upstream_id c = c.idle && (c.upstream_id == upstream_id && is_open c.fd)

-- The loop of `find_idle` from connection `i` on.
unfoldable pub find_from : ℕ → ℕ → List UpstreamConn → Option ℕ
find_from upstream_id i [] = none
find_from upstream_id i (c ∷ cs) =
    let later = find_from upstream_id (i + 1) cs in if matches upstream_id c then some i else later

-- What was found is busy from now on.
unfoldable pub take_found : UpstreamPool → Option ℕ → UpstreamPool × Option ℕ
take_found p none = (p, none)
take_found p (some i) =
    (record p { conns = set p.conns i (record (conn_at p i) { idle = false }) }, some i)

unfoldable pub find_idle : UpstreamPool → ℕ → UpstreamPool × Option ℕ
unfolding find_from take_found
find_idle p upstream_id = take_found p (find_from upstream_id 0 p.conns)

unfoldable pub return_idle : UpstreamPool → ℕ → UpstreamPool
return_idle p i =
    let c : UpstreamConn = conn_at p i in
    if leb max_conns i || (not c.allocated || not (is_open c.fd))
    then p
    else record p { conns = set p.conns i (record c { idle = true }) }

-- The descriptors that are open, in order.
unfoldable pub open_fds : List UpstreamConn → List ℕ
open_fds [] = []
open_fds (c ∷ cs) = closed c.fd ++ open_fds cs

-- The resets of the loop of `shutdown`, connection by connection.
unfoldable pub reset_all : List UpstreamConn → List UpstreamConn
reset_all [] = []
reset_all (c ∷ cs) =
    record c { fd = none; idle = false; allocated = false; upstream_id = 0 } ∷ reset_all cs

unfoldable pub shutdown : UpstreamPool → UpstreamPool × List ℕ
unfolding open_fds reset_all
shutdown p = (
  record { conns = reset_all p.conns; free_stack = fill max_conns; free_top = max_conns },
  open_fds p.conns,
)
