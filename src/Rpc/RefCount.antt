-- ===== src/Rpc/RefCount.antt =====
-- src/rpc/refcount.ts and src/rpc/ref.ts: a client that is shared by counted references. A
-- reference is the index of its close state in `closed`; the count is the field `refs`.
pub mod Lifetime
use capnp_es.Prelude.{
  ℕ, zero, suc, ◌+◌, ◌-◌, ◌≤◌, ◌<◌, ◌≡◌, refl, ◌==◌, ltb, leb, if◌then◌else◌, Bool, true, false,
  List, [], ◌∷◌, ◌++◌, length, get_elem?, set, Option, none, some, arith,
}
use capnp_es.Errors.{Error, rpc_zero_ref, Result, ok, err}

pub record RefCount : Type 0 where
  pub refs : ℕ
  -- the close states of the references, in the order of their creation
  pub closed : List Bool
  -- how often `close` of the client was called
  pub client_closes : ℕ

-- `newRef`: a reference with its own close state, whose index is the result.
unfoldable pub new_ref : RefCount → ℕ × RefCount
new_ref rc = (length rc.closed, record rc { closed = rc.closed ++ (false ∷ []) })

-- `RefCount.new`: the counter starts at one, and there is one reference.
unfoldable pub new_ref_count : ℕ × RefCount
unfolding new_ref
new_ref_count = new_ref (record { refs = 1; closed = []; client_closes = 0 })

unfoldable pub ref : RefCount → Result (ℕ × RefCount)
ref rc = if leb rc.refs 0 then err rpc_zero_ref else ok (new_ref (record rc { refs = rc.refs + 1 }))

-- `refs--`, and the client is closed where that gives 0. (Below 0 the count would be negative; no
-- reference leads there, since an open one is counted.)
unfoldable pub decref : RefCount → RefCount
decref rc =
    if rc.refs == 1
    then record rc { refs = rc.refs - 1; client_closes = rc.client_closes + 1 }
    else record rc { refs = rc.refs - 1 }

-- `Ref.close`, and the callback that the reference gives to `finalize`, which is the same code.
unfoldable pub close_state : Option Bool → ℕ → RefCount → RefCount
close_state none r rc = rc
close_state (some true) r rc = rc
close_state (some false) r rc = decref (record rc { closed = set rc.closed r true })

unfoldable pub close : ℕ → RefCount → RefCount
unfolding close_state
close r rc = close_state (get_elem? rc.closed r) r rc
