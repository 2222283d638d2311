-- ===== src/SocketPool.antt =====
-- src/socket_pool.h: the sockets that a client or a server holds. A `shared_ptr` stands by the id of
-- its socket (`GetId`), which is what the pool compares.
pub mod Capacity
pub mod Clearing
use linear_cpp.Prelude.{
  ℕ, ◌^◌, ◌-◌, List, [], ◌∷◌, ◌++◌, Bool, ◌&&◌, ltb, leb, if◌then◌else◌, length, any, erase_first,
}
use linear_cpp.Prelude.Int.{ℤ, eq_ℤ, is_negative}
use linear_cpp.ErrorMap.{lnr_ok, lnr_einval, lnr_enospc}
use linear_cpp.Error.{Error, error}
use linear_cpp.Group.{Groups, leave_all}

pub record SocketPool : Type 0 where
  pub max : ℕ  -- size_t
  pub pool : List ℤ

-- The constructor's `max_(-1)`, a `size_t` of 64 bits.
unfoldable pub new : SocketPool
new = record { max = 2 ^ 64 - 1; pool = [] }

unfoldable pub set_max_limit : ℕ → SocketPool → SocketPool
set_max_limit max p = record p { max = max }

unfoldable pub add : ℤ → SocketPool → SocketPool × Error
add id p =
    if is_negative id
    then (p, error lnr_einval)
    else if ltb 0 p.max && leb p.max (length p.pool)
    then (p, error lnr_enospc)
    else if any (eq_ℤ id) p.pool
    then (p, error lnr_ok)
    else (record p { pool = p.pool ++ id ∷ [] }, error lnr_ok)

unfoldable pub remove : ℤ → SocketPool → SocketPool
remove id p = if is_negative id then p else record p { pool = erase_first (eq_ℤ id) p.pool }

-- The loop of `Clear`.
pub leave_each : List ℤ → Groups → Groups
leave_each [] groups = groups
leave_each (id ∷ ids) groups = leave_each ids (leave_all id groups)

unfoldable pub clear : SocketPool → Groups → SocketPool × Groups
unfolding leave_each
clear p groups = (record p { pool = [] }, leave_each p.pool groups)
