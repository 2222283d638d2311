-- ===== src/SocketPool/Clearing.antt =====
-- `Clear` of src/socket_pool.h takes the pool's sockets out of every group.
use linear_cpp.Prelude.{◌≡◌, refl, ◌&&◌, not, List, [], ◌∷◌, Bytes, arith, any}
use linear_cpp.Prelude.Int.{ℤ, eq_ℤ}
use linear_cpp.Group.{Groups, leave_all}
use linear_cpp.Group.Membership.{member, IsWellFormed, leave_all-member}
use linear_cpp.Group.Order.{leave_all-IsWellFormed}
use linear_cpp.SocketPool.{SocketPool, leave_each, clear}

leave_each-member :
    (n : Bytes) (t : ℤ) (ids : List ℤ) (groups : Groups)
    → IsWellFormed groups
    → member n t (leave_each ids groups) ≡ (not (any (eq_ℤ t) ids) && member n t groups)
unfolding leave_each
leave_each-member n t [] groups w = refl
leave_each-member n t (id ∷ ids) groups w = ground (
  arith,
  leave_each-member n t ids (leave_all id groups) (leave_all-IsWellFormed id groups w),
  leave_all-member n t id groups w.sets_ordered,
)

-- After `Clear` the pool is empty, no group holds a socket that the pool held, and every other
-- socket is in the groups in which it was.
pub clear-member :
    (n : Bytes) (t : ℤ) (p : SocketPool) (groups : Groups)
    → IsWellFormed groups
    → ((clear p groups).0.pool ≡ [])
      × (member n t (clear p groups).1 ≡ (not (any (eq_ℤ t) p.pool) && member n t groups))
unfolding clear
clear-member n t p groups w = (refl, leave_each-member n t p.pool groups w)
