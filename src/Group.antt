-- ===== src/Group.antt =====
-- src/group.cpp: the groups of sockets for multicast. A socket stands by its id, by which `Socket`
-- compares; a name stands by its bytes. The one pool of the process is passed as a value.
pub mod Membership
pub mod Order
pub mod History
use mathlib.Core.Option.{get_or}
use linear_cpp.Prelude.{List, [], ◌∷◌, map, if◌then◌else◌, Bytes, codes}
use linear_cpp.Prelude.Int.{ℤ, eq_ℤ}
use linear_cpp.Ordered
use linear_cpp.Ordered.{int_order, bytes_order}

-- `std::map<std::string, std::set<linear::Socket> >`.
abbrev pub Groups : Type 0
Groups = List (Bytes × List ℤ)

-- LINEAR_BROADCAST_GROUP.
abbrev pub broadcast_group : Bytes
broadcast_group = codes "$_broadcast_$"

unfoldable pub names : Groups → List Bytes
names groups = map (λ e. e.0) groups

unfoldable pub get : Bytes → Groups → List ℤ
get name groups = get_or (Ordered.Map.find name groups) []

unfoldable pub join : Bytes → ℤ → Groups → Groups
join name socket groups = Ordered.Map.modify name [] (Ordered.Set.insert socket) groups

unfoldable pub leave : Bytes → ℤ → Groups → Groups
leave name socket groups = Ordered.Map.modify name [] (Ordered.Set.erase socket) groups

-- The inner loop of `Leave(socket)`: from an iterator on, it erases the first socket of that id
-- from the whole set and stops.
pub leave_scan : ℤ → List ℤ → List ℤ → List ℤ
leave_scan socket [] sockets = sockets
leave_scan socket (s ∷ rest) sockets =
    if eq_ℤ socket s then Ordered.Set.erase s sockets else leave_scan socket rest sockets

unfoldable pub leave_all : ℤ → Groups → Groups
unfolding leave_scan
leave_all socket [] = []
leave_all socket ((name, sockets) ∷ groups) =
    (name, leave_scan socket sockets sockets) ∷ leave_all socket groups
