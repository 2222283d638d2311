-- ===== src/Group/Order.antt =====
-- The groups stay in the order of `std::map` and `std::set` (src/group.cpp).
use linear_cpp.Prelude.{List, [], ◌∷◌, Bytes, arith}
use linear_cpp.Prelude.Int.{ℤ}
use linear_cpp.Ordered
use linear_cpp.Ordered.{int_order, bytes_order, lt_bytes}
use linear_cpp.Group.{Groups, join, leave, leave_scan, leave_all}
use linear_cpp.Group.Membership.{AreOrderedSets, IsWellFormed, leave_scan-erase}

modify-AreOrderedSets :
    (n : Bytes) (f : List ℤ → List ℤ) (groups : Groups)
    → ((xs : List ℤ) → Ordered.Set.IsOrdered xs → Ordered.Set.IsOrdered (f xs))
    → AreOrderedSets groups
    → AreOrderedSets (Ordered.Map.modify n [] f groups)
unfolding Ordered.Map.modify
modify-AreOrderedSets n f [] keep h = (keep [] tt, tt)
modify-AreOrderedSets n f ((m, xs) ∷ groups) keep h =
    ground (arith, keep [] tt, keep xs h.0, modify-AreOrderedSets n f groups keep h.1)

pub join-IsWellFormed :
    (n : Bytes) (s : ℤ) (groups : Groups) → IsWellFormed groups → IsWellFormed (join n s groups)
unfolding join
join-IsWellFormed n s groups w = record {
  names_ordered = Ordered.Map.modify-IsOrdered n [] (Ordered.Set.insert s) groups w.names_ordered;
  sets_ordered =
      modify-AreOrderedSets n (Ordered.Set.insert s) groups (Ordered.Set.insert-IsOrdered s)
        w.sets_ordered;
}

pub leave-IsWellFormed :
    (n : Bytes) (s : ℤ) (groups : Groups) → IsWellFormed groups → IsWellFormed (leave n s groups)
unfolding leave
leave-IsWellFormed n s groups w = record {
  names_ordered = Ordered.Map.modify-IsOrdered n [] (Ordered.Set.erase s) groups w.names_ordered;
  sets_ordered =
      modify-AreOrderedSets n (Ordered.Set.erase s) groups (Ordered.Set.erase-IsOrdered s)
        w.sets_ordered;
}

leave_scan-IsOrdered :
    (s : ℤ) (xs sockets : List ℤ)
    → Ordered.Set.IsOrdered sockets
    → Ordered.Set.IsOrdered (leave_scan s xs sockets)
leave_scan-IsOrdered s xs sockets h =
    ground (arith, leave_scan-erase s xs sockets, Ordered.Set.erase-IsOrdered s sockets h)

Above-leave_all :
    (n : Bytes) (s : ℤ) (groups : Groups)
    → Ordered.Map.Above n groups
    → Ordered.Map.Above n (leave_all s groups)
unfolding leave_all
Above-leave_all n s [] h = tt
Above-leave_all n s ((m, xs) ∷ groups) h = (h.0, Above-leave_all n s groups h.1)

leave_all-IsOrdered :
    (s : ℤ) (groups : Groups)
    → Ordered.Map.IsOrdered groups
    → Ordered.Map.IsOrdered (leave_all s groups)
unfolding leave_all
leave_all-IsOrdered s [] h = tt
leave_all-IsOrdered s ((m, xs) ∷ groups) h =
    (Above-leave_all m s groups h.0, leave_all-IsOrdered s groups h.1)

leave_all-AreOrderedSets :
    (s : ℤ) (groups : Groups) → AreOrderedSets groups → AreOrderedSets (leave_all s groups)
unfolding leave_all
leave_all-AreOrderedSets s [] h = tt
leave_all-AreOrderedSets s ((m, xs) ∷ groups) h =
    (leave_scan-IsOrdered s xs xs h.0, leave_all-AreOrderedSets s groups h.1)

pub leave_all-IsWellFormed :
    (s : ℤ) (groups : Groups) → IsWellFormed groups → IsWellFormed (leave_all s groups)
leave_all-IsWellFormed s groups w = record {
  names_ordered = leave_all-IsOrdered s groups w.names_ordered;
  sets_ordered = leave_all-AreOrderedSets s groups w.sets_ordered;
}
