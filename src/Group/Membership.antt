-- ===== src/Group/Membership.antt =====
-- Who is in which group, after any calls of src/group.cpp.
use mathlib.Core.Option.{get_or}
use linear_cpp.Prelude.{
  ◌≡◌, refl, Bool, true, false, ◌&&◌, ◌||◌, not, List, [], ◌∷◌, if◌then◌else◌, Bytes, arith,
  eq_bytes, eq_bytes_iff, any,
}
use linear_cpp.Prelude.Int.{ℤ, eq_ℤ, eq_ℤ_iff}
use linear_cpp.Ordered
use linear_cpp.Ordered.{
  int_order, bytes_order, same_key, lt_ℤ, lt_bytes, lt_ℤ_irrefl, lt_ℤ_total, lt_bytes_irrefl,
  lt_bytes_total,
}
use linear_cpp.Group.{Groups, get, join, leave, leave_scan, leave_all}

-- Is the socket in the group?
abbrev pub member : Bytes → ℤ → Groups → Bool
member name socket groups = Ordered.Set.contains socket (get name groups)

-- Names increase, and each set is in the order of the ids.
abbrev pub AreOrderedSets : Groups → Type 0
AreOrderedSets [] = Unit {0}
AreOrderedSets ((name, sockets) ∷ groups) = Ordered.Set.IsOrdered sockets × AreOrderedSets groups

pub record IsWellFormed (groups : Groups) : Type 0 where
  pub names_ordered : Ordered.Map.IsOrdered groups
  pub sets_ordered : AreOrderedSets groups

same_id : (a b : ℤ) → same_key a b ≡ eq_ℤ a b
same_id a b = ground (arith, lt_ℤ_total a b, lt_ℤ_irrefl a, eq_ℤ_iff a b)

same_name : (a b : Bytes) → same_key a b ≡ eq_bytes a b
same_name a b = ground (arith, lt_bytes_total a b, lt_bytes_irrefl a, eq_bytes_iff a b)

lt_ℤ_asym : (a b : ℤ) → lt_ℤ a b ≡ true → lt_ℤ b a ≡ false
lt_ℤ_asym a b h = ground arith

pub contains-nil : (t : ℤ) → Ordered.Set.contains t [] ≡ false
unfolding Ordered.Set.contains
contains-nil t = refl

pub join-member :
    (n m : Bytes) (t s : ℤ) (groups : Groups)
    → member n t (join m s groups) ≡ ((eq_bytes n m && eq_ℤ t s) || member n t groups)
unfolding get join Ordered.Set.contains
join-member n m t s groups = ground (
  arith,
  Ordered.Map.find-modify n m [] (Ordered.Set.insert s) groups,
  Ordered.Set.contains-insert t s (get_or (Ordered.Map.find m groups) []),
  same_name n m,
  same_id t s,
  eq_bytes_iff n m,
)

-- A set that is found is one of the ordered ones.
pub find-IsOrdered :
    (n : Bytes) (groups : Groups)
    → AreOrderedSets groups
    → Ordered.Set.IsOrdered (get_or (Ordered.Map.find n groups) [])
unfolding Ordered.Map.find
find-IsOrdered n [] h = tt
find-IsOrdered n ((m, sockets) ∷ groups) h = ground (arith, find-IsOrdered n groups h.1)

pub leave-member :
    (n m : Bytes) (t s : ℤ) (groups : Groups)
    → IsWellFormed groups
    → member n t (leave m s groups) ≡ (not (eq_bytes n m && eq_ℤ t s) && member n t groups)
unfolding get leave Ordered.Set.contains
leave-member n m t s groups w = ground (
  arith,
  Ordered.Map.find-modify n m [] (Ordered.Set.erase s) groups,
  Ordered.Set.contains-erase t s (get_or (Ordered.Map.find m groups) [])
      (find-IsOrdered m groups w.sets_ordered),
  same_name n m,
  same_id t s,
  eq_bytes_iff n m,
)

-- The scan erases the socket if it meets it.
pub leave_scan-erase :
    (s : ℤ) (xs sockets : List ℤ)
    → leave_scan s xs sockets ≡ (if any (eq_ℤ s) xs then Ordered.Set.erase s sockets else sockets)
unfolding leave_scan
leave_scan-erase s [] sockets = refl
leave_scan-erase s (x ∷ xs) sockets = ground (arith, eq_ℤ_iff s x, leave_scan-erase s xs sockets)

pub any-contains :
    (s : ℤ) (xs : List ℤ) → Ordered.Set.IsOrdered xs → any (eq_ℤ s) xs ≡ Ordered.Set.contains s xs
unfolding Ordered.Set.contains
any-contains s [] h = refl
any-contains s (x ∷ xs) h = ground (
  arith,
  same_id s x,
  any-contains s xs h.1,
  Ordered.Set.contains-Above s x xs h.0,
  lt_ℤ_asym s x,
)

contains-leave_scan :
    (t s : ℤ) (xs : List ℤ)
    → Ordered.Set.IsOrdered xs
    → Ordered.Set.contains t (leave_scan s xs xs) ≡ (not (eq_ℤ t s) && Ordered.Set.contains t xs)
contains-leave_scan t s xs h = ground (
  arith,
  leave_scan-erase s xs xs,
  any-contains s xs h,
  Ordered.Set.contains-erase t s xs h,
  same_id t s,
  eq_ℤ_iff t s,
)

pub leave_all-member :
    (n : Bytes) (t s : ℤ) (groups : Groups)
    → AreOrderedSets groups
    → member n t (leave_all s groups) ≡ (not (eq_ℤ t s) && member n t groups)
unfolding get leave_all Ordered.Map.find
leave_all-member n t s [] h = unfold Ordered.Set.contains in ground arith
leave_all-member n t s ((m, xs) ∷ groups) h =
    ground
      (arith, leave_all-member n t s groups h.1, contains-leave_scan t s xs h.0, contains-nil t)
