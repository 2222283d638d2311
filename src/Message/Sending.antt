-- ===== src/Message/Sending.antt =====
-- Message ids and the reach of a notification (src/message.cpp).
use linear_cpp.Prelude.{
  ℕ, zero, suc, ◌+◌, ◌%◌, ◌^◌, ◌<◌, ◌≤◌, ◌≡◌, ◌≢◌, refl, ◌∙◌, ap, false, not, ◌&&◌, List, [], ◌∷◌,
  arith, any, count, Bytes,
}
use linear_cpp.Prelude.Int.{ℤ, eq_ℤ, eq_ℤ_iff}
use linear_cpp.Ordered
use linear_cpp.Ordered.{int_order, bytes_order, lt_ℤ}
use linear_cpp.Group.{Groups, get}
use linear_cpp.Group.Membership.{member, IsWellFormed, any-contains, find-IsOrdered}
use linear_cpp.Message.{get_id, new_request, send_except, send_group, send_group_except}

-- The counter after so many requests.
abbrev pub after : ℕ → ℕ → ℕ
after zero id = id
after (suc n) id = get_id (after n id)

after-mod : (n id : ℕ) → id < 2 ^ 32 → after n id ≡ (id + n) % 2 ^ 32
unfolding get_id
after-mod zero id h = omega arith
after-mod (suc n) id h = omega (arith, after-mod n id h)

-- Two requests of one process have different ids, unless a multiple of 2 ^ 32 requests lies between
-- them: the m-th and the n-th after any value of the counter, where m < n < m + 2 ^ 32.
pub msgid_distinct :
    (id m n : ℕ) (p q p' q' : Bytes)
    → id < 2 ^ 32
    → m < n
    → n < m + 2 ^ 32
    → (new_request (after m id) p q).0.msgid ≢ (new_request (after n id) p' q').0.msgid
unfolding new_request get_id
msgid_distinct id m n p q p' q' h lt near e = omega (arith, after-mod m id h, after-mod n id h, e)

send_except-any :
    (t except : ℤ) (xs : List ℤ)
    → any (eq_ℤ t) (send_except except xs) ≡ (not (eq_ℤ t except) && any (eq_ℤ t) xs)
unfolding send_except
send_except-any t except [] = ground arith
send_except-any t except (x ∷ xs) =
    ground (arith, send_except-any t except xs, eq_ℤ_iff t x, eq_ℤ_iff x except, eq_ℤ_iff t except)

count-send_except :
    (t except : ℤ) (xs : List ℤ) → count (eq_ℤ t) (send_except except xs) ≤ count (eq_ℤ t) xs
unfolding send_except
count-send_except t except [] = omega arith
count-send_except t except (x ∷ xs) = ground (arith, count-send_except t except xs)

count-Above :
    (t x : ℤ) (xs : List ℤ) → Ordered.Set.Above x xs → lt_ℤ x t ≡ false → count (eq_ℤ t) xs ≡ 0
count-Above t x [] h lt = refl
count-Above t x (y ∷ xs) h lt = ground (arith, count-Above t x xs h.1, eq_ℤ_iff t y)

count-set : (t : ℤ) (xs : List ℤ) → Ordered.Set.IsOrdered xs → count (eq_ℤ t) xs ≤ 1
count-set t [] h = omega arith
count-set t (x ∷ xs) h =
    ground (arith, count-set t xs h.1, count-Above t x xs h.0, eq_ℤ_iff t x, lt_irrefl x)
  where
    lt_irrefl : (a : ℤ) → lt_ℤ a a ≡ false
    lt_irrefl a = ground arith

-- A notification to a group with an exception goes to exactly the members of the group other than
-- the exception, once to each; without an exception, to every member once.
pub send_group-member :
    (name : Bytes) (t except : ℤ) (groups : Groups)
    → IsWellFormed groups
    → (any (eq_ℤ t) (send_group name groups) ≡ member name t groups)
      × (any (eq_ℤ t) (send_group_except name except groups)
          ≡ (not (eq_ℤ t except) && member name t groups))
      × (count (eq_ℤ t) (send_group name groups) ≤ 1)
      × (count (eq_ℤ t) (send_group_except name except groups) ≤ 1)
unfolding send_group send_group_except get
send_group-member name t except groups w =
    let ordered = find-IsOrdered name groups w.sets_ordered in
    (
      any-contains t (get name groups) ordered,
      send_except-any t except (get name groups)
          ∙ ap (λ b. not (eq_ℤ t except) && b) (any-contains t (get name groups) ordered),
      count-set t (get name groups) ordered,
      ground (
        arith,
        count-send_except t except (get name groups),
        count-set t (get name groups) ordered,
      ),
    )
