-- ===== src/Examples/Errors.antt =====
-- The theorems about errors (src/error.cpp), and about messages and callbacks, at concrete inputs.
use Prim.Native.String.{String}
use text.Mathlib.Text.{◌==◌ as str_eq}
use linear_cpp.Prelude.{
  ℕ, zero, suc, ◌≡◌, ◌≢◌, refl, ◌<◌, ◌≤◌, ◌==◌, Bool, true, false, not, ◌&&◌, ◌||◌, List, [], ◌∷◌,
  Bytes, codes, any, count, if◌then◌else◌, length, arith, Bool-cases, inl, inr, ==_iff,
}
use linear_cpp.Prelude.Int.{ℤ, pos, negsuc, eq_ℤ}
use linear_cpp.ErrorMap.{lnr_ok, lnr_unknown, lnr_etimedout, errno_map}
use linear_cpp.Error.{error, eq_error, from_status, message}
use linear_cpp.Error.RoundTrip.{
  entry, AreLabels, from_status-entry, from_status_other, from_status-ok,
}
use linear_cpp.SocketPool.{new}
use linear_cpp.Message.{Request, request, new_request, send_group, send_group_except}
use linear_cpp.Message.Sending.{after, msgid_distinct, send_group-member}
use linear_cpp.Group.{Groups}
use linear_cpp.Group.Membership.{IsWellFormed, member}
use linear_cpp.HandlerDelegate
use linear_cpp.HandlerDelegate.{HandlerDelegate, client, server}
use linear_cpp.HandlerDelegate.Dispatch.{
  has_response_closure, has_error_closure, length-message-failed,
}

-- Codes that number the names downwards from -1.
position : List (String × String) → String → ℕ
position [] name = 0
position ((n, text) ∷ m) name = if str_eq n name then 0 else suc (position m name)

abbrev tv : String → ℤ
tv name = negsuc (position errno_map name)

agree : ℕ → Bool
unfolding position
agree zero = true
agree (suc n) = (position errno_map (entry errno_map n).0 == n) && agree n

agree_all : agree 68 ≡ true
unfolding agree errno_map
agree_all = refl

agree-here : (n : ℕ) → agree (suc n) ≡ true → position errno_map (entry errno_map n).0 ≡ n
unfolding agree
agree-here n h = ground arith

agree_lem : (n i : ℕ) → agree n ≡ true → i < n → position errno_map (entry errno_map i).0 ≡ i
unfolding agree
agree_lem zero i h lt = absurd (omega arith)
agree_lem (suc n) i h lt = elim (Bool-cases (i == n)) [
  | inl e ↦ let same = (==_iff i n).0 e in rw same (agree-here n h)
  | inr e ↦ agree_lem n i (ground arith) (ground arith)
]

errno_map-length : length errno_map ≡ 68
unfolding errno_map
errno_map-length = refl

position_lem : (i : ℕ) → i < length errno_map → position errno_map (entry errno_map i).0 ≡ i
position_lem i lt = agree_lem 68 i agree_all (omega (arith, errno_map-length))

tv-AreLabels : AreLabels tv errno_map
tv-AreLabels = record {
  distinct = λ i j p q e.
      let same : position errno_map (entry errno_map i).0
          ≡ position errno_map (entry errno_map j).0 =
        cc in
      omega (arith, position_lem i p, position_lem j q, same);
  not_ok = λ i p e. cc;
}

abbrev detail_text : ℕ → String
detail_text n = "detail"

-- TV_EINVAL and so on: the first entry of the map.
from_status-entry_example :
    (from_status tv (tv (entry errno_map 0).0) ≡ error 1)
    × (message detail_text detail_text (from_status tv (tv (entry errno_map 0).0))
        ≡ (entry errno_map 0).1)
from_status-entry_example =
    from_status-entry tv detail_text detail_text tv-AreLabels 0 (omega (arith, errno_map-length))

from_status_other_example : from_status tv (pos 7) ≡ error lnr_unknown
from_status_other_example = from_status_other tv (pos 7) (λ e. cc) (λ i p e. cc)

from_status-ok_example : eq_error (from_status tv (negsuc 3)) (error lnr_ok) ≡ not true
from_status-ok_example = from_status-ok tv (negsuc 3)

-- Ids 0 and 4294967295 of a counter that wraps.
msgid_distinct_example :
    (new_request (after 0 4294967295) [] []).0.msgid
    ≢ (new_request (after 1 4294967295) [] []).0.msgid
msgid_distinct_example =
    msgid_distinct 4294967295 0 1 [] [] [] [] (omega arith) (omega arith) (omega arith)

abbrev room : Bytes
room = codes "room"

abbrev groups : Groups
groups = (room, pos 1 ∷ pos 2 ∷ pos 3 ∷ []) ∷ []

groups-IsWellFormed : IsWellFormed groups
groups-IsWellFormed = record {
  names_ordered = (tt, tt);
  sets_ordered = (((refl, (refl, tt)), ((refl, tt), (tt, tt))), tt);
}

send_group-member_example :
    (any (eq_ℤ (pos 2)) (send_group room groups) ≡ member room (pos 2) groups)
    × (any (eq_ℤ (pos 2)) (send_group_except room (pos 1) groups)
        ≡ (not (eq_ℤ (pos 2) (pos 1)) && member room (pos 2) groups))
    × (count (eq_ℤ (pos 2)) (send_group room groups) ≤ 1)
    × (count (eq_ℤ (pos 2)) (send_group_except room (pos 1) groups) ≤ 1)
send_group-member_example = send_group-member room (pos 2) (pos 1) groups groups-IsWellFormed

-- A request with an error callback of its own, on a client whose handler is gone.
abbrev ask : Request
ask = record {
  msgid = 9;
  method = codes "m";
  params = [];
  timeout = pos 30000;
  has_response_callback = false;
  has_error_callback = true;
}

abbrev orphan : HandlerDelegate
orphan = record { owner = client; handler_alive = false; pool = new }

length-message-failed_example :
    (length (HandlerDelegate.message (pos 1) (request ask) orphan)
      ≡ (if has_response_closure (request ask) || false then 1 else 0))
    × (length (HandlerDelegate.failed (pos 1) (request ask) (error lnr_etimedout) orphan)
        ≡ (if has_error_closure (request ask) || false then 1 else 0))
length-message-failed_example =
    length-message-failed (pos 1) (request ask) (error lnr_etimedout) orphan
