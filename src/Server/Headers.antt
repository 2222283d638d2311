-- ===== src/Server/Headers.antt =====
-- The headers of a handshake on the server's side, in and out (`OnAccept` of src/ws_server_impl.cpp and
-- src/wss_server_impl.cpp).
use linear_cpp.Prelude.{
  ◌≡◌, refl, ap, sym, Bool, true, false, ◌&&◌, List, [], ◌∷◌, ◌++◌, append-nil, append_assoc,
  Option, some, none, arith, if◌then◌else◌, Bytes,
}
use linear_cpp.Ordered.{bytes_order, same_key}
use linear_cpp.Ordered.Map.{find, modify, find-modify}
use linear_cpp.SocketImpl.Open.{add_headers}
use linear_cpp.Server.WebSocket.{Response, insert, copy_headers}

-- The last value of a key.
abbrev pub last_of : Bytes → List (Bytes × Bytes) → Option Bytes
last_of k [] = none
last_of k ((j, v) ∷ kvs) = elim (last_of k kvs) [
  | some v' ↦ some v'
  | none ↦ if same_key k j then some v else none
]

abbrev pub or_else : Option Bytes → Option Bytes → Option Bytes
or_else none b = b
or_else (some a) b = some a

pub or_none : (a : Option Bytes) → or_else a none ≡ a
or_none none = refl
or_none (some a) = refl

pub find-add_headers :
    (k : Bytes) (kvs m : List (Bytes × Bytes))
    → find k (add_headers kvs m) ≡ or_else (last_of k kvs) (find k m)
unfolding add_headers
find-add_headers k [] m = refl
find-add_headers k ((j, v) ∷ kvs) m =
    ground
      (arith, find-add_headers k kvs (modify j [] (λ old. v) m), find-modify k j [] (λ old. v) m)

module _ (stores : Bytes → Bytes → Bool) where
  abbrev pub all_stored : List (Bytes × Bytes) → Bool
  all_stored [] = true
  all_stored ((key, text) ∷ kvs) = stores key text && all_stored kvs

  -- Where each header can be stored, the headers are those of the socket behind what was there, and the
  -- code stays; where one cannot, the code is 500.
  copy_headers_500 :
      (kvs : List (Bytes × Bytes)) (r : Response)
      → r.code ≡ 500
      → (copy_headers stores kvs r).code ≡ 500
  unfolding copy_headers insert
  copy_headers_500 [] r e = e
  copy_headers_500 ((key, text) ∷ kvs) r e =
      copy_headers_500 kvs (insert stores r.code key text r) (ground (arith, e))

  pub copy_headers-stored :
      (kvs : List (Bytes × Bytes)) (r : Response)
      → all_stored kvs ≡ true
      → copy_headers stores kvs r ≡ record { code = r.code; headers = r.headers ++ kvs }
  unfolding copy_headers insert
  copy_headers-stored [] r e =
      ap (λ x. record { code = r.code; headers = x }) (sym (append-nil r.headers))
  copy_headers-stored ((key, text) ∷ kvs) r e = ground (
    arith,
    e,
    copy_headers-stored kvs (record { code = r.code; headers = r.headers ++ (key, text) ∷ [] }),
    append_assoc r.headers ((key, text) ∷ []) kvs,
  )

  pub copy_headers-lost :
      (kvs : List (Bytes × Bytes)) (r : Response)
      → all_stored kvs ≡ false
      → (copy_headers stores kvs r).code ≡ 500
  unfolding copy_headers insert
  copy_headers-lost [] r e = absurd (ground (arith, e))
  copy_headers-lost ((key, text) ∷ kvs) r e = ground (
    arith,
    e,
    copy_headers_500 kvs (record r { code = 500 }),
    copy_headers-lost kvs (record { code = r.code; headers = r.headers ++ (key, text) ∷ [] }),
  )
