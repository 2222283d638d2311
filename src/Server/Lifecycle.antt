-- ===== src/Server/Lifecycle.antt =====
-- A server over time: any calls of Start, Stop and Release, with any connections that come in
-- (src/server_impl.h, src/socket_pool.h and the four servers).
use Prim.Native.String.{String}
use linear_cpp.Prelude.{
  ℕ, ◌+◌, ◌≡◌, refl, ap, ◌∙◌, sym, Bool, true, false, List, [], ◌∷◌, arith, count, if_lem,
  if◌then◌else◌, Bytes,
}
use linear_cpp.Prelude.Int.{ℤ, nonzero}
use linear_cpp.ErrorMap.{lnr_ok, lnr_enomem, lnr_eaddrnotavail}
use linear_cpp.Addrinfo
use linear_cpp.Error.{Error, error, from_status}
use linear_cpp.Group.{Groups}
use linear_cpp.SocketPool
use linear_cpp.SocketPool.Capacity.{IsValid, add-IsValid, remove-IsValid, max-add, max-remove}
use linear_cpp.HandlerDelegate
use linear_cpp.HandlerDelegate.{HandlerDelegate, client, server, release_owner}
use linear_cpp.Server.{
  State, stop, start, ServerImpl, HandleAction, listens, closes, StartAnswers, start_server,
  start_state, start_handle, stop_state, release,
}
use linear_cpp.Server.Accept.{is_stopped}

-- The pool is valid under its limit, and a server that is stopped holds no socket.
pub record IsSound (max : ℕ) (srv : ServerImpl) : Type 0 where
  pub pool_valid : IsValid srv.delegate.pool
  pub limit : srv.delegate.pool.max ≡ max
  pub idle : is_stopped srv.state ≡ true → srv.delegate.pool.pool ≡ []

abbrev pub is_listens : HandleAction → Bool
is_listens listens = true
is_listens closes = false

abbrev pub is_closes : HandleAction → Bool
is_closes listens = false
is_closes closes = true

-- The number of handles that listen.
abbrev pub running : State → ℕ
running stop = 0
running start = 1

-- As many handles are opened, with the one that was open, as are closed, with the one that is open.
abbrev pub IsBalanced : ServerImpl → ServerImpl → List HandleAction → Type 0
IsBalanced srv srv' actions =
    count is_listens actions + running srv.state ≡ count is_closes actions + running srv'.state

-- What Start leaves: the same sockets, and the handle opened if it now runs.
pub record IsStarted (srv : ServerImpl) (r : ServerImpl × Error × List HandleAction) : Type 0 where
  pub same : r.0.delegate ≡ srv.delegate
  pub stopped : is_stopped r.0.state ≡ true → is_stopped srv.state ≡ true
  pub balanced : IsBalanced srv r.0 r.2

module _ (tv : String → ℤ) where
  untouched :
      (srv srv' : ServerImpl) (e : Error)
      → srv'.delegate ≡ srv.delegate
      → srv'.state ≡ srv.state
      → IsStarted srv (srv', e, [])
  untouched srv srv' e same p = record {
    same = same;
    stopped = λ q. ap is_stopped (sym p) ∙ q;
    balanced = ap (λ s. 0 + running s) (sym p);
  }

  started :
      (srv srv' : ServerImpl) (e : Error)
      → srv'.delegate ≡ srv.delegate
      → srv'.state ≡ start
      → srv.state ≡ stop
      → IsStarted srv (srv', e, listens ∷ [])
  started srv srv' e same p q = record {
    same = same;
    stopped = λ h. ap is_stopped q;
    balanced = rw (p, q) refl;
  }

  start_handle-IsStarted :
      (a : StartAnswers) (srv srv' : ServerImpl)
      → srv'.delegate ≡ srv.delegate
      → srv'.state ≡ stop
      → srv.state ≡ stop
      → IsStarted srv (start_handle tv a srv')
  unfolding start_handle
  start_handle-IsStarted a srv srv' same p q =
      let failed = λ (e : Error). untouched srv srv' e same (p ∙ sym q) in
      let opened =
        if nonzero a.listen_status
        then (srv', from_status tv a.listen_status, [])
        else (record srv' { state = start }, error lnr_ok, listens ∷ []) in
      if_lem (IsStarted srv) a.allocated
        (if nonzero a.init_status then (srv', from_status tv a.init_status, []) else opened)
        (srv', error lnr_enomem, [])
        (λ b.
          if_lem (IsStarted srv) (nonzero a.init_status) (srv', from_status tv a.init_status, [])
            opened (λ c. failed _)
            (λ c.
              if_lem (IsStarted srv) (nonzero a.listen_status)
                (srv', from_status tv a.listen_status, [])
                (record srv' { state = start }, error lnr_ok, listens ∷ []) (λ d. failed _)
                (λ d. started srv (record srv' { state = start }) _ same refl q)))
        (λ b. failed _)

  start_state-IsStarted :
      (s : State) (a : StartAnswers) (hostname : Bytes) (port : ℤ) (srv : ServerImpl)
      → srv.state ≡ s
      → IsStarted srv (start_state tv s a hostname port srv)
  unfolding start_state
  start_state-IsStarted start a hostname port srv p = untouched srv srv _ refl refl
  start_state-IsStarted stop a hostname port srv p =
      let self = Addrinfo.resolve a.resolved_4 a.resolved_6 hostname port in
      let srv' = record srv { self = self } in
      if_lem (IsStarted srv) (Addrinfo.is_unknown self.proto) (srv', error lnr_eaddrnotavail, [])
        (start_handle tv a srv') (λ e. untouched srv srv' _ refl refl)
        (λ e. start_handle-IsStarted a srv srv' refl p p)

  pub start-IsStarted :
      (a : StartAnswers) (hostname : Bytes) (port : ℤ) (srv : ServerImpl)
      → IsStarted srv (start_server tv a hostname port srv)
  unfolding start_server
  start-IsStarted a hostname port srv = start_state-IsStarted srv.state a hostname port srv refl

module _ (max : ℕ) where
  -- The same sockets, and not stopped unless it was.
  pub carried :
      (srv srv' : ServerImpl)
      → srv'.delegate ≡ srv.delegate
      → (is_stopped srv'.state ≡ true → is_stopped srv.state ≡ true)
      → IsSound max srv
      → IsSound max srv'
  carried srv srv' same p k = record {
    pool_valid = rw same k.pool_valid;
    limit = ap (λ d. d.pool.max) same ∙ k.limit;
    idle = λ e. ap (λ d. d.pool.pool) same ∙ k.idle (p e);
  }

  pub retain-IsSound :
      (id : ℤ) (srv : ServerImpl)
      → is_stopped srv.state ≡ false
      → IsSound max srv
      → IsSound max (record srv { delegate = (HandlerDelegate.retain id srv.delegate).0 })
  unfolding HandlerDelegate.retain
  retain-IsSound id srv started k = record {
    pool_valid = add-IsValid id srv.delegate.pool k.pool_valid;
    limit = max-add id srv.delegate.pool ∙ k.limit;
    idle = λ e. absurd (true-false (sym e ∙ started));
  }
    where
      true-false : true ≡ false → ⊥
      true-false e = cc

  release_owner-pool :
      (owner : HandlerDelegate.Owner) (id : ℤ) (d : HandlerDelegate) (groups : Groups)
      → (release_owner owner id d groups).0.pool ≡ SocketPool.remove id d.pool
  unfolding release_owner
  release_owner-pool client id d groups = refl
  release_owner-pool server id d groups = refl

  remove_empty :
      (id : ℤ) (p : SocketPool.SocketPool) → p.pool ≡ [] → (SocketPool.remove id p).pool ≡ []
  unfolding SocketPool.remove
  remove_empty id p e = ground (arith, e)

  pub release-IsSound :
      (id : ℤ) (srv : ServerImpl) (groups : Groups)
      → IsSound max srv
      → IsSound max (release id srv groups).0
  unfolding release HandlerDelegate.release
  release-IsSound id srv groups k =
      let same = release_owner-pool srv.delegate.owner id srv.delegate groups in
      record {
        pool_valid = rw same (remove-IsValid id srv.delegate.pool k.pool_valid);
        limit = ap (λ p. p.max) same ∙ max-remove id srv.delegate.pool ∙ k.limit;
        idle = λ e. ap (λ p. p.pool) same ∙ remove_empty id srv.delegate.pool (k.idle e);
      }

  pub stop_state-IsSound :
      (s : State) (srv : ServerImpl) (groups : Groups)
      → srv.state ≡ s
      → IsSound max srv
      → IsSound max (stop_state s srv groups).0
        × IsBalanced srv (stop_state s srv groups).0 (stop_state s srv groups).3
  unfolding stop_state SocketPool.clear
  stop_state-IsSound stop srv groups p k = (k, refl)
  stop_state-IsSound start srv groups p k = (
    record {
      pool_valid = record { within = λ h. omega arith; distinct = λ id. omega arith };
      limit = k.limit;
      idle = λ e. refl;
    },
    rw p refl,
  )
