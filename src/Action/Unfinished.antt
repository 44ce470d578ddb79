-- ===== src/Action/Unfinished.antt =====
-- What execute() of src/tactioncontext.cpp does with the transactions of an action that ends early.
use tf.Base.{
  ℕ, ◌≡◌, refl, sym, ap, ◌∙◌, true, false, List, [], ◌∷◌, ◌++◌, append-nil, append_assoc, some,
  none, ◌<◌, arith, leb, Bool, Option, ==_refl,
}
use tf.Base.Int.{pos}
use tf.Transaction.{Connection, Call, Driver, Transaction, finish, end_on}
use tf.DatabaseContext.{
  Context, ok as got_ok, commit_transactions, get_sql_database, finish_all, finish_one, give_back,
  at,
}
use tf.Action.Exceptions.{ok, client_error, zoom, ◌>>=◌}
use tf.Action.Response as Response
use tf.Action.Controller.{Work}
use tf.Action.Steps.{
  Request, State, Handlers, Surroundings, put, set_work, prepare, run_controller, run_action,
  dispatch,
}
use tf.Action.{Site, too_large, route_of, run_route, try_execute, handle, write_log, execute}

abbrev pub active_on : Connection → Transaction
active_on c = record { database = some c; enabled = true; active = true }

-- What a context does whose first transaction is active on a connection.
module _ (d : Driver) where
  get-active :
      (settings id : ℕ) (c : Connection) (rest : List (ℕ × Transaction)) (s : Context)
      → id < settings
      → s.sql_databases ≡ (id, active_on c) ∷ rest
      → get_sql_database d settings (pos id) s ≡ got_ok (some c, s)
  unfolding get_sql_database at
  get-active settings id c rest s p e =
      let q : leb settings id ≡ false = ground arith in rw (q, e, ==_refl id) refl

  -- The calls of the driver are only added to.
  committed-calls :
      (o : Option Connection) (enabled active : Bool) (s : Context)
      → let tx : Transaction = record { database = o; enabled = enabled; active = active } in
        (more : List Call) × ((finish_one d Call.commit false tx s).2.calls ≡ s.calls ++ more)
  unfolding finish_one finish end_on give_back
  committed-calls none true true s = ([], sym (append-nil s.calls))
  committed-calls none true false s = ([], sym (append-nil s.calls))
  committed-calls none false active s = ([], sym (append-nil s.calls))
  committed-calls (some c) true true s = (Call.commit c (d.answer s.calls) ∷ [], append-nil _)
  committed-calls (some c) true false s = ([], refl)
  committed-calls (some c) false active s = ([], refl)

  finish_one-calls :
      (tx : Transaction) (s : Context)
      → (more : List Call) × ((finish_one d Call.commit false tx s).2.calls ≡ s.calls ++ more)
  finish_one-calls tx s = committed-calls tx.database tx.enabled tx.active s

  finish_all-calls :
      (txs : List (ℕ × Transaction)) (s : Context)
      → (more : List Call) × ((finish_all d Call.commit false txs s).1.calls ≡ s.calls ++ more)
  unfolding finish_all
  finish_all-calls [] s = ([], sym (append-nil s.calls))
  finish_all-calls ((k, tx) ∷ rest) s =
      let (one, e) = finish_one-calls tx s in
      let (more, e') = finish_all-calls rest (finish_one d Call.commit false tx s).2 in
      (one ++ more, e' ∙ ap (λ l. l ++ more) e ∙ append_assoc s.calls one more)

  finish_one-active :
      (c : Connection) (s : Context)
      → (finish_one d Call.commit false (active_on c) s).2.calls
        ≡ s.calls ++ Call.commit c (d.answer s.calls) ∷ []
  unfolding finish_one finish end_on give_back
  finish_one-active c s = append-nil _

  commit-active :
      (id : ℕ) (c : Connection) (rest : List (ℕ × Transaction)) (s : Context)
      → s.sql_databases ≡ (id, active_on c) ∷ rest
      → (more : List Call) × ((commit_transactions d s).calls
          ≡ s.calls ++ Call.commit c (d.answer s.calls) ∷ more)
  unfolding commit_transactions finish_all
  commit-active id c rest s e =
      let s1 = (finish_one d Call.commit false (active_on c) s).2 in
      let (more, e') = finish_all-calls rest s1 in
      (
        more,
        ap (λ txs. (finish_all d Call.commit false txs s).1.calls) e
            ∙ e'
            ∙ ap (λ l. l ++ more) (finish_one-active c s)
            ∙ append_assoc s.calls (Call.commit c (d.answer s.calls) ∷ []) more,
      )

module _ {V S : Type 0} (e : Surroundings V S) (site : Site V S) (h : Handlers V S) where
  -- An action throws a ClientErrorException: `ready` is the work before the filters, with the session
  -- that has been found and checked, `filtered` that after preFilter() and `w` what the action leaves.
  pub record Throws (req : Request) (s : State V S) (code : ℕ) (w : Work V S) : Type 0 where
    pub known : site.controllers (route_of e site req).controller ≡ some h
    pub small : too_large e site req ≡ false
    pub ready : Work V S
    pub filtered : Work V S
    pub prepared : prepare e h req (route_of e site req).action s.work ≡ (ok tt, ready)
    pub filter_ok : h.pre_filter ready ≡ (ok true, filtered)
    pub thrown :
        h.invoke (route_of e site req).action (route_of e site req).params filtered
        ≡ (client_error code, w)

  run_controller-thrown :
      (req : Request) (s : State V S) (code : ℕ) (w : Work V S)
      → Throws req s code w
      → run_controller e h req (route_of e site req).action (route_of e site req).params s
        ≡ (client_error code, set_work w s)
  unfolding run_controller ◌>>=◌ zoom run_action dispatch
  run_controller-thrown req s code w t = simp (t.prepared, t.filter_ok, t.thrown)

  execute-thrown :
      (req : Request) (s : State V S) (code : ℕ) (w : Work V S)
      → Throws req s code w
      → execute e site req s
        ≡ write_log e site
            (put code (Response.write_status e.site code Response.new) (set_work w s))
  unfolding execute try_execute run_route handle
  execute-thrown req s code w t = rw (t.small, t.known, run_controller-thrown req s code w t) refl

  -- Where a request is not too large, has a controller, gets through the checks of its session and
  -- token and through preFilter(), and its action throws a ClientErrorException when the first
  -- transaction of the context is active: the request is answered by a page with the code, and the
  -- transaction stays active. The next getSqlDatabase() for it gives its connection as it is, and
  -- commitTransactions() begins by committing it.
  pub execute-client_error :
      (req : Request) (s : State V S) (code : ℕ) (w : Work V S) (id settings : ℕ) (c : Connection)
      (rest : List (ℕ × Transaction))
      → Throws req s code w
      → w.shared.1.sql_databases ≡ (id, active_on c) ∷ rest
      → id < settings
      → let s' = execute e site req s in
        let dbs = s'.work.shared.1 in
        (s'.sent ≡ s.sent ++ Response.write_status e.site code Response.new ∷ [])
        × (get_sql_database e.driver settings (pos id) dbs ≡ got_ok (some c, dbs))
        × ((more : List Call) × ((commit_transactions e.driver dbs).calls
              ≡ dbs.calls ++ Call.commit c (e.driver.answer dbs.calls) ∷ more))
  execute-client_error req s code w id settings c rest t q p = rw (execute-thrown req s code w t) (
    refl,
    get-active e.driver settings id c rest w.shared.1 p q,
    commit-active e.driver id c rest w.shared.1 q,
  )
