-- ===== src/DatabaseContext.antt =====
-- src/tdatabasecontext.cpp: the SQL databases of a TDatabaseContext, with the pools that it takes
-- connections from (src/tsqldatabasepool.cpp). The databases of key-value stores are left aside.
pub mod Holding
pub mod Operations
pub mod Quiet
pub mod Idle
pub mod Disabled
use tf.Base.{
  ℕ, zero, suc, Bool, true, false, List, [], ◌∷◌, ◌++◌, length, Option, none, some, if◌then◌else◌,
  ◌==◌, ltb, leb,
}
use tf.Base.Int.{ℤ, pos, negsuc}
use tf.Pool.{Pool, Database, connection, invalid, sql_database, pool_sql}
use tf.Transaction.{Connection, Call, Driver, Transaction, new, set_enabled, begin, finish}

-- sqlDatabases, a map in the order of its keys; the pools; the calls of the drivers; and idleElapsed.
pub record Context : Type 0 where
  pub sql_databases : List (ℕ × Transaction)
  pub pools : ℕ → Pool
  pub calls : List Call
  pub idle_elapsed : ℕ

-- An exception, or a loop of the pool that does not end.
pub data Result (A : Type 0) : Type 0 where
  ok : A → Result A
  error : Result A
  blocked : Result A

-- sqlDatabases[id] where it is read: a new transaction where there is none. The keys stand in order.
unfoldable pub at : ℕ → List (ℕ × Transaction) → Transaction
at id [] = new
at id ((k, tx) ∷ rest) = if k == id then tx else if ltb id k then new else at id rest

-- sqlDatabases[id] where it is written.
unfoldable pub put : ℕ → Transaction → List (ℕ × Transaction) → List (ℕ × Transaction)
put id tx [] = (id, tx) ∷ []
put id tx ((k, old) ∷ rest) =
    if k == id
    then (id, tx) ∷ rest
    else if ltb id k
    then (id, tx) ∷ (k, old) ∷ rest
    else (k, old) ∷ put id tx rest

abbrev pub set_pool : ℕ → Pool → (ℕ → Pool) → ℕ → Pool
set_pool id p pools k = if k == id then p else pools k

module _ (d : Driver) where
  abbrev pub closed_call : Bool → Connection → List Call
  closed_call force_close c = if force_close then Call.close c ∷ [] else []

  -- pool(database, forceClose) of the pool, for a connection that database() has given. The number
  -- of its database is read from two digits of its name, which is right below 100.
  unfoldable pub give_back : Bool → Option Connection → Context → Context
  give_back force_close none s = s
  give_back force_close (some c) s = record s {
    pools =
        set_pool c.database_id
          (pool_sql (d.time s.calls) force_close c.number (s.pools c.database_id)) s.pools;
    calls = s.calls ++ closed_call force_close c;
  }

  abbrev pub connection_of : ℕ → Database → Option Connection
  connection_of id (connection n) = some (record { database_id = id; number = n })
  connection_of id invalid = none

  abbrev pub fetched :
      ℕ → Transaction → Context → Option (Database × Pool) → Result (Transaction × Context)
  fetched id tx s none = blocked
  fetched id tx s (some r) =
      ok (
        record tx { database = connection_of id r.0 },
        record s { pools = set_pool id r.1 s.pools },
      )

  -- `if (!db.isValid()) db = database(id)`
  unfoldable pub fetch : ℕ → Transaction → Context → Result (Transaction × Context)
  fetch id tx s = elim tx.database [
    | some c ↦ ok (tx, s)
    | none ↦ fetched id tx s (sql_database (d.can_open s.calls id) (s.pools id))
  ]

  abbrev pub begun : Bool × Transaction × List Call → Context → Bool × Transaction × Context
  begun (b, tx, after) s = if b then (true, tx, record s { calls = after }) else (
    false,
    record tx { database = none },
    give_back true tx.database (record s { calls = after }),
  )

  abbrev pub attempted : Result (Transaction × Context) → Result (Bool × Transaction × Context)
  attempted (ok (tx, s)) = ok (begun (begin d tx s.calls) s)
  attempted error = error
  attempted blocked = blocked

  -- A round of the loop: true is `break`.
  unfoldable pub attempt : ℕ → Transaction → Context → Result (Bool × Transaction × Context)
  attempt id tx s = attempted (fetch id tx s)

  abbrev pub next_round :
      (Transaction → Context → Result (Transaction × Context))
      → Result (Bool × Transaction × Context)
      → Result (Transaction × Context)
  next_round rest (ok (true, tx, s)) = ok (tx, s)
  next_round rest (ok (false, tx, s)) = rest tx s
  next_round rest error = error
  next_round rest blocked = blocked

  -- The loop, with the number of rounds left.
  unfoldable pub attempts : ℕ → ℕ → Transaction → Context → Result (Transaction × Context)
  attempts zero id tx s = ok (tx, s)
  attempts (suc n) id tx s = next_round (λ tx' s'. attempts n id tx' s') (attempt id tx s)

  -- The end of getSqlDatabase(): the loop has changed a transaction of the map in its place.
  abbrev pub got :
      ℕ
      → List (ℕ × Transaction)
      → Result (Transaction × Context)
      → Result (Option Connection × Context)
  got id txs (ok (tx, s)) =
      ok (tx.database, record s { sql_databases = put id tx txs; idle_elapsed = d.time s.calls })
  got id txs error = error
  got id txs blocked = blocked

  abbrev pub is_ready : Transaction → Bool
  is_ready tx = elim tx.database [ none ↦ false | some c ↦ tx.active ]

  -- getSqlDatabase(id), where the settings have a number of databases.
  unfoldable pub get_sql_database : ℕ → ℤ → Context → Result (Option Connection × Context)
  get_sql_database settings (negsuc n) s = ok (none, s)
  get_sql_database settings (pos id) s =
      let tx = at id s.sql_databases in
      if leb settings id
      then error
      else if is_ready tx
      then ok (tx.database, s)
      else got id s.sql_databases (attempts 2 id tx s)

  -- setTransactionEnabled(enable, id)
  unfoldable pub set_transaction_enabled : Bool → ℤ → Context → Context
  set_transaction_enabled enable (negsuc n) s = s
  set_transaction_enabled enable (pos id) s = record s {
    sql_databases = put id (set_enabled enable (at id s.sql_databases)) s.sql_databases;
  }

  -- A round of the loops over the transactions: the end of one, and its connection given back.
  unfoldable pub finish_one :
      (Connection → Bool → Call) → Bool → Transaction → Context → Bool × Transaction × Context
  unfolding give_back
  finish_one end force_close tx s =
      let (res, after, calls) = finish d end tx s.calls in
      (
        res,
        record after { database = none },
        give_back force_close after.database (record s { calls = calls }),
      )

  unfoldable pub finish_all :
      (Connection → Bool → Call)
      → Bool
      → List (ℕ × Transaction)
      → Context
      → List (ℕ × Transaction) × Context
  finish_all end force_close [] s = ([], s)
  finish_all end force_close ((k, tx) ∷ rest) s =
      let (_, tx', s') = finish_one end force_close tx s in
      let (rest', s'') = finish_all end force_close rest s' in ((k, tx') ∷ rest', s'')

  abbrev pub with_all : List (ℕ × Transaction) × Context → Context
  with_all (txs, s) = record s { sql_databases = txs }

  unfoldable pub commit_transactions : Context → Context
  commit_transactions s = with_all (finish_all Call.commit false s.sql_databases s)

  unfoldable pub rollback_transactions : Context → Context
  rollback_transactions s = with_all (finish_all Call.rollback true s.sql_databases s)

  -- commitTransaction(id) and rollbackTransaction(id)
  unfoldable pub finish_at : (Connection → Bool → Call) → Bool → ℤ → Context → Bool × Context
  finish_at end force_close (negsuc n) s = (false, s)
  finish_at end force_close (pos id) s =
      if leb (length s.sql_databases) id
      then (false, s)
      else let (res, tx, s') = finish_one end force_close (at id s.sql_databases) s in
        (res, record s' { sql_databases = put id tx s.sql_databases })

  unfoldable pub commit_transaction : ℤ → Context → Bool × Context
  unfolding finish_at
  commit_transaction = finish_at Call.commit false

  unfoldable pub rollback_transaction : ℤ → Context → Bool × Context
  unfolding finish_at
  rollback_transaction = finish_at Call.rollback true

  -- release(): the destructors of the transactions roll back what has no connection any more.
  unfoldable pub release : Context → Context
  release s = record (rollback_transactions s) { sql_databases = []; idle_elapsed = 0 }
