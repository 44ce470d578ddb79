-- ===== src/DatabaseContext/Disabled.antt =====
-- What src/tdatabasecontext.cpp does with a transaction that is disabled while it is active, as when a
-- session is read from the database before setTransactionEnabled(false) of a controller.
use tf.Base.{
  ℕ, ◌≡◌, refl, true, false, List, [], ◌∷◌, none, some, leb, ap, ◌∙◌, inl, inr, Bool-cases,
  append-nil, arith, ◌≤◌, ◌<◌, length,
}
use tf.Base.Int.{pos}
use tf.Pool.{Pool, connection, pool_sql, sql_database, take_cached}
use tf.Transaction.{Connection, Call, Driver, begin, begin_on, finish}
use tf.DatabaseContext.{
  Context, ok, at, put, give_back, fetch, attempt, attempts, get_sql_database,
  set_transaction_enabled, finish_one, finish_all, finish_at, commit_transactions,
  commit_transaction, set_pool, attempted, fetched, begun,
}

-- A request with transactions disabled, and the start of the next one.
abbrev pub disabled : Driver → Context → Context
disabled d s =
    set_transaction_enabled d true (pos 0)
      (commit_transactions d (set_transaction_enabled d false (pos 0) s))

module _ (calls : List Call) (pools : ℕ → Pool) (idle_elapsed n : ℕ) where
  abbrev pub of_first : Connection
  of_first = record { database_id = 0; number = n }

  -- A context with one active transaction, on a connection of the first database.
  abbrev pub active_on : Context
  active_on = record {
    sql_databases = (0, record { database = some of_first; enabled = true; active = true }) ∷ [];
    pools = pools;
    calls = calls;
    idle_elapsed = idle_elapsed;
  }

  abbrev after_disabled : Driver → Context
  after_disabled d = record {
    sql_databases = (0, record { database = none; enabled = true; active = true }) ∷ [];
    pools = set_pool 0 (pool_sql (d.time calls) false n (pools 0)) pools;
    calls = calls;
    idle_elapsed = idle_elapsed;
  }

  disabled_lem : (d : Driver) → disabled d active_on ≡ after_disabled d
  unfolding set_transaction_enabled commit_transactions finish_all finish_one finish give_back at
      put
  disabled_lem d = rw (append-nil calls) refl

  abbrev after_get : Driver → Context
  after_get d = record {
    sql_databases = (0, record { database = some of_first; enabled = true; active = true }) ∷ [];
    pools =
        set_pool 0 (record (pools 0) { last_cached_time = d.time calls }) (after_disabled d).pools;
    calls = calls;
    idle_elapsed = d.time calls;
  }

  taken_lem :
      (d : Driver)
      → (pools 0).is_open n ≡ true
      → sql_database (d.can_open calls 0) ((after_disabled d).pools 0)
        ≡ some (connection n, record (pools 0) { last_cached_time = d.time calls })
  unfolding sql_database take_cached pool_sql
  taken_lem d o = rw o refl

  -- begin() takes the transaction for one that has begun.
  begin_lem :
      (d : Driver)
      → begin d (record { database = some of_first; enabled = true; active = true }) calls
        ≡ (true, record { database = some of_first; enabled = true; active = true }, calls)
  unfolding begin begin_on
  begin_lem d = elim (Bool-cases (d.has_transactions of_first)) [
    | inl f ↦ rw f refl
    | inr f ↦ rw f refl
  ]

  attempt_lem :
      (d : Driver)
      → (pools 0).is_open n ≡ true
      → attempt d 0 (record { database = none; enabled = true; active = true }) (after_disabled d)
        ≡ ok (
          true,
          record { database = some of_first; enabled = true; active = true },
          record (after_disabled d) { pools = (after_get d).pools },
        )
  unfolding attempt fetch
  attempt_lem d o =
      ap
        (λ r. attempted d (
          fetched d 0 (record { database = none; enabled = true; active = true }) (after_disabled d)
            r))
        (taken_lem d o)
      ∙ ap (λ r. ok (begun d r (record (after_disabled d) { pools = (after_get d).pools })))
          (begin_lem d)

  get_lem :
      (d : Driver) (settings : ℕ)
      → 0 < settings
      → (pools 0).is_open n ≡ true
      → get_sql_database d settings (pos 0) (after_disabled d) ≡ ok (some of_first, after_get d)
  unfolding get_sql_database at put attempts
  get_lem d settings h o =
      let e : leb settings 0 ≡ false = ground arith in rw (e, attempt_lem d o) refl

  -- A context whose only entry is an active transaction, on a connection of the database 0 that is
  -- open: where it is disabled, commitTransactions() puts the connection among the cached ones
  -- without a call of the driver, and where it has been enabled again, as by the next request, the
  -- next getSqlDatabase() takes the connection from there and begins no transaction.
  pub disabled-cached :
      (d : Driver) (settings : ℕ)
      → 0 < settings
      → (pools 0).is_open n ≡ true
      → let s = disabled d active_on in
        (s.calls ≡ calls)
        × ((s.pools 0).cached ≡ n ∷ (pools 0).cached)
        × ((s' : Context) × (get_sql_database d settings (pos 0) s ≡ ok (some of_first, s'))
            × (s'.calls ≡ calls))
  disabled-cached d settings h o =
      rw (disabled_lem d)
        (unfold pool_sql in (refl, refl, (after_get d, get_lem d settings h o, refl)))

-- commitTransaction(id) refuses a database whose number is not less than how many are in use.
pub commit_transaction-refuses :
    (d : Driver) (id : ℕ) (s : Context)
    → length s.sql_databases ≤ id
    → commit_transaction d (pos id) s ≡ (false, s)
unfolding commit_transaction finish_at
commit_transaction-refuses d id s h = ground arith
