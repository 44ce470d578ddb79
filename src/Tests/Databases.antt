-- ===== src/Tests/Databases.antt =====
-- Runs of the code of src/tdatabasecontext.cpp, with a driver that answers every call with success.
use tf.Base.{ℕ, ◌≡◌, refl, true, List, [], ◌∷◌, some, arith}
use tf.Base.Int.{pos}
use tf.Pool.{Pool, push_names, sql_database, pool_sql, take_cached, take_sql, close_database}
use tf.Transaction.{Connection, Call, Driver, begin, begin_on, finish, end_on}
use tf.DatabaseContext.{
  Context, ok, get_sql_database, set_transaction_enabled, commit_transactions,
  rollback_transactions, release, attempts, attempt, fetch, finish_one, finish_all, give_back, at,
  put,
}
use tf.DatabaseContext.Holding.{is_open}
use tf.DatabaseContext.Idle.{
  Op, get, set_enabled, commit_all, rollback_all, release_all, fresh, perform, perform_all,
}
use tf.DatabaseContext.Disabled.{disabled, active_on, of_first, disabled-cached}

abbrev pub working : Driver
working = record {
  has_transactions = λ c. true;
  answer = λ calls. true;
  can_open = λ calls id n. true;
  time = λ calls. 1000;
}

-- Two requests, of which the second one is rolled back, and one database with two connections.
abbrev requests : List Op
requests =
    set_enabled true (pos 0)
    ∷ get (pos 0)
    ∷ commit_all
    ∷ get (pos 0)
    ∷ rollback_all
    ∷ get (pos 0)
    ∷ release_all
    ∷ []

abbrev upper : Connection
upper = record { database_id = 0; number = 1 }

calls-requests :
    (perform_all working 1 requests (fresh (λ id. 2))).calls
    ≡ Call.transaction upper true
      ∷ Call.commit upper true
      ∷ Call.transaction upper true
      ∷ Call.rollback upper true
      ∷ Call.close upper
      ∷ Call.transaction upper true
      ∷ Call.rollback upper true
      ∷ Call.close upper
      ∷ []
unfolding perform_all perform set_transaction_enabled get_sql_database attempts attempt fetch begin
    begin_on commit_transactions rollback_transactions finish_all finish_one finish end_on give_back
    release at put push_names sql_database pool_sql take_cached take_sql close_database
calls-requests = refl

abbrev pub in_use : ℕ → Pool
in_use id = record { cached = []; available = 0 ∷ []; last_cached_time = 0; is_open = λ n. true }

disabled-cached_example :
    ((disabled working (active_on [] in_use 5 1)).calls ≡ [])
    × (((disabled working (active_on [] in_use 5 1)).pools 0).cached ≡ 1 ∷ [])
    × ((s : Context) × (get_sql_database working 1
            (pos 0)
            (disabled working (active_on [] in_use 5 1))
          ≡ ok (some (of_first [] in_use 5 1), s))
        × (s.calls ≡ []))
disabled-cached_example = disabled-cached [] in_use 5 1 working 1 (omega arith) refl
