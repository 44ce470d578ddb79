-- ===== src/Tests/Pools.antt =====
-- Runs of the code of src/tsqldatabasepool.cpp and src/tkvsdatabasepool.cpp.
use tf.Base.{ℕ, ◌≡◌, refl, Bool, true, false, List, [], ◌∷◌, none}
use tf.Pool.{
  push_names, init, sql_database, kvs_database, take_cached, take_sql, pool_sql, timer_event,
  close_cached, close_database,
}
use tf.Pool.Turns.{Turn, take, give, tick, turns, start, held, turns-start}
use tf.Pool.Opening.{fail_times, database-after_failures}

abbrev opens : ℕ → Bool
opens n = true

-- Two threads take connections, one is given back and closed, one cached and closed by the timer.
abbrev day : List Turn
day =
    take opens
    ∷ take (λ n. false)
    ∷ take opens
    ∷ give 100 true 0
    ∷ give 100 false 0
    ∷ tick 200
    ∷ take opens
    ∷ []

turns-start_example : held 1 (turns day (start 2)) ≡ 1
turns-start_example = turns-start 2 1 day

-- The connection that is closed first is at the bottom of the stack.
used-day : (turns day (start 2)).used ≡ 1 ∷ []
unfolding sql_database take_cached take_sql pool_sql timer_event close_cached close_database
    push_names
used-day = refl

database-after_failures_example :
    (kvs_database opens (fail_times kvs_database 3 (init 3)) ≡ none)
    × (fail_times sql_database 3 (init 3) ≡ init 3)
database-after_failures_example = database-after_failures opens 3
