-- ===== src/Pool/Conservation.antt =====
-- How often a connection stands in the stacks of src/tsqldatabasepool.cpp, before and after each
-- operation.
use tf.Base.{ℕ, ◌+◌, ◌≡◌, refl, Bool, List, [], ◌∷◌, some, if◌then◌else◌, ◌==◌, arith}
use tf.Pool.{
  Pool, Database, connection, invalid, take_sql, take_cached, close_database, pool_sql,
  close_cached, timer_event,
}

-- How often a connection stands in a list.
abbrev pub count : ℕ → List ℕ → ℕ
count n [] = 0
count n (m ∷ ms) = (if m == n then 1 else 0) + count n ms

abbrev pub pooled : ℕ → Pool → ℕ
pooled n p = count n p.cached + count n p.available

abbrev pub got : ℕ → Database → ℕ
got n (connection m) = if m == n then 1 else 0
got n invalid = 0

take_sql-pooled :
    (can_open : ℕ → Bool) (n : ℕ) (stack : List ℕ) (p : Pool) (r : Database × Pool)
    → take_sql can_open stack p ≡ some r
    → got n r.0 + pooled n r.1 ≡ count n p.cached + count n stack
unfolding take_sql
take_sql-pooled can_open n [] p r e = cc
take_sql-pooled can_open n (m ∷ stack) p r e = ground arith

pub take_cached-pooled :
    (can_open : ℕ → Bool) (n : ℕ) (cached stack : List ℕ) (p : Pool) (r : Database × Pool)
    → take_cached (take_sql can_open) cached stack p ≡ some r
    → got n r.0 + pooled n r.1 ≡ count n cached + count n stack
unfolding take_cached
take_cached-pooled can_open n [] stack p r e =
    take_sql-pooled can_open n stack (record p { cached = []; available = stack }) r e
take_cached-pooled can_open n (m ∷ cached) stack p r e =
    ground (arith, take_cached-pooled can_open n cached (m ∷ stack) p r)

close_cached-pooled :
    (n : ℕ) (cached : List ℕ) (p : Pool)
    → pooled n (close_cached cached p) ≡ count n cached + count n p.available
unfolding close_cached close_database
close_cached-pooled n [] p = refl
close_cached-pooled n (m ∷ cached) p =
    omega (arith, close_cached-pooled n cached (close_database m p))

pub timer_event-pooled : (n now : ℕ) (p : Pool) → pooled n (timer_event now p) ≡ pooled n p
unfolding timer_event
timer_event-pooled n now p = ground (arith, close_cached-pooled n p.cached p)

pub pool_sql-pooled :
    (n now m : ℕ) (force_close : Bool) (p : Pool)
    → pooled n (pool_sql now force_close m p) ≡ (if m == n then 1 else 0) + pooled n p
unfolding pool_sql close_database
pool_sql-pooled n now m force_close p = ground arith
