-- ===== src/Pool/Turns.antt =====
-- Threads that share the connections of src/tsqldatabasepool.cpp, and where each connection is.
use tf.Base.{
  ℕ, zero, suc, ◌+◌, ◌≡◌, refl, ◌∙◌, Bool, List, [], ◌∷◌, Option, none, some, if◌then◌else◌, ◌==◌,
  ltb, arith,
}
use tf.Pool.{
  Pool, Database, connection, invalid, push_names, init, sql_database, pool_sql, timer_event,
}
use tf.Pool.Conservation.{
  count, pooled, got, take_cached-pooled, timer_event-pooled, pool_sql-pooled,
}

-- The pool and the connections that have been handed out.
pub record Shared : Type 0 where
  pub pool : Pool
  pub used : List ℕ

-- A thread takes a connection, gives back the one at a place among those handed out, or the timer
-- fires.
pub data Turn : Type 0 where
  take : (ℕ → Bool) → Turn
  give : ℕ → Bool → ℕ → Turn
  tick : ℕ → Turn

abbrev pub taken : List ℕ → Database × Pool → Shared
taken used (connection n, p) = record { pool = p; used = n ∷ used }
taken used (invalid, p) = record { pool = p; used = used }

abbrev pub take_turn : Shared → Option (Database × Pool) → Shared
take_turn s none = s
take_turn s (some r) = taken s.used r

abbrev pub keep : ℕ → Option (ℕ × List ℕ) → Option (ℕ × List ℕ)
keep n none = none
keep n (some (m, rest)) = some (m, n ∷ rest)

-- The connection at a place and the others.
abbrev pub remove_at : ℕ → List ℕ → Option (ℕ × List ℕ)
remove_at i [] = none
remove_at zero (n ∷ used) = some (n, used)
remove_at (suc i) (n ∷ used) = keep n (remove_at i used)

abbrev pub give_turn : ℕ → Bool → Shared → Option (ℕ × List ℕ) → Shared
give_turn now force_close s none = s
give_turn now force_close s (some (n, used)) = record {
  pool = pool_sql now force_close n s.pool;
  used = used;
}

abbrev pub turn : Turn → Shared → Shared
turn (take can_open) s = take_turn s (sql_database can_open s.pool)
turn (give now force_close i) s = give_turn now force_close s (remove_at i s.used)
turn (tick now) s = record s { pool = timer_event now s.pool }

abbrev pub turns : List Turn → Shared → Shared
turns [] s = s
turns (t ∷ ts) s = turns ts (turn t s)

abbrev pub held : ℕ → Shared → ℕ
held n s = pooled n s.pool + count n s.used

taken-held :
    (n : ℕ) (used : List ℕ) (r : Database × Pool)
    → held n (taken used r) ≡ got n r.0 + pooled n r.1 + count n used
taken-held n used (connection m, p) = omega arith
taken-held n used (invalid, p) = omega arith

-- How often a connection stands in what a removal gives.
abbrev weight : ℕ → Option (ℕ × List ℕ) → List ℕ → ℕ
weight n none used = count n used
weight n (some (m, rest)) used = (if m == n then 1 else 0) + count n rest

weight-keep :
    (n m : ℕ) (o : Option (ℕ × List ℕ)) (used : List ℕ)
    → weight n (keep m o) (m ∷ used) ≡ (if m == n then 1 else 0) + weight n o used
weight-keep n m none used = refl
weight-keep n m (some (k, rest)) used = omega arith

weight-remove_at : (n i : ℕ) (used : List ℕ) → weight n (remove_at i used) used ≡ count n used
weight-remove_at n zero [] = refl
weight-remove_at n (suc i) [] = refl
weight-remove_at n zero (m ∷ used) = refl
weight-remove_at n (suc i) (m ∷ used) =
    omega (arith, weight-keep n m (remove_at i used) used, weight-remove_at n i used)

give_turn-held :
    (n now : ℕ) (force_close : Bool) (s : Shared) (o : Option (ℕ × List ℕ))
    → weight n o s.used ≡ count n s.used
    → held n (give_turn now force_close s o) ≡ held n s
give_turn-held n now force_close s none e = refl
give_turn-held n now force_close s (some (m, used)) e =
    omega (arith, pool_sql-pooled n now m force_close s.pool)

take_turn-held :
    (n : ℕ) (can_open : ℕ → Bool) (s : Shared) (o : Option (Database × Pool))
    → sql_database can_open s.pool ≡ o
    → held n (take_turn s o) ≡ held n s
unfolding sql_database
take_turn-held n can_open s none e = refl
take_turn-held n can_open s (some r) e = omega (
  arith,
  taken-held n s.used r,
  take_cached-pooled can_open n s.pool.cached s.pool.available s.pool r e,
)

turn-held : (n : ℕ) (t : Turn) (s : Shared) → held n (turn t s) ≡ held n s
turn-held n (take can_open) s = take_turn-held n can_open s (sql_database can_open s.pool) refl
turn-held n (give now force_close i) s =
    give_turn-held n now force_close s (remove_at i s.used) (weight-remove_at n i s.used)
turn-held n (tick now) s = omega (arith, timer_event-pooled n now s.pool)

pub count-push_names : (n m : ℕ) → count n (push_names m []) ≡ (if ltb n m then 1 else 0)
unfolding push_names
count-push_names n zero = ground arith
count-push_names n (suc m) = ground (arith, count-push_names n m)

turns-held : (n : ℕ) (ts : List Turn) (s : Shared) → held n (turns ts s) ≡ held n s
turns-held n [] s = refl
turns-held n (t ∷ ts) s = turns-held n ts (turn t s) ∙ turn-held n t s

abbrev pub start : ℕ → Shared
start max_connects = record { pool = init max_connects; used = [] }

-- However threads take connections and give them back, whether or not they can be opened, and
-- whenever the timer fires: each of the connections of the pool is at every time in just one of the
-- two stacks or handed out, once, and there are no others.
pub turns-start :
    (max_connects n : ℕ) (ts : List Turn)
    → held n (turns ts (start max_connects)) ≡ (if ltb n max_connects then 1 else 0)
turns-start max_connects n ts =
    turns-held n ts (start max_connects) ∙ omega (arith, count-push_names n max_connects)
