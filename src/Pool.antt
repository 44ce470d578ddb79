-- ===== src/Pool.antt =====
-- src/tsqldatabasepool.cpp and src/tkvsdatabasepool.cpp: the connections of one database. A connection
-- is the number in its name; the drivers are parameters: whether open() of a connection succeeds.
-- The stacks are lists with the top first; threads take their turns at whole operations.
pub mod Conservation
pub mod Turns
pub mod Opening
use tf.Base.{
  ℕ, zero, suc, ◌+◌, ◌-◌, ◌%◌, ◌^◌, Bool, true, false, List, [], ◌∷◌, Option, none, some,
  if◌then◌else◌, ◌==◌, ltb,
}

-- cachedDatabase, availableNames and lastCachedTime of a database, and which connections are open.
pub record Pool : Type 0 where
  pub cached : List ℕ
  pub available : List ℕ
  pub last_cached_time : ℕ
  pub is_open : ℕ → Bool

-- What database() returns: an open connection, or an invalid object where it cannot be opened.
pub data Database : Type 0 where
  connection : ℕ → Database
  invalid : Database

abbrev pub set_open : ℕ → Bool → Pool → Pool
set_open n b p = record p { is_open = λ k. if k == n then b else p.is_open k }

-- init(): the names of the connections are pushed in their order.
unfoldable pub push_names : ℕ → List ℕ → List ℕ
push_names zero stack = stack
push_names (suc i) stack = i ∷ push_names i stack

abbrev pub init : ℕ → Pool
init max_connects = record {
  cached = [];
  available = push_names max_connects [];
  last_cached_time = 0;
  is_open = λ k. false;
}

-- The part of the loop of TSqlDatabasePool::database() that takes a name from the stack: `none`
-- where there is none, so that the loop goes on.
unfoldable pub take_sql : (ℕ → Bool) → List ℕ → Pool → Option (Database × Pool)
take_sql can_open [] p = none
take_sql can_open (n ∷ stack) p =
    if p.is_open n
    then some (connection n, record p { available = stack })
    else if can_open n
    then some (connection n, set_open n true (record p { available = stack }))
    else some (invalid, record p { available = n ∷ stack })

-- That of TKvsDatabasePool::database().
unfoldable pub take_kvs : (ℕ → Bool) → List ℕ → Pool → Option (Database × Pool)
take_kvs can_open [] p = none
take_kvs can_open (n ∷ stack) p =
    if p.is_open n
    then some (connection n, record p { available = stack })
    else if can_open n
    then some (connection n, set_open n true (record p { available = stack }))
    else some (invalid, record p { available = stack })

-- The loop over the cached connections: one that is not open goes to the stack.
unfoldable pub take_cached :
    (List ℕ → Pool → Option (Database × Pool)) → List ℕ → List ℕ → Pool → Option (Database × Pool)
take_cached take [] stack p = take stack (record p { cached = []; available = stack })
take_cached take (n ∷ cached) stack p =
    let rest = take_cached take cached (n ∷ stack) p in
    if p.is_open n
    then some (connection n, record p { cached = cached; available = stack })
    else rest

-- database(id), of a database that the settings have: `none` where the loop does not end, as both
-- stacks are empty and nobody pools a connection.
unfoldable pub sql_database : (ℕ → Bool) → Pool → Option (Database × Pool)
sql_database can_open p = take_cached (take_sql can_open) p.cached p.available p

unfoldable pub kvs_database : (ℕ → Bool) → Pool → Option (Database × Pool)
kvs_database can_open p = take_cached (take_kvs can_open) p.cached p.available p

-- closeDatabase()
unfoldable pub close_database : ℕ → Pool → Pool
close_database n p = set_open n false (record p { available = n ∷ p.available })

-- pool(database, forceClose) of TSqlDatabasePool, at a time; the connection is valid, and its name
-- is one of this database.
unfoldable pub pool_sql : ℕ → Bool → ℕ → Pool → Pool
unfolding close_database
pool_sql now force_close n p =
    if force_close
    then close_database n p
    else record p { cached = n ∷ p.cached; last_cached_time = now }

-- pool(database) of TKvsDatabasePool.
unfoldable pub pool_kvs : ℕ → ℕ → Pool → Pool
pool_kvs now n p = record p { cached = n ∷ p.cached; last_cached_time = now }

-- The loop of timerEvent() over the cached connections.
unfoldable pub close_cached : List ℕ → Pool → Pool
unfolding close_database
close_cached [] p = record p { cached = [] }
close_cached (n ∷ cached) p = close_cached cached (close_database n p)

-- timerEvent(): connections that have been cached for more than 30 seconds are closed, by the
-- arithmetic of a uint.
unfoldable pub timer_event : ℕ → Pool → Pool
unfolding close_cached
timer_event now p =
    if ltb p.last_cached_time ((now + 2 ^ 32 - 30) % 2 ^ 32) then close_cached p.cached p else p
