-- ===== src/Pool/Opening.antt =====
-- What database() of src/tsqldatabasepool.cpp and src/tkvsdatabasepool.cpp returns, and what becomes of
-- a connection that cannot be opened.
use tf.Base.{
  ℕ, zero, suc, ◌≡◌, refl, sym, ap, ◌∙◌, Bool, true, false, List, [], ◌∷◌, Option, none, some,
  ==_refl, inl, inr, Bool-cases, length,
}
use tf.Pool.{
  Pool, Database, connection, invalid, push_names, init, take_sql, take_kvs, take_cached,
  sql_database, kvs_database,
}

-- A connection that is returned is open.
abbrev pub Opened : Option (Database × Pool) → Type 0
Opened none = Unit
Opened (some (connection n, p)) = p.is_open n ≡ true
Opened (some (invalid, p)) = Unit

module _ (can_open : ℕ → Bool) where
  take_sql-Opened : (stack : List ℕ) (p : Pool) → Opened (take_sql can_open stack p)
  unfolding take_sql
  take_sql-Opened [] p = tt
  take_sql-Opened (n ∷ stack) p = elim (Bool-cases (p.is_open n)) [
    | inl e ↦ rw e e
    | inr e ↦ elim (Bool-cases (can_open n)) [ inl c ↦ rw (e, c, ==_refl n) | inr c ↦ rw (e, c) tt ]
  ]

  take_kvs-Opened : (stack : List ℕ) (p : Pool) → Opened (take_kvs can_open stack p)
  unfolding take_kvs
  take_kvs-Opened [] p = tt
  take_kvs-Opened (n ∷ stack) p = elim (Bool-cases (p.is_open n)) [
    | inl e ↦ rw e e
    | inr e ↦ elim (Bool-cases (can_open n)) [ inl c ↦ rw (e, c, ==_refl n) | inr c ↦ rw (e, c) tt ]
  ]

take_cached-Opened :
    (take : List ℕ → Pool → Option (Database × Pool))
    → ((stack : List ℕ) (p : Pool) → Opened (take stack p))
    → (cached stack : List ℕ) (p : Pool) → Opened (take_cached take cached stack p)
unfolding take_cached
take_cached-Opened take opens [] stack p = opens stack (record p { cached = []; available = stack })
take_cached-Opened take opens (n ∷ cached) stack p = elim (Bool-cases (p.is_open n)) [
  | inl e ↦ rw e e
  | inr e ↦ rw e (take_cached-Opened take opens cached (n ∷ stack) p)
]

-- Where database() of either pool returns a connection, it is open, whatever is in the stacks.
pub database-Opened :
    (can_open : ℕ → Bool) (p : Pool)
    → Opened (sql_database can_open p) × Opened (kvs_database can_open p)
unfolding sql_database kvs_database
database-Opened can_open p = (
  take_cached-Opened (take_sql can_open) (take_sql-Opened can_open) p.cached p.available p,
  take_cached-Opened (take_kvs can_open) (take_kvs-Opened can_open) p.cached p.available p,
)

-- The pool after a call of database(), and after some that cannot open a connection.
abbrev pub pool_after : Pool → Option (Database × Pool) → Pool
pool_after p none = p
pool_after p (some r) = r.1

abbrev pub fail_times : ((ℕ → Bool) → Pool → Option (Database × Pool)) → ℕ → Pool → Pool
fail_times call zero p = p
fail_times call (suc n) p = fail_times call n (pool_after p (call (λ k. false) p))

abbrev idle : List ℕ → Pool
idle stack = record { cached = []; available = stack; last_cached_time = 0; is_open = λ k. false }

fail_times-kvs : (stack : List ℕ) → fail_times kvs_database (length stack) (idle stack) ≡ idle []
unfolding kvs_database take_cached take_kvs
fail_times-kvs [] = refl
fail_times-kvs (n ∷ stack) = fail_times-kvs stack

fail_times-sql : (n : ℕ) (stack : List ℕ) → fail_times sql_database n (idle stack) ≡ idle stack
unfolding sql_database take_cached take_sql
fail_times-sql zero stack = refl
fail_times-sql (suc n) [] = fail_times-sql n []
fail_times-sql (suc n) (m ∷ stack) = fail_times-sql n (m ∷ stack)

length-push_names : (n : ℕ) → length (push_names n []) ≡ n
unfolding push_names
length-push_names zero = refl
length-push_names (suc n) = ap suc (length-push_names n)

-- When as many calls as there are connections could not open one, database() of the pool of
-- key-value stores does not return any more, even if the store can be opened again, while the pool
-- of SQL databases is as it was.
pub database-after_failures :
    (can_open : ℕ → Bool) (n : ℕ)
    → (kvs_database can_open (fail_times kvs_database n (init n)) ≡ none)
      × (fail_times sql_database n (init n) ≡ init n)
unfolding kvs_database take_cached take_kvs
database-after_failures can_open n = (
  ap (λ m. kvs_database can_open (fail_times kvs_database m (init n))) (sym (length-push_names n))
      ∙ ap (kvs_database can_open) (fail_times-kvs (push_names n [])),
  fail_times-sql n (push_names n []),
)
