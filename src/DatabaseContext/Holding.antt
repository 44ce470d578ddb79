-- ===== src/DatabaseContext/Holding.antt =====
-- Where the connections of a TDatabaseContext of src/tdatabasecontext.cpp are: in its transactions or
-- in the pools.
use tf.Base.{
  ℕ, ◌+◌, ◌≡◌, refl, Bool, true, false, List, [], ◌∷◌, Option, none, some, inl, inr, if◌then◌else◌,
  ◌==◌, ltb, arith, Bool-cases, ◌++◌, ◌≤◌, append-nil,
}
use tf.Pool.Conservation.{pooled, pool_sql-pooled}
use tf.Transaction.{Connection, Call, Driver, Transaction, same}
use tf.DatabaseContext.{Context, at, put, give_back}

-- The connections of transactions that a test picks.
module _ (p : Transaction → Bool) (c : Connection) where
  abbrev pub in_one : Transaction → ℕ
  in_one tx = elim tx.database [
    | none ↦ 0
    | some c' ↦ if p tx then if same c' c then 1 else 0 else 0
  ]

  abbrev pub in_all : List (ℕ × Transaction) → ℕ
  in_all [] = 0
  in_all ((k, tx) ∷ rest) = in_one tx + in_all rest

  -- A transaction that is put into the map takes the place of the one before.
  pub in_all-put :
      (id : ℕ) (tx : Transaction) (m : List (ℕ × Transaction))
      → in_all (put id tx m) + in_one (at id m) ≡ in_all m + in_one tx
  unfolding put at
  in_all-put id tx [] = omega arith
  in_all-put id tx ((k, old) ∷ rest) = elim (Bool-cases (k == id)) [
    | inl e ↦ rw e (omega arith)
    | inr e ↦ elim (Bool-cases (ltb id k)) [
      | inl e' ↦ rw (e, e') (omega arith)
      | inr e' ↦ rw (e, e') (omega (arith, in_all-put id tx rest))
    ]
  ]

abbrev pub any_one : Transaction → Bool
any_one tx = true

abbrev pub active_one : Transaction → Bool
active_one tx = tx.active

abbrev pub in_pool : Connection → Context → ℕ
in_pool c s = pooled c.number (s.pools c.database_id)

-- How often a connection is in a pool or in a transaction.
abbrev pub held : Connection → Context → ℕ
held c s = in_pool c s + in_all any_one c s.sql_databases

-- Whether a connection has a transaction open after a call, as it was before.
abbrev pub open_after : Connection → Bool → Call → Bool
open_after c b (Call.transaction c' answer) = if same c' c then if answer then true else b else b
open_after c b (Call.commit c' answer) = if same c' c then false else b
open_after c b (Call.rollback c' answer) = if same c' c then false else b
open_after c b (Call.close c') = if same c' c then false else b

abbrev pub open_from : Connection → Bool → List Call → Bool
open_from c b [] = b
open_from c b (x ∷ xs) = open_from c (open_after c b x) xs

-- A transaction has been opened on a connection, and neither commit() nor rollback() has been
-- called since, nor has it been closed.
abbrev pub is_open : Connection → List Call → Bool
is_open c calls = open_from c false calls

pub open_from-append :
    (c : Connection) (b : Bool) (xs : List Call) (x : Call)
    → open_from c b (xs ++ x ∷ []) ≡ open_after c (open_from c b xs) x
open_from-append c b [] x = refl
open_from-append c b (y ∷ ys) x = open_from-append c (open_after c b y) ys x

abbrev pub weight : Bool → ℕ
weight b = if b then 1 else 0

-- A connection is in the pool and in transactions a number of times in all, and it has a transaction
-- open only where one that is active holds it.
pub record Sound (c : Connection) (total holds actives : ℕ) (s : Context) : Type 0 where
  pub held : holds + in_pool c s ≡ total
  pub covered : weight (is_open c s.calls) ≤ actives

abbrev pub Around : Connection → ℕ → ℕ → ℕ → Transaction → Context → Type 0
Around c total holds actives tx s =
    Sound c total (holds + in_one any_one c tx) (actives + in_one active_one c tx) s

module _ (d : Driver) (c : Connection) (total holds actives : ℕ) where
  pub give_back-Sound :
      (force_close : Bool) (o : Option Connection) (enabled : Bool) (s : Context)
      → Around c total holds actives (record { database = o; enabled = enabled; active = false }) s
      → Sound c total holds actives (give_back d force_close o s)
  unfolding give_back
  give_back-Sound force_close none enabled s h = record {
    held = omega (arith, h.held);
    covered = omega (arith, h.covered);
  }
  give_back-Sound true (some c') enabled s h = record {
    held = ground (
      arith,
      h.held,
      pool_sql-pooled c.number (d.time s.calls) c'.number true (s.pools c'.database_id),
    );
    covered = rw (open_from-append c false s.calls (Call.close c')) (ground (arith, h.covered));
  }
  give_back-Sound false (some c') enabled s h = record {
    held = ground (
      arith,
      h.held,
      pool_sql-pooled c.number (d.time s.calls) c'.number false (s.pools c'.database_id),
    );
    covered = rw (append-nil s.calls) (ground (arith, h.covered));
  }
