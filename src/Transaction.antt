-- ===== src/Transaction.antt =====
-- src/tsqltransaction.h and src/tsqltransaction.cpp: TSqlTransaction. The drivers of SQL databases are
-- a parameter; all calls of them are kept in a list, the first one first.
use tf.Base.{
  ℕ, Bool, true, false, ◌&&◌, List, [], ◌∷◌, ◌++◌, Option, none, some, if◌then◌else◌, ◌==◌,
}

-- A connection is the number of its database and its own number, as in its name.
pub record Connection : Type 0 where
  pub database_id : ℕ
  pub number : ℕ

abbrev pub same : Connection → Connection → Bool
same a b = a.database_id == b.database_id && a.number == b.number

-- A call of the driver of a connection, with its answer.
pub data Call : Type 0 where
  transaction : Connection → Bool → Call
  commit : Connection → Bool → Call
  rollback : Connection → Bool → Call
  close : Connection → Call

-- What a driver answers can depend on all the calls before; so can the connections that can be
-- opened, and the time.
pub record Driver : Type 0 where
  pub has_transactions : Connection → Bool
  pub answer : List Call → Bool
  pub can_open : List Call → ℕ → ℕ → Bool
  pub time : List Call → ℕ

-- _database, which is `none` where it is not valid, _enabled and _active.
pub record Transaction : Type 0 where
  pub database : Option Connection
  pub enabled : Bool
  pub active : Bool

-- TSqlTransaction()
abbrev pub new : Transaction
new = record { database = none; enabled = true; active = false }

abbrev pub set_enabled : Bool → Transaction → Transaction
set_enabled enable tx = record tx { enabled = enable }

module _ (d : Driver) where
  -- begin() with a valid database.
  unfoldable pub begin_on : Connection → Transaction → List Call → Bool × Transaction × List Call
  begin_on c tx calls =
      if tx.enabled
      then if d.has_transactions c
        then if tx.active then (true, tx, calls) else (
          d.answer calls,
          record tx { active = d.answer calls },
          calls ++ transaction c (d.answer calls) ∷ [],
        )
        else (true, tx, calls)
      else (true, tx, calls)

  -- begin()
  unfoldable pub begin : Transaction → List Call → Bool × Transaction × List Call
  unfolding begin_on
  begin tx calls = elim tx.database [ none ↦ (false, tx, calls) | some c ↦ begin_on c tx calls ]

  -- What commit() and rollback() do with a transaction that is enabled and active.
  unfoldable pub end_on :
      (Connection → Bool → Call) → Option Connection → List Call → Bool × List Call
  end_on end none calls = (true, calls)
  end_on end (some c) calls = (d.answer calls, calls ++ end c (d.answer calls) ∷ [])

  abbrev inactive : Bool × List Call → Transaction → Bool × Transaction × List Call
  inactive (res, calls) tx = (res, record tx { active = false }, calls)

  -- commit() with Call.commit, and rollback() with Call.rollback: the bodies are the same.
  unfoldable pub finish :
      (Connection → Bool → Call) → Transaction → List Call → Bool × Transaction × List Call
  unfolding end_on
  finish end tx calls =
      if tx.enabled
      then if tx.active
        then inactive (end_on end tx.database calls) tx
        else inactive (true, calls) tx
      else (true, tx, calls)
