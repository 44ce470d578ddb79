-- ===== src/DatabaseContext/Idle.antt =====
-- What the pools hold when a TDatabaseContext of src/tdatabasecontext.cpp has been used.
use tf.Base.{ℕ, ◌≡◌, Bool, true, List, [], ◌∷◌}
use tf.Base.Int.{ℤ}
use tf.Transaction.{Driver, Transaction}
use tf.DatabaseContext.{
  Context, get_sql_database, set_transaction_enabled, commit_transactions, rollback_transactions,
  commit_transaction, rollback_transaction, release,
}
use tf.DatabaseContext.Quiet.{after, Quiet}
use tf.Pool.{init}

-- What the code of an action, or the framework, does with the databases of its context.
pub data Op : Type 0 where
  get : ℤ → Op
  set_enabled : Bool → ℤ → Op
  commit_all : Op
  rollback_all : Op
  commit_one : ℤ → Op
  rollback_one : ℤ → Op
  release_all : Op

module _ (d : Driver) (settings : ℕ) where
  unfoldable pub perform : Op → Context → Context
  perform (get id) s = after (get_sql_database d settings id s) s
  perform (set_enabled enable id) s = set_transaction_enabled d enable id s
  perform commit_all s = commit_transactions d s
  perform rollback_all s = rollback_transactions d s
  perform (commit_one id) s = (commit_transaction d id s).1
  perform (rollback_one id) s = (rollback_transaction d id s).1
  perform release_all s = release d s

  unfoldable pub perform_all : List Op → Context → Context
  perform_all [] s = s
  perform_all (op ∷ ops) s = perform_all ops (perform op s)

-- Transactions are never disabled, as in controllers with transactionEnabled().
abbrev pub Keeps : Op → Type 0
Keeps (Op.set_enabled enable id) = enable ≡ true
Keeps _ = Unit {0}

abbrev pub AllKeep : List Op → Type 0
AllKeep [] = Unit {0}
AllKeep (op ∷ ops) = Keeps op × AllKeep ops

-- A context that has taken nothing yet, with a number of connections for each database.
abbrev pub fresh : (ℕ → ℕ) → Context
fresh max_connects = record {
  sql_databases = [];
  pools = λ id. init (max_connects id);
  calls = [];
  idle_elapsed = 0;
}
