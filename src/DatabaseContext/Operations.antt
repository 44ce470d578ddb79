-- ===== src/DatabaseContext/Operations.antt =====
-- The operations of src/tdatabasecontext.cpp keep count of the connections and of the transactions
-- that are open on them.
use tf.Base.{
  ℕ, zero, suc, ◌+◌, ◌≡◌, refl, Bool, true, false, List, [], ◌∷◌, ◌++◌, Option, none, some, inl,
  inr, if◌then◌else◌, arith, Bool-cases,
}
use tf.Pool.{Pool, Database, connection, invalid, sql_database}
use tf.Pool.Conservation.{pooled, got, take_cached-pooled}
use tf.Transaction.{Connection, Call, Driver, Transaction, same, begin, begin_on, finish, end_on}
use tf.DatabaseContext.{
  begun, fetched, attempted, next_round, Context, Result, ok, error, blocked, fetch, attempt,
  attempts, finish_one,
}
use tf.DatabaseContext.Holding.{
  active_one, in_one, is_open, open_after, open_from-append, Sound, Around, give_back-Sound,
}

-- What is known of the result of a step, if it has one.
module _ {A : Type 0} (P : A → Type 0) where
  abbrev pub Gives : Result A → Type 0
  Gives (ok a) = P a
  Gives error = Unit {0}
  Gives blocked = Unit {0}

-- A call of the driver that ends a transaction, whatever it answers.
abbrev pub Ends : (Connection → Bool → Call) → Type 0
Ends end =
    (c c' : Connection) (b answer : Bool)
    → open_after c b (end c' answer) ≡ (if same c' c then false else b)

abbrev transaction_of : Option Connection → Bool → Bool → Transaction
transaction_of o e a = record { database = o; enabled = e; active = a }

sql_database-pooled :
    (can_open : ℕ → Bool) (n : ℕ) (p : Pool) (r : Database × Pool)
    → sql_database can_open p ≡ some r
    → got n r.0 + pooled n r.1 ≡ pooled n p
unfolding sql_database
sql_database-pooled can_open n p r e = take_cached-pooled can_open n p.cached p.available p r e

module _ (d : Driver) (c : Connection) (total holds actives : ℕ) where
  abbrev pub I : Transaction × Context → Type 0
  I (tx, s) = Around c total holds actives tx s × (tx.enabled ≡ true)

  begun_with :
      (b : Bool) (c' : Connection) (s : Context)
      → I (transaction_of (some c') true false, s)
      → I (
        transaction_of (some c') true b,
        record s { calls = s.calls ++ Call.transaction c' b ∷ [] },
      )
  begun_with true c' s h = (
    record {
      held = omega (arith, h.0.held);
      covered =
          rw (open_from-append c false s.calls (Call.transaction c' true))
            (ground (arith, h.0.covered));
    },
    refl,
  )
  begun_with false c' s h = (
    record {
      held = omega (arith, h.0.held);
      covered =
          rw (open_from-append c false s.calls (Call.transaction c' false))
            (ground (arith, h.0.covered));
    },
    refl,
  )

  -- Where begin() fails, the transaction is not active, or it has no connection.
  abbrev Begun : Bool × Transaction × List Call → Context → Type 0
  Begun (b, tx, calls) s =
      I (tx, record s { calls = calls }) × (b ≡ false → in_one active_one c tx ≡ 0)

  begin-Begun :
      (o : Option Connection) (e a : Bool) (s : Context)
      → I (transaction_of o e a, s)
      → Begun (begin d (transaction_of o e a) s.calls) s
  unfolding begin begin_on
  begin-Begun none e a s h = (h, λ _. refl)
  begin-Begun (some c') false a s h = cc
  begin-Begun (some c') true true s h = elim (Bool-cases (d.has_transactions c')) [
    | inl f ↦ rw f (h, λ p. cc)
    | inr f ↦ rw f (h, λ p. cc)
  ]
  begin-Begun (some c') true false s h = elim (Bool-cases (d.has_transactions c')) [
    | inr f ↦ rw f (h, λ p. cc)
    | inl f ↦ rw f (begun_with (d.answer s.calls) c' s h, λ p. rw p refl)
  ]

  pub finish_one-Sound :
      (end : Connection → Bool → Call) (force_close : Bool) (o : Option Connection) (e a : Bool)
      (s : Context)
      → Ends end
      → I (transaction_of o e a, s)
      → let (b, tx', s') = finish_one d end force_close (transaction_of o e a) s in
        Sound c total holds actives s' × (tx'.enabled ≡ true)
  unfolding finish_one finish end_on
  finish_one-Sound end force_close o false a s ends h = cc
  finish_one-Sound end force_close o true false s ends h =
      (give_back-Sound d c total holds actives force_close o true s h.0, refl)
  finish_one-Sound end force_close none true true s ends h =
      (give_back-Sound d c total holds actives force_close none true s h.0, refl)
  finish_one-Sound end force_close (some c') true true s ends h = (
    give_back-Sound d c total holds actives force_close (some c') true
        (record s { calls = s.calls ++ end c' (d.answer s.calls) ∷ [] })
        (record {
          held = h.0.held;
          covered =
              rw
                (
                  open_from-append c false s.calls (end c' (d.answer s.calls)),
                  ends c c' (is_open c s.calls) (d.answer s.calls),
                )
                (ground (arith, h.0.covered));
        }),
    refl,
  )

  fetched-Gives :
      (id : ℕ) (e a : Bool) (s : Context) (o : Option (Database × Pool))
      → sql_database (d.can_open s.calls id) (s.pools id) ≡ o
      → I (transaction_of none e a, s)
      → Gives I (fetched d id (transaction_of none e a) s o)
  fetched-Gives id e a s none q h = tt
  fetched-Gives id e a s (some (connection n, p)) q h = (
    record {
      held = ground (
        arith,
        h.0.held,
        sql_database-pooled (d.can_open s.calls id) c.number (s.pools id) (connection n, p) q,
      );
      covered = omega (arith, h.0.covered);
    },
    h.1,
  )
  fetched-Gives id e a s (some (invalid, p)) q h = (
    record {
      held = ground (
        arith,
        h.0.held,
        sql_database-pooled (d.can_open s.calls id) c.number (s.pools id) (invalid, p) q,
      );
      covered = omega (arith, h.0.covered);
    },
    h.1,
  )

  fetch-Gives :
      (id : ℕ) (o : Option Connection) (e a : Bool) (s : Context)
      → I (transaction_of o e a, s)
      → Gives I (fetch d id (transaction_of o e a) s)
  unfolding fetch
  fetch-Gives id (some c') e a s h = h
  fetch-Gives id none e a s h =
      fetched-Gives id e a s (sql_database (d.can_open s.calls id) (s.pools id)) refl h

  begun-I :
      (r : Bool × Transaction × List Call) (s : Context)
      → Begun r s
      → let (b, tx, s') = begun d r s in I (tx, s')
  begun-I (true, tx, calls) s h = h.0
  begun-I (false, tx, calls) s h = (
    let kept =
          give_back-Sound d c total holds actives true tx.database tx.enabled
            (record s { calls = calls }) in
        let released =
          kept (record { held = h.0.0.held; covered = omega (arith, h.0.0.covered, h.1 refl) }) in
        record { held = omega (arith, released.held); covered = omega (arith, released.covered) },
    h.0.1,
  )

  attempted-Gives :
      (r : Result (Transaction × Context)) → Gives I r → Gives (λ r. I (r.1, r.2)) (attempted d r)
  attempted-Gives (ok (tx, s)) h =
      begun-I (begin d tx s.calls) s (begin-Begun tx.database tx.enabled tx.active s h)
  attempted-Gives error h = tt
  attempted-Gives blocked h = tt

  attempt-Gives :
      (id : ℕ) (tx : Transaction) (s : Context)
      → I (tx, s)
      → Gives (λ r. I (r.1, r.2)) (attempt d id tx s)
  unfolding attempt
  attempt-Gives id tx s h =
      attempted-Gives (fetch d id tx s) (fetch-Gives id tx.database tx.enabled tx.active s h)

  next_round-Gives :
      (rest : Transaction → Context → Result (Transaction × Context))
      (r : Result (Bool × Transaction × Context))
      → ((tx : Transaction) (s : Context) → I (tx, s) → Gives I (rest tx s))
      → Gives (λ r. I (r.1, r.2)) r
      → Gives I (next_round d rest r)
  next_round-Gives rest (ok (true, tx, s)) hr h = h
  next_round-Gives rest (ok (false, tx, s)) hr h = hr tx s h
  next_round-Gives rest error hr h = tt
  next_round-Gives rest blocked hr h = tt

  pub attempts-Gives :
      (n id : ℕ) (tx : Transaction) (s : Context) → I (tx, s) → Gives I (attempts d n id tx s)
  unfolding attempts
  attempts-Gives zero id tx s h = h
  attempts-Gives (suc n) id tx s h =
      next_round-Gives (λ tx' s'. attempts d n id tx' s') (attempt d id tx s) (attempts-Gives n id)
        (attempt-Gives id tx s h)
