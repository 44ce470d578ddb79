-- ===== src/DatabaseContext/Quiet.antt =====
-- What the operations of src/tdatabasecontext.cpp keep: each connection has its place, and transactions
-- are open only on those that are in use.
use tf.Base.{
  ℕ, ◌+◌, ◌≡◌, refl, Bool, true, List, [], ◌∷◌, Option, inl, inr, ◌==◌, leb, ltb, length, arith,
  Bool-cases,
}
use tf.Base.Int.{ℤ, pos, negsuc}
use tf.Transaction.{Connection, Call, Driver, Transaction}
use tf.DatabaseContext.{
  Context, Result, ok, error, blocked, at, put, attempts, got, is_ready, get_sql_database,
  finish_one, finish_all, with_all, finish_at,
}
use tf.DatabaseContext.Holding.{any_one, active_one, in_one, in_all, in_all-put, Sound}
use tf.DatabaseContext.Operations.{Gives, Ends, I, finish_one-Sound, attempts-Gives}

-- An exception leaves the context as it is, and a call that does not return changes nothing.
abbrev pub after : Result (Option Connection × Context) → Context → Context
after (ok (db, s')) s = s'
after error s = s
after blocked s = s

abbrev pub AllEnabled : List (ℕ × Transaction) → Type 0
AllEnabled [] = Unit {0}
AllEnabled ((k, tx) ∷ rest) = (tx.enabled ≡ true) × AllEnabled rest

pub at-enabled :
    (id : ℕ) (txs : List (ℕ × Transaction)) → AllEnabled txs → (at id txs).enabled ≡ true
unfolding at
at-enabled id [] h = refl
at-enabled id ((k, tx) ∷ rest) h = ground (arith, at-enabled id rest h.1)

put-AllEnabled :
    (id : ℕ) (tx : Transaction) (txs : List (ℕ × Transaction))
    → AllEnabled txs
    → tx.enabled ≡ true
    → AllEnabled (put id tx txs)
unfolding put
put-AllEnabled id tx [] h e = (e, tt)
put-AllEnabled id tx ((k, old) ∷ rest) h e = elim (Bool-cases (k == id)) [
  | inl q ↦ rw q (e, h.1)
  | inr q ↦ elim (Bool-cases (ltb id k)) [
    | inl q' ↦ rw (q, q') (e, h)
    | inr q' ↦ rw (q, q') (h.0, put-AllEnabled id tx rest h.1 e)
  ]
]

module _ (d : Driver) (c : Connection) (total : ℕ) where
  pub record Quiet (s : Context) : Type 0 where
    pub sound :
        Sound c total (in_all any_one c s.sql_databases) (in_all active_one c s.sql_databases) s
    pub enabled : AllEnabled s.sql_databases

  -- A transaction can be taken out of the map.
  pub others :
      (p : Transaction → Bool) (id : ℕ) (txs : List (ℕ × Transaction))
      → (n : ℕ) × (n + in_one p c (at id txs) ≡ in_all p c txs)
  unfolding at
  others p id [] = (0, refl)
  others p id ((k, tx) ∷ rest) = elim (Bool-cases (k == id)) [
    | inl q ↦ rw q (in_all p c rest, omega arith)
    | inr q ↦ elim (Bool-cases (ltb id k)) [
      | inl q' ↦ rw (q, q') (in_one p c tx + in_all p c rest, omega arith)
      | inr q' ↦ rw (q, q') (let (n, e) = others p id rest in (in_one p c tx + n, omega (arith, e)))
    ]
  ]

  -- A transaction of the map is put back into it.
  pub put-Quiet :
      (id : ℕ) (txs : List (ℕ × Transaction)) (tx : Transaction) (s : Context) (holds actives : ℕ)
      → AllEnabled txs
      → holds + in_one any_one c (at id txs) ≡ in_all any_one c txs
      → actives + in_one active_one c (at id txs) ≡ in_all active_one c txs
      → I d c total holds actives (tx, s)
      → Quiet (record s { sql_databases = put id tx txs })
  put-Quiet id txs tx s holds actives e eh ea h = record {
    sound = record {
      held = omega (arith, h.0.held, in_all-put any_one c id tx txs);
      covered = omega (arith, h.0.covered, in_all-put active_one c id tx txs);
    };
    enabled = put-AllEnabled id tx txs e h.1;
  }

  got-Quiet :
      (id : ℕ) (s : Context) (r : Result (Transaction × Context)) (holds actives : ℕ)
      → AllEnabled s.sql_databases
      → holds + in_one any_one c (at id s.sql_databases) ≡ in_all any_one c s.sql_databases
      → actives + in_one active_one c (at id s.sql_databases) ≡ in_all active_one c s.sql_databases
      → Quiet s
      → Gives (I d c total holds actives) r
      → Quiet (after (got d id s.sql_databases r) s)
  got-Quiet id s (ok (tx, s')) holds actives e eh ea q h =
      let done = put-Quiet id s.sql_databases tx s' holds actives e eh ea h in
      record {
        sound = record { held = done.sound.held; covered = done.sound.covered };
        enabled = done.enabled;
      }
  got-Quiet id s error holds actives e eh ea q h = q
  got-Quiet id s blocked holds actives e eh ea q h = q

  pub get-Quiet :
      (settings : ℕ) (id : ℤ) (s : Context)
      → Quiet s
      → Quiet (after (get_sql_database d settings id s) s)
  unfolding get_sql_database
  get-Quiet settings (negsuc n) s q = q
  get-Quiet settings (pos id) s q =
      let tx = at id s.sql_databases in
      elim (Bool-cases (leb settings id)) [
        | inl e ↦ rw e q
        | inr e ↦ elim (Bool-cases (is_ready d tx)) [
          | inl e' ↦ rw (e, e') q
          | inr e' ↦
              rw (e, e')
                (let (h, eh) = others any_one id s.sql_databases in
                  let (a, ea) = others active_one id s.sql_databases in
                  got-Quiet id s (attempts d 2 id tx s) h a q.enabled eh ea q (
                    attempts-Gives d c total h a 2 id tx s (
                      record {
                        held = omega (arith, eh, q.sound.held);
                        covered = omega (arith, ea, q.sound.covered);
                      },
                      at-enabled id s.sql_databases q.enabled,
                    )))
        ]
      ]

  -- What the loops over the transactions leave: all have given their connections back.
  abbrev pub Finished : ℕ → ℕ → List (ℕ × Transaction) × Context → Type 0
  Finished holds actives (txs, s) =
      Sound c total holds actives s
      × (in_all any_one c txs ≡ 0)
      × (in_all active_one c txs ≡ 0)
      × AllEnabled txs

  finish_all-Finished :
      (end : Connection → Bool → Call) (force_close : Bool) (txs : List (ℕ × Transaction))
      (s : Context) (holds actives : ℕ)
      → Ends end
      → AllEnabled txs
      → Sound c total (holds + in_all any_one c txs) (actives + in_all active_one c txs) s
      → Finished holds actives (finish_all d end force_close txs s)
  unfolding finish_all finish_one
  finish_all-Finished end force_close [] s holds actives ends e h =
      (record { held = omega (arith, h.held); covered = omega (arith, h.covered) }, refl, refl, tt)
  finish_all-Finished end force_close ((k, tx) ∷ rest) s holds actives ends e h =
      let (one, kept) =
        finish_one-Sound d c total (holds + in_all any_one c rest)
          (actives + in_all active_one c rest) end force_close tx.database tx.enabled tx.active s
          ends (record { held = omega (arith, h.held); covered = omega (arith, h.covered) }, e.0) in
      let s' = (finish_one d end force_close tx s).2 in
      let (all, h0, a0, ks) =
        finish_all-Finished end force_close rest s' holds actives ends e.1 one in
      (all, omega (arith, h0), omega (arith, a0), (kept, ks))

  pub with_all-Quiet :
      (r : List (ℕ × Transaction) × Context) → Finished 0 0 r → Quiet (with_all d r)
  with_all-Quiet (txs, s) (h, h0, a0, e) = record {
    sound = record { held = omega (arith, h.held, h0); covered = omega (arith, h.covered) };
    enabled = e;
  }

  pub finish_at-Quiet :
      (end : Connection → Bool → Call) (force_close : Bool) (id : ℤ) (s : Context)
      → Ends end
      → Quiet s
      → Quiet (finish_at d end force_close id s).1
  unfolding finish_at finish_one
  finish_at-Quiet end force_close (negsuc n) s ends q = q
  finish_at-Quiet end force_close (pos id) s ends q =
      elim (Bool-cases (leb (length s.sql_databases) id)) [
        | inl e ↦ rw e q
        | inr e ↦ rw e (
            let (h, eh) = others any_one id s.sql_databases in
            let (a, ea) = others active_one id s.sql_databases in
            let tx = at id s.sql_databases in
            let (one, kept) =
              finish_one-Sound d c total h a end force_close tx.database tx.enabled tx.active s ends
                (
                  record {
                    held = omega (arith, eh, q.sound.held);
                    covered = omega (arith, ea, q.sound.covered);
                  },
                  at-enabled id s.sql_databases q.enabled,
                ) in
            let (_, tx', s') = finish_one d end force_close tx s in
            put-Quiet id s.sql_databases tx' s' h a q.enabled eh ea (
              record { held = omega (arith, one.held); covered = omega (arith, one.covered) },
              kept,
            ))
      ]

  pub commit-Ends : Ends Call.commit
  commit-Ends c c' b answer = refl

  pub rollback-Ends : Ends Call.rollback
  rollback-Ends c c' b answer = refl

  pub finish_all_of :
      (end : Connection → Bool → Call) (force_close : Bool) (s : Context)
      → Ends end
      → Quiet s
      → Finished 0 0 (finish_all d end force_close s.sql_databases s)
  finish_all_of end force_close s ends q =
      finish_all-Finished end force_close s.sql_databases s 0 0 ends q.enabled
        (record { held = omega (arith, q.sound.held); covered = omega (arith, q.sound.covered) })
