-- ===== src/Session/Generating.antt =====
-- What generateId() of src/tsessionmanager.cpp gives.
use tf.Base.{
  ℕ, zero, suc, ◌+◌, ◌<◌, ◌≤◌, ◌≡◌, refl, Bool, true, false, Option, none, some, if◌then◌else◌, inl,
  inr, Bool-cases, arith,
}
use native.Mathlib.Decide.{dec_lt}
use tf.Base.Text.{Text, is_empty}
use tf.Session.{
  Store, Generated, generated, thrown, has_no_vars, find_session, generate_rounds, generate_id,
}

-- Looking for a session changes nothing that the requests share.
abbrev pub FindsOnly : {V S : Type 0} → Option (Store V S) → Type 0
FindsOnly none = Unit {0}
FindsOnly {V} {S} (some st) = (id : Text) (s : S) → (st.find id s).1 ≡ s

module _ {V S : Type 0} (factory : Option (Store V S)) (create_hash : ℕ → Text) where
  abbrev pub taken : S → ℕ → Bool
  taken s k = if has_no_vars (find_session factory (create_hash k) s).0 then false else true

  -- The first of some hashes that is free, or none of them is.
  abbrev pub FirstFree : ℕ → ℕ → S → Generated S → Type 0
  FirstFree n seq s (generated id s' m) =
      (s' ≡ s)
      × (id ≡ create_hash m)
      × (taken s m ≡ false)
      × (seq < m)
      × (m ≤ seq + n)
      × ((k : ℕ) → seq < k → k < m → taken s k ≡ true)
  FirstFree n seq s (thrown s' m) = (s' ≡ s) × ((k : ℕ) → seq < k → k ≤ seq + n → taken s k ≡ true)

  found-same :
      (o : Option (Store V S)) (id : Text) (s : S) → FindsOnly o → (find_session o id s).1 ≡ s
  unfolding find_session
  found-same none id s h = ground arith
  found-same (some st) id s h = elim (Bool-cases (is_empty id)) [
    | inl e ↦ rw e refl
    | inr e ↦ rw e (h id s)
  ]

  still_taken :
      (s : S) (seq k : ℕ)
      → taken s (suc seq) ≡ true
      → (suc seq < k → taken s k ≡ true)
      → seq < k
      → taken s k ≡ true
  still_taken s seq k t later lt = elim (dec_lt (suc seq) k) [
    | yes p ↦ later p
    | no p ↦ let same : k ≡ suc seq = omega arith in rw same t
  ]

  widen :
      (n seq : ℕ) (s : S) (r : Generated S)
      → taken s (suc seq) ≡ true
      → FirstFree n (suc seq) s r
      → FirstFree (suc n) seq s r
  widen n seq s (generated id s' m) t (same, e, free, low, high, before) = (
    same,
    e,
    free,
    omega arith,
    omega arith,
    λ k a b. still_taken s seq k t (λ p. before k p b) a,
  )
  widen n seq s (thrown s' m) t (same, all) =
      (same, λ k a b. still_taken s seq k t (λ p. all k p (omega arith)) a)

  generate_rounds-FirstFree :
      (n seq : ℕ) (s : S)
      → FindsOnly factory
      → FirstFree n seq s (generate_rounds factory create_hash n seq s)
  unfolding generate_rounds
  generate_rounds-FirstFree zero seq s h = (refl, λ k a b. absurd (omega arith))
  generate_rounds-FirstFree (suc n) seq s h =
      let found = find_session factory (create_hash (suc seq)) s in
      elim (Bool-cases (has_no_vars found.0)) [
        | inl e ↦ rw e (
          found-same factory (create_hash (suc seq)) s h,
          refl,
          rw e refl,
          omega arith,
          omega arith,
          λ k a b. absurd (omega arith),
        )
        | inr e ↦ rw e (
            let ih = generate_rounds-FirstFree n (suc seq) s h in
            rw (found-same factory (create_hash (suc seq)) s h)
              (widen n seq s (generate_rounds factory create_hash n (suc seq) s) (rw e refl) ih))
      ]

  -- generateId() gives the first of three hashes that no session with values has, and where there is
  -- none of the three, it throws an exception.
  pub generate_id-FirstFree :
      (seq : ℕ) (s : S)
      → FindsOnly factory
      → FirstFree 3 seq s (generate_id factory create_hash seq s)
  unfolding generate_id
  generate_id-FirstFree seq s h = generate_rounds-FirstFree 3 seq s h
