-- ===== src/Dispatcher/Choice.antt =====
-- Which slot TDispatcher::invoke() of src/tdispatcher.h chooses.
use tf.Base.{
  ℕ, zero, suc, ◌+◌, ◌-◌, ◌≤◌, ◌<◌, ◌≡◌, min, Bool, true, false, List, Option, none, some, length,
  arith, inl, inr, Bool-cases, ◌⊎◌,
}
use native.Mathlib.Decide.{dec_lt}
use tf.Base.Text.{Text}
use tf.Dispatcher.{num_params, find_down, find_up, or_else, find_method}

module _ (has_slot : ℕ → Bool) where
  -- No slot has more parameters than the first number and at most the second one.
  abbrev pub NoneAbove : ℕ → ℕ → Type 0
  NoneAbove low high = (i : ℕ) → low < i → i ≤ high → has_slot i ≡ false

  abbrev pub NoneBelow : ℕ → Type 0
  NoneBelow high = (i : ℕ) → i ≤ high → has_slot i ≡ false

  abbrev DownChoice : ℕ → Option ℕ → Type 0
  DownChoice narg none = NoneBelow narg
  DownChoice narg (some k) = (has_slot k ≡ true) × (k ≤ narg) × NoneAbove k narg

  widen-down :
      (n : ℕ) (o : Option ℕ) → has_slot (suc n) ≡ false → DownChoice n o → DownChoice (suc n) o
  widen-down n none q h = λ i p. elim (dec_lt n i) [
    | yes lt ↦ let same : i ≡ suc n = omega arith in rw same q
    | no ge ↦ h i (omega arith)
  ]
  widen-down n (some k) q (slot, le, above) = (
    slot,
    omega arith,
    λ i p r. elim (dec_lt n i) [
      | yes lt ↦ let same : i ≡ suc n = omega arith in rw same q
      | no ge ↦ above i p (omega arith)
    ],
  )

  find_down-DownChoice : (narg : ℕ) → DownChoice narg (find_down has_slot narg)
  unfolding find_down
  find_down-DownChoice zero = elim (Bool-cases (has_slot 0)) [
    | inl q ↦ rw q (q, omega arith, λ i p r. absurd (omega arith))
    | inr q ↦ rw q (λ i p. let same : i ≡ 0 = omega arith in rw same q)
  ]
  find_down-DownChoice (suc n) = elim (Bool-cases (has_slot (suc n))) [
    | inl q ↦ rw q (q, omega arith, λ i p r. absurd (omega arith))
    | inr q ↦ rw q (widen-down n (find_down has_slot n) q (find_down-DownChoice n))
  ]

  -- Among n numbers from one on.
  abbrev UpChoice : ℕ → ℕ → Option ℕ → Type 0
  UpChoice n from none = (i : ℕ) → from ≤ i → i < from + n → has_slot i ≡ false
  UpChoice n from (some k) =
      (has_slot k ≡ true)
      × (from ≤ k)
      × (k < from + n)
      × ((i : ℕ) → from ≤ i → i < k → has_slot i ≡ false)

  widen-up :
      (n from : ℕ) (o : Option ℕ)
      → has_slot from ≡ false
      → UpChoice n (from + 1) o
      → UpChoice (suc n) from o
  widen-up n from none q h = λ i p r. elim (dec_lt from i) [
    | yes lt ↦ h i (omega arith) (omega arith)
    | no ge ↦ let same : i ≡ from = omega arith in rw same q
  ]
  widen-up n from (some k) q (slot, low, high, before) = (
    slot,
    omega arith,
    omega arith,
    λ i p r. elim (dec_lt from i) [
      | yes lt ↦ before i (omega arith) r
      | no ge ↦ let same : i ≡ from = omega arith in rw same q
    ],
  )

  find_up-UpChoice : (n from : ℕ) → UpChoice n from (find_up has_slot n from)
  unfolding find_up
  find_up-UpChoice zero from = λ i p r. absurd (omega arith)
  find_up-UpChoice (suc n) from = elim (Bool-cases (has_slot from)) [
    | inl q ↦ rw q (q, omega arith, omega arith, λ i p r. absurd (omega arith))
    | inr q ↦
        rw q (widen-up n from (find_up has_slot n (from + 1)) q (find_up-UpChoice n (from + 1)))
  ]

  -- The choice for a number of arguments: the slot with the most parameters that the arguments fill,
  -- or else that with the fewest more, of nine at most.
  abbrev pub Choice : ℕ → Option ℕ → Type 0
  Choice narg none = (i : ℕ) → i ≤ narg ⊎ (i < num_params - 1) → has_slot i ≡ false
  Choice narg (some k) =
      (has_slot k ≡ true)
      × (((k ≤ narg) × NoneAbove k narg)
          ⊎ (NoneBelow narg
              × (narg < k)
              × (k < num_params - 1)
              × ((i : ℕ) → i < k → has_slot i ≡ false)))

  choose :
      (narg : ℕ) (down up : Option ℕ)
      → narg ≤ num_params - 1
      → DownChoice narg down
      → UpChoice (num_params - 2 - narg) (narg + 1) up
      → Choice narg (or_else down up)
  choose narg (some k) up le (slot, low, above) u = (slot, inl (low, above))
  choose narg none none le below u = λ i p. elim (dec_lt narg i) [
    | yes lt ↦ elim p [ inl a ↦ absurd (omega arith) | inr b ↦ u i (omega arith) (omega arith) ]
    | no ge ↦ below i (omega arith)
  ]
  choose narg none (some k) le below (slot, low, high, before) = (
    slot,
    inr (
      below,
      omega arith,
      omega arith,
      λ i p. elim (dec_lt narg i) [
        | yes lt ↦ before i (omega arith) p
        | no ge ↦ below i (omega arith)
      ],
    ),
  )

  -- invoke() chooses the slot with the most parameters that the arguments fill, of ten arguments at
  -- most; where there is none, that with the fewest parameters more, which are fewer than ten.
  pub find_method-Choice :
      (args : List Text) → Choice (min (length args) (num_params - 1)) (find_method has_slot args)
  unfolding find_method
  find_method-Choice args =
      let narg = min (length args) (num_params - 1) in
      choose narg (find_down has_slot narg) (find_up has_slot (num_params - 2 - narg) (narg + 1))
        (omega arith) (find_down-DownChoice narg)
        (find_up-UpChoice (num_params - 2 - narg) (narg + 1))
