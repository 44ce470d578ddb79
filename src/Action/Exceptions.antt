-- ===== src/Action/Exceptions.antt =====
-- Code that changes a state and can throw: a ClientErrorException with its status code, or another
-- exception. What has been changed before an exception stays changed.
use tf.Base.{ℕ, Bool, true, false, if◌then◌else◌}

pub data Result (A : Type 0) : Type 0 where
  ok : A → Result A
  client_error : ℕ → Result A
  failure : Result A

abbrev pub Effect : Type 0 → Type 0 → Type 0
Effect S A = S → Result A × S

abbrev pub Done : Type 0
Done = Unit {0}

-- A return of a value, and a throw where the result is not ok.
unfoldable pub pure : {S A : Type 0} → A → Effect S A
pure result state = (ok result, state)

unfoldable pub throw : {S A : Type 0} → Result A → Effect S A
throw exception state = (exception, state)

unfoldable pub modify : {S : Type 0} → (S → S) → Effect S Done
modify f s = (ok tt, f s)

module _ {S A B : Type 0} where
  abbrev pub continue : Result A × S → (A → Effect S B) → Result B × S
  continue (ok a, s) f = f a s
  continue (client_error code, s) f = (client_error code, s)
  continue (failure, s) f = (failure, s)

  infixl 5 ◌>>=◌
  unfoldable pub ◌>>=◌ : Effect S A → (A → Effect S B) → Effect S B
  ◌>>=◌ first next state = continue (first state) next

  infixl 5 ◌>>◌
  abbrev pub ◌>>◌ : Effect S A → Effect S B → Effect S B
  first >> second = first >>= λ result. second

unfoldable pub when : {S : Type 0} → Bool → Effect S Done → Effect S Done
when true m s = m s
when false m s = (ok tt, s)

-- A part of the state that code works on.
unfoldable pub zoom : {S T A : Type 0} → (T → S) → (S → T → T) → Effect S A → Effect T A
zoom get set m t = ((m (get t)).0, set (m (get t)).1 t)

-- What holds of the state is still true afterwards, also where an exception has been thrown.
pub record Maintains {T A : Type 0} (inv : T → Type 0) (code : Effect T A) : Type 0 where
  pub kept : (before : T) → inv before → inv (code before).1

module _ {T : Type 0} {inv : T → Type 0} where
  pub Maintains-when :
      (test : Bool) (code : Effect T Done) → Maintains inv code → Maintains inv (when test code)
  unfolding when
  Maintains-when false code m = record { kept = λ before i. i }
  Maintains-when true code m = record { kept = m.kept }

  module _ {A : Type 0} where
    pub Maintains-pure : (result : A) → Maintains inv (pure result)
    unfolding pure
    Maintains-pure result = record { kept = λ before i. i }

    pub Maintains-if :
        (test : Bool) (then_part else_part : Effect T A)
        → Maintains inv then_part
        → Maintains inv else_part
        → Maintains inv (if test then then_part else else_part)
    Maintains-if false then_part else_part m k = k
    Maintains-if true then_part else_part m k = m

    module _ {B : Type 0} where
      continue-kept :
          (r : Result A × T) (f : A → Effect T B)
          → inv r.1
          → ((result : A) → Maintains inv (f result))
          → inv (continue r f).1
      continue-kept (failure, after) f i k = i
      continue-kept (client_error code, after) f i k = i
      continue-kept (ok result, after) f i k = (k result).kept after i

      pub Maintains-bind :
          (first : Effect T A) (next : A → Effect T B)
          → Maintains inv first
          → ((result : A) → Maintains inv (next result))
          → Maintains inv (first >>= next)
      unfolding ◌>>=◌
      Maintains-bind first next m k = record {
        kept = λ before i. continue-kept (first before) next (m.kept before i) k;
      }
