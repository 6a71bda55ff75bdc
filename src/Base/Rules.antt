-- ===== src/Base/Rules.antt =====
-- What an action does to the state, seen through a preorder on states: one rule for each way to
-- build an action. An invariant is the preorder `P w → P w'`.
use opsdesk.Base.Tests.{if◌then◌else◌}
use opsdesk.Base.Actions.{
  Failure, Result, ok, err, Exec, pure, throw, gets, or_throw, reject, modify, transaction,
  rollback, continue, ◌>>=◌, ◌>>◌,
}
use mathlib.Core.Path.{◌≡◌, refl}
use mathlib.Core.Bool.{Bool, true, false}
use mathlib.Core.Option.{Option, none, some}

pub record Preorder {S : Type 0} (R : S → S → Type 0) : Type 0 where
  pub reflexive : (w : S) → R w w
  pub transitive : (u v w : S) → R u v → R v w → R u w

pub record Progress {S A : Type 0} (R : S → S → Type 0) (m : Exec S A) : Type 0 where
  pub at : (w : S) → R w (m w).1

module _ {S : Type 0} {R : S → S → Type 0} (o : Preorder R) where
  module _ {A : Type 0} where
    pub by_pure : (a : A) → Progress R (pure {S = S} a)
    by_pure a = record { at = λ w. o.reflexive w }

    pub by_throw : (e : Failure) → Progress R (throw {S = S} {A = A} e)
    by_throw e = record { at = λ w. o.reflexive w }

    pub by_gets : (f : S → A) → Progress R (gets f)
    by_gets f = record { at = λ w. o.reflexive w }

    pub by_or_throw : (a : Option A) (e : Failure) → Progress R (or_throw {S = S} a e)
    by_or_throw none e = by_throw e
    by_or_throw (some a) e = by_pure a

    pub by_if :
        (b : Bool) (m n : Exec S A) → Progress R m → Progress R n → Progress R (if b then m else n)
    by_if true m n pm pn = pm
    by_if false m n pm pn = pn

    rolled_back : (w : S) (r : Result A) (w' : S) → R w w' → R w (rollback w r w').1
    rolled_back w (ok a) w' h = h
    rolled_back w (err e) w' h = o.reflexive w

    pub by_transaction : (m : Exec S A) → Progress R m → Progress R (transaction m)
    by_transaction m p = record { at = λ w. let (r, w') = m w in rolled_back w r w' (p.at w) }

  pub by_reject : (b : Bool) (e : Failure) → Progress R (reject {S = S} b e)
  by_reject true e = by_throw e
  by_reject false e = by_pure tt

  module _ {A B : Type 0} where
    continued :
        (r : Result A) (f : A → Exec S B) (u w : S)
        → ((a : A) → Progress R (f a))
        → R u w
        → R u (continue r f w).1
    continued (ok a) f u w p h = o.transitive u w _ h ((p a).at w)
    continued (err e) f u w p h = h

    pub by_bind :
        (m : Exec S A) (f : A → Exec S B)
        → Progress R m
        → ((a : A) → Progress R (f a))
        → Progress R (m >>= f)
    by_bind m f pm pf = record { at = λ w. let (r, w') = m w in continued r f w w' pf (pm.at w) }

  pub by_then :
      {B : Type 0} (m : Exec S Unit) (n : Exec S B)
      → Progress R m
      → Progress R n
      → Progress R (m >> n)
  by_then m n pm pn = by_bind m (λ _. n) pm (λ _. pn)

-- what follows a guard may use that the guard let it pass
pub by_guard :
    {S B : Type 0} {R : S → S → Type 0} (o : Preorder R) (b : Bool) (e : Failure) (n : Exec S B)
    → (b ≡ false → Progress R n)
    → Progress R (reject b e >> n)
by_guard o true e n p = record { at = λ w. o.reflexive w }
by_guard o false e n p = record { at = λ w. (p refl).at w }

pub by_modify :
    {S : Type 0} {R : S → S → Type 0} (f : S → S) → ((w : S) → R w (f w)) → Progress R (modify f)
by_modify f h = record { at = h }

-- The preorder of an invariant.
abbrev pub Keeps : {S : Type 0} → (S → Type 0) → S → S → Type 0
Keeps P w w' = P w → P w'

pub Keeps-Preorder : {S : Type 0} (P : S → Type 0) → Preorder (Keeps P)
Keeps-Preorder P = record { reflexive = λ w h. h; transitive = λ u v w f g h. g (f h) }
