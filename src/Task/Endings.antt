-- ===== src/Task/Endings.antt =====
-- How a method ends: predicates of its outcome, and how they go through a sequence.
use dpp_bot.Base.{[]}
use mathlib.Core.Path.{◌≡◌}
use dpp_bot.Task.{Task, M, Outcome, returns, throws, deadlock, fault, ◌>>=◌}

-- The method ends, by a return or by an exception, with every lock released and `P` of the result.
abbrev pub Ends : {A : Type 0} → (Task → Type 0) → Outcome A → Type 0
Ends P (returns a t) = (t.held ≡ []) × P t
Ends P (throws e t) = (t.held ≡ []) × P t
Ends P (deadlock m) = ⊥
Ends P fault = ⊥

pub Ends-map :
    {A : Type 0} (P Q : Task → Type 0) (f : (t : Task) → P t → Q t) (o : Outcome A)
    → Ends P o
    → Ends Q o
Ends-map P Q f (returns a t) e = (e.0, f t e.1)
Ends-map P Q f (throws x t) e = (e.0, f t e.1)
Ends-map P Q f (deadlock m) e = e
Ends-map P Q f fault e = e

-- The method returns, with every lock released and `P` of its value and of the state.
abbrev pub Returns : {A : Type 0} → (A → Task → Type 0) → Outcome A → Type 0
Returns P (returns a t) = (t.held ≡ []) × P a t
Returns P (throws e t) = ⊥
Returns P (deadlock m) = ⊥
Returns P fault = ⊥

pub Returns-bind :
    {A B : Type 0} (P : A → Task → Type 0) (Q : B → Task → Type 0) (m : M A) (f : A → M B)
    (t : Task)
    → Returns P (m t)
    → ((a : A) (u : Task) → u.held ≡ [] → P a u → Returns Q (f a u))
    → Returns Q ((m >>= f) t)
Returns-bind {A} P Q m f t h k = go (m t) h
  where
    go :
        (o : Outcome A)
        → Returns P o
        → Returns Q (elim o [
          | returns a u ↦ f a u
          | throws e u ↦ throws e u
          | deadlock x ↦ deadlock x
          | fault ↦ fault
        ])
    go (returns a u) p = k a u p.0 p.1
    go (throws e u) p = absurd p
    go (deadlock x) p = absurd p
    go fault p = absurd p

pub Returns-map :
    {A : Type 0} (P Q : A → Task → Type 0) (f : (a : A) (t : Task) → P a t → Q a t) (o : Outcome A)
    → Returns P o
    → Returns Q o
Returns-map P Q f (returns a t) r = (r.0, f a t r.1)
Returns-map P Q f (throws x t) r = r
Returns-map P Q f (deadlock m) r = r
Returns-map P Q f fault r = r

pub Returns-both :
    {A : Type 0} (P Q : A → Task → Type 0) (o : Outcome A)
    → Returns P o
    → Returns Q o
    → Returns (λ a t. P a t × Q a t) o
Returns-both P Q (returns a t) p q = (p.0, (p.1, q.1))
Returns-both P Q (throws x t) p q = p
Returns-both P Q (deadlock m) p q = p
Returns-both P Q fault p q = p
