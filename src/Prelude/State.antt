-- ===== src/Prelude/State.antt =====
-- Computations that read and extend what was done so far.
use mathlib.Core.List.{List, ◌∷◌}

abbrev pub State : Type 0 → Type 0 → Type 0
State S A = S → A × S

infixl 5 ◌>>=◌ ◌>>◌
abbrev pub ◌>>=◌ : {S A B : Type 0} → State S A → (A → State S B) → State S B
◌>>=◌ m f s = let (a, s') = m s in f a s'

abbrev pub ◌>>◌ : {S A B : Type 0} → State S A → State S B → State S B
◌>>◌ m k s = let (a, s') = m s in k s'

abbrev pub pure : {S A : Type 0} → A → State S A
pure a s = (a, s)

-- An effect with an answer from outside.
abbrev pub call : {E A : Type 0} → (List E → A) → (A → E) → State (List E) A
call answer effect s = let a = answer s in (a, effect a ∷ s)

-- A question that leaves no trace.
abbrev pub ask : {S A : Type 0} → (S → A) → State S A
ask answer s = (answer s, s)

abbrev pub act : {E : Type 0} → E → State (List E) (Unit {0})
act e s = (tt, e ∷ s)
