-- ===== src/Base/Effects.antt =====
-- Calls that leave the process. A computation takes the calls made so far, newest first, and
-- returns its value with the calls after it. What a call answers is a function of that history, so
-- a theorem for every such function holds whatever the other side and other clients do.
use mathlib.Core.List.{List, ◌∷◌}

abbrev pub M {ℓ} : Type 0 → Type ℓ → Type ℓ
M E A = List E → A × List E

abbrev pub return {ℓ} : {E : Type 0} {A : Type ℓ} → A → M E A
return a t = (a, t)

-- One call, answered from the history before it.
abbrev pub call {ℓ} : {E : Type 0} {A : Type ℓ} → E → (List E → A) → M E A
call e answer t = (answer t, e ∷ t)

infixl 5 ◌>>=◌ ◌>>◌
abbrev pub ◌>>=◌ {ℓ κ} : {E : Type 0} {A : Type ℓ} {B : Type κ} → M E A → (A → M E B) → M E B
◌>>=◌ m f t = f (m t).0 (m t).1

abbrev pub ◌>>◌ {ℓ κ} : {E : Type 0} {A : Type ℓ} {B : Type κ} → M E A → M E B → M E B
◌>>◌ m k t = k (m t).1
