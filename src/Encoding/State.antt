-- ===== src/Encoding/State.antt =====
-- A C function over a mutable reader or writer that returns a status. It gives its value and the
-- new state, or the status that it returned (never MU_STATUS_GOOD) and the state that it left.
-- What a failing function left in its out parameters is not modelled: no caller reads it.
use muc_opcua.Common.{ℕ}

pub data Outcome (S A : Type 0) : Type 0 where
  done : A → S → Outcome S A
  fail : ℕ → S → Outcome S A

abbrev pub M : Type 0 → Type 0 → Type 0
M S A = S → Outcome S A

infixl 5 ◌>>=◌ ◌>>◌
-- `status = m(...); if (status != MU_STATUS_GOOD) return status;` and what follows.
abbrev pub ◌>>=◌ : {S A B : Type 0} → M S A → (A → M S B) → M S B
◌>>=◌ m f s = elim (m s) [ done a s' ↦ f a s' | fail e s' ↦ fail e s' ]

abbrev pub ◌>>◌ : {S B : Type 0} → M S (Unit {0}) → M S B → M S B
m >> k = m >>= λ _. k

abbrev pub pure : {S A : Type 0} → A → M S A
pure a s = done a s

-- `return status;` with the state as it is.
abbrev pub raise : {S A : Type 0} → ℕ → M S A
raise e s = fail e s
