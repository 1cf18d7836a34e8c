-- ===== src/Encoding/Ensures.antt =====
-- src/encoding: what holds of the value that a reader gives, where it gives one.
use muc_opcua.Common.{ℕ, ◌≡◌, refl, Bool, true, false, if◌then◌else◌}
use muc_opcua.Encoding.State.{Outcome, done, fail, M, ◌>>=◌, pure, raise}
use muc_opcua.Encoding.Reader.{Reader}

abbrev pub Ends : {A : Type 0} → (A → Type 0) → Outcome Reader A → Type 0
Ends P (done a s) = P a
Ends P (fail e s) = Unit

-- Where `m` succeeds, its value has the property.
pub record Ensures {A : Type 0} (P : A → Type 0) (m : M Reader A) : Type 0 where
  pub apply : (r : Reader) → Ends P (m r)

pub Ensures-pure : {A : Type 0} (P : A → Type 0) (a : A) → P a → Ensures P (pure a)
Ensures-pure P a h = record { apply = λ r. h }

pub Ensures-raise : {A : Type 0} (P : A → Type 0) (e : ℕ) → Ensures P (raise e)
Ensures-raise P e = record { apply = λ r. tt }

Ends-bind :
    {A B : Type 0} (P : A → Type 0) (Q : B → Type 0) (f : A → M Reader B) (o : Outcome Reader A)
    → ((a : A) → P a → Ensures Q (f a))
    → Ends P o
    → Ends Q (elim o [ done a s ↦ f a s | fail e s ↦ fail e s ])
Ends-bind P Q f (done a s) hf h = (hf a h).apply s
Ends-bind P Q f (fail e s) hf h = tt

-- The same, where it is known what the first part gave.
pub Ends-first :
    {A B : Type 0} (Q : B → Type 0) (m : M Reader A) (f : A → M Reader B) (r : Reader)
    (o : Outcome Reader A)
    → m r ≡ o
    → ((a : A) (s : Reader) → m r ≡ done a s → Ensures Q (f a))
    → Ends Q (elim o [ done a s ↦ f a s | fail e s ↦ fail e s ])
Ends-first Q m f r (done a s) e hf = (hf a s e).apply s
Ends-first Q m f r (fail x s) e hf = tt

pub Ensures-bind :
    {A B : Type 0} (P : A → Type 0) (Q : B → Type 0) (m : M Reader A) (f : A → M Reader B)
    → Ensures P m
    → ((a : A) → P a → Ensures Q (f a))
    → Ensures Q (m >>= f)
Ensures-bind P Q m f hm hf = record { apply = λ r. Ends-bind P Q f (m r) hf (hm.apply r) }

Ensures-any : {A : Type 0} (m : M Reader A) → Ensures (λ a. Unit {0}) m
Ensures-any m = record {
  apply = λ r. elim (m r) as (λ o. Ends (λ a. Unit {0}) o) [ done a s ↦ tt | fail e s ↦ tt ];
}

pub Ensures-then :
    {A B : Type 0} (Q : B → Type 0) (m : M Reader A) (f : A → M Reader B)
    → ((a : A) → Ensures Q (f a))
    → Ensures Q (m >>= f)
Ensures-then Q m f hf = Ensures-bind (λ a. Unit {0}) Q m f (Ensures-any m) (λ a h. hf a)

pub Ensures-if :
    {A : Type 0} (P : A → Type 0) (b : Bool) (x y : M Reader A)
    → (b ≡ true → Ensures P x)
    → (b ≡ false → Ensures P y)
    → Ensures P (if b then x else y)
Ensures-if P true x y hx hy = hx refl
Ensures-if P false x y hx hy = hy refl

Ends-weaken :
    {A : Type 0} (P Q : A → Type 0) (o : Outcome Reader A)
    → ((a : A) → P a → Q a)
    → Ends P o
    → Ends Q o
Ends-weaken P Q (done a s) h k = h a k
Ends-weaken P Q (fail e s) h k = tt

pub Ensures-weaken :
    {A : Type 0} (P Q : A → Type 0) (m : M Reader A)
    → ((a : A) → P a → Q a)
    → Ensures P m
    → Ensures Q m
Ensures-weaken P Q m h k = record { apply = λ r. Ends-weaken P Q (m r) h (k.apply r) }

pub Ensures-both :
    {A : Type 0} (P : A → Type 0) (b : Bool) (x y : M Reader A)
    → Ensures P x
    → Ensures P y
    → Ensures P (if b then x else y)
Ensures-both P b x y hx hy = Ensures-if P b x y (λ e. hx) (λ e. hy)
