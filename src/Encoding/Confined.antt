-- ===== src/Encoding/Confined.antt =====
-- Decoders read only what their reader spans. Two readers that differ only in the bytes behind the
-- span give the same value or the same status, and both stay inside the span.
pub mod Composites
pub mod Decoders
pub mod Span
pub mod Variants
use muc_opcua.Common.{
  ℕ, zero, suc, ◌+◌, ◌≤◌, ◌<◌, ◌≡◌, ◌⊎◌, refl, sym, ap, ap₂, ◌∙◌, List, [], ◌∷◌, Option, none, some,
  arith, get_or, slice, Bool-cases, ◌==◌, ◌&&◌, leb, ltb, ◌-◌, not, inl, inr, Bool, true, false,
  if◌then◌else◌,
}
use muc_opcua.Status.{good, bad_decoding_error}
use muc_opcua.Encoding.State.{Outcome, done, fail, M, ◌>>=◌, ◌>>◌, pure, raise}
use muc_opcua.Encoding.Reader.{Reader, contents, is_null, advance, ensure_bytes, fetch, reader_fail}
use mathlib.Core.Path.{subst}

abbrev pub Agree : ℕ → List ℕ → List ℕ → Type 0
Agree n bytes others = (i : ℕ) → i < n → get_or bytes i 0 ≡ get_or others i 0

-- Readers over `bytes` and over `others` in the same place of a span of `n` bytes.
pub record Twin (n : ℕ) (bytes others : List ℕ) (r s : Reader) : Type 0 where
  pub left : r.buffer ≡ some bytes
  pub right : s.buffer ≡ some others
  pub left_span : r.length ≡ n
  pub right_span : s.length ≡ n
  pub same_position : r.position ≡ s.position
  pub same_status : r.status ≡ s.status
  pub inside : r.position ≤ n

-- The same value or the same status, and twin readers again.
abbrev pub Same : ℕ → List ℕ → List ℕ → {A : Type 0} → Outcome Reader A → Outcome Reader A → Type 0
Same n bytes others (done a r) (done b s) = (a ≡ b) × Twin n bytes others r s
Same n bytes others (done a r) (fail e s) = ⊥
Same n bytes others (fail e r) (done a s) = ⊥
Same n bytes others (fail e r) (fail f s) = (e ≡ f) × Twin n bytes others r s

module _ (n : ℕ) (bytes others : List ℕ) where
  pub record Confined {A : Type 0} (m : M Reader A) : Type 0 where
    pub apply : (r s : Reader) → Twin n bytes others r s → Same n bytes others (m r) (m s)

  pub Confined-pure : {A : Type 0} (a : A) → Confined (pure a)
  Confined-pure a = record { apply = λ r s t. (refl, t) }

  pub Confined-raise : (A : Type 0) (e : ℕ) → Confined (raise {A = A} e)
  Confined-raise A e = record { apply = λ r s t. (refl, t) }

  bind-Same :
      {A B : Type 0} (f : A → M Reader B) (o p : Outcome Reader A)
      → ((a : A) → Confined (f a))
      → Same n bytes others o p
      → Same n bytes others
          (◌>>=◌ {S = Reader}
            (λ _. o)
            f
            (record { buffer = none; length = 0; position = 0; status = 0 }))
          (◌>>=◌ {S = Reader}
            (λ _. p)
            f
            (record { buffer = none; length = 0; position = 0; status = 0 }))
  bind-Same f (done a r) (done b s) hf (e, t) =
      subst (λ z. Same n bytes others (f a r) (f z s)) e ((hf a).apply r s t)
  bind-Same f (done a r) (fail e s) hf h = absurd h
  bind-Same f (fail e r) (done a s) hf h = absurd h
  bind-Same f (fail e r) (fail x s) hf h = h

  pub Confined-bind :
      {A B : Type 0} (m : M Reader A) (f : A → M Reader B)
      → Confined m
      → ((a : A) → Confined (f a))
      → Confined (m >>= f)
  Confined-bind m f hm hf = record { apply = λ r s t. bind-Same f (m r) (m s) hf (hm.apply r s t) }

  ensure_same :
      (k : ℕ) (r s : Reader)
      → Twin n bytes others r s
      → ((ensure_bytes k r ≡ done tt r) × (ensure_bytes k s ≡ done tt s) × (r.position + k ≤ n))
        ⊎ ((e : ℕ) × (ensure_bytes k r ≡ fail e (record r { status = e }))
            × (ensure_bytes k s ≡ fail e (record s { status = e })))
  unfolding ensure_bytes reader_fail
  ensure_same k r s t = elim (Bool-cases (r.status == good)) [
    | inl healthy ↦ elim (Bool-cases (leb (r.position + k) n)) [
      | inl room ↦ inl (ground arith, ground arith, ground arith)
      | inr short ↦ inr (bad_decoding_error, ground arith, ground arith)
    ]
    | inr tripped ↦ inr (r.status, ground arith, ground arith)
  ]

  pub advance-Twin :
      (k : ℕ) (r s : Reader)
      → Twin n bytes others r s
      → r.position + k ≤ n
      → Twin n bytes others (advance k r) (advance k s)
  advance-Twin k r s t room = record {
    left = t.left;
    right = t.right;
    left_span = t.left_span;
    right_span = t.right_span;
    same_position = ap (λ p. p + k) t.same_position;
    same_status = t.same_status;
    inside = room;
  }

  abbrev pub Local : (List ℕ → ℕ → ℕ) → ℕ → Type 0
  Local get k = (p : ℕ) → p + k ≤ n → get bytes p ≡ get others p

  word-Same :
      (get : List ℕ → ℕ → ℕ) (k : ℕ)
      → Local get k
      → (r s : Reader) → Twin n bytes others r s
      → Same n bytes others ((ensure_bytes k >> fetch get k) r) ((ensure_bytes k >> fetch get k) s)
  word-Same get k h r s t = elim (ensure_same k r s t) [
    | inl (er, es, room) ↦
        rw (er, es, ◌>>=◌)
          (
            ap (λ o. get (contents o) r.position) t.left
                ∙ h r.position room
                ∙ ap₂ (λ o (p : ℕ). get (contents o) p) (sym t.right) t.same_position,
            advance-Twin k r s t room,
          )
    | inr (e, er, es) ↦ rw (er, es, ◌>>=◌) (refl, ground arith)
  ]

  pub Confined-word :
      (get : List ℕ → ℕ → ℕ) (k : ℕ) → Local get k → Confined (ensure_bytes k >> fetch get k)
  Confined-word get k h = record { apply = word-Same get k h }
