-- ===== src/Services/Session/Unique/Tables.antt =====
-- Tables of sessions in which no token is open twice, under the changes of one slot.
use muc_opcua.Common.{
  ℕ, zero, suc, ◌≡◌, ◌≢◌, refl, sym, ap, ◌∙◌, inl, inr, List, [], ◌∷◌, Option, none, some, Bool,
  true, false, if◌then◌else◌, get_elem?, set, arith, Bool-cases, All,
}
use muc_opcua.Services.Session.{Session}
use muc_opcua.Services.Session.Timeout.{InBounds}
use muc_opcua.Services.Session.Table.{after, find_first, any_session, is_open, open_with_token}

abbrev pub Distinct : List Session → Type 0
Distinct [] = Unit
Distinct (s ∷ ss) =
    Distinct ss × (is_open s ≡ true → any_session (open_with_token s.auth_token) ss ≡ false)

-- The changes that a session takes in its slot: its token and its timeout stay, and it does not open.
pub record Keeps (s s' : Session) : Type 0 where
  pub token_same : s'.auth_token ≡ s.auth_token
  pub timeout_same : s'.revised_session_timeout_ms ≡ s.revised_session_timeout_ms
  pub opens_not : is_open s' ≡ true → is_open s ≡ true

cond_false : (b r : Bool) → (if b then true else r) ≡ false → (b ≡ false) × (r ≡ false)
cond_false true r h = absurd (true_false h)
  where
    true_false : true ≡ false → ⊥
    true_false p = cc
cond_false false r h = (refl, h)

both_false : (b r : Bool) → b ≡ false → r ≡ false → (if b then true else r) ≡ false
both_false b r hb hr = rw (hb, hr) refl

get_some : (x s : Session) → some x ≡ some s → x ≡ s
get_some x s e = ap (from x) e
  where
    from : Session → Option Session → Session
    from d none = d
    from d (some y) = y

none-some : (s : Session) → none ≡ some s → ⊥
none-some s p = cc

any_session-set :
    (p : Session → Bool) (ss : List Session) (i : ℕ) (s : Session)
    → any_session p ss ≡ false
    → p s ≡ false
    → any_session p (set ss i s) ≡ false
any_session-set p [] i s h hs = refl
any_session-set p (x ∷ xs) zero s h hs =
    both_false (p s) (any_session p xs) hs (cond_false (p x) (any_session p xs) h).1
any_session-set p (x ∷ xs) (suc i) s h hs =
    let (hx, rest) = cond_false (p x) (any_session p xs) h in
    both_false (p x) (any_session p (set xs i s)) hx (any_session-set p xs i s rest hs)

any_session-get :
    (p : Session → Bool) (ss : List Session) (i : ℕ) (s : Session)
    → any_session p ss ≡ false
    → get_elem? ss i ≡ some s
    → p s ≡ false
any_session-get p [] i s h e = absurd (none-some s e)
any_session-get p (x ∷ xs) zero s h e =
    ap p (sym (get_some x s e)) ∙ (cond_false (p x) (any_session p xs) h).0
any_session-get p (x ∷ xs) (suc i) s h e =
    any_session-get p xs i s (cond_false (p x) (any_session p xs) h).1 e

other_token :
    (t : ℕ) (x : Session) → is_open x ≡ true → open_with_token t x ≡ false → x.auth_token ≢ t
other_token t x ho h e = ground arith

not_open_with : (t : ℕ) (s : Session) → s.auth_token ≢ t → open_with_token t s ≡ false
not_open_with t s h = ground arith

-- A session with a token that no open session has goes into any slot.
pub Distinct-created :
    (ss : List Session) (i : ℕ) (s : Session)
    → Distinct ss
    → any_session (open_with_token s.auth_token) ss ≡ false
    → Distinct (set ss i s)
Distinct-created [] i s d h = tt
Distinct-created (x ∷ xs) zero s (d, _) h = (d, λ _. (cond_false _ (any_session _ xs) h).1)
Distinct-created (x ∷ xs) (suc i) s (d, hx) h =
    let (head, rest) =
      cond_false (open_with_token s.auth_token x) (any_session (open_with_token s.auth_token) xs)
        h in
    (
      Distinct-created xs i s d rest,
      λ ho.
          any_session-set (open_with_token x.auth_token) xs i s (hx ho)
            (not_open_with x.auth_token s (λ e. other_token s.auth_token x ho head (sym e))),
    )

open_with_token-Keeps :
    (t : ℕ) (s s' : Session)
    → Keeps s s'
    → open_with_token t s ≡ false
    → open_with_token t s' ≡ false
open_with_token-Keeps t s s' k h = elim (Bool-cases (is_open s')) [
  | inl opened ↦
      not_open_with t s' (λ e. other_token t s (k.opens_not opened) h (sym k.token_same ∙ e))
  | inr shut ↦ rw shut refl
]

pub Distinct-changed :
    (ss : List Session) (i : ℕ) (s s' : Session)
    → Distinct ss
    → get_elem? ss i ≡ some s
    → Keeps s s'
    → Distinct (set ss i s')
Distinct-changed [] i s s' d e k = tt
Distinct-changed (x ∷ xs) zero s s' (d, hx) e k =
    let same : x ≡ s = get_some x s e in
    (
      d,
      λ ho.
          ap (λ t. any_session (open_with_token t) xs)
            (k.token_same ∙ ap (λ y. y.auth_token) (sym same))
          ∙ hx (ap is_open same ∙ k.opens_not ho),
    )
Distinct-changed (x ∷ xs) (suc i) s s' (d, hx) e k = (
  Distinct-changed xs i s s' d e k,
  λ ho. any_session-set (open_with_token x.auth_token) xs i s' (hx ho) (
      open_with_token-Keeps x.auth_token s s' k
        (any_session-get (open_with_token x.auth_token) xs i s (hx ho) e)),
)

own_token : (s : Session) → is_open s ≡ true → open_with_token s.auth_token s ≡ true
own_token s ho = ground arith

same_token :
    (t : ℕ) (x : Session) → open_with_token t x ≡ true → (is_open x ≡ true) × (x.auth_token ≡ t)
same_token t x h = (ground arith, ground arith)

other_slot :
    (x : Session) (xs : List Session) (i : ℕ) (s : Session)
    → (is_open x ≡ true → any_session (open_with_token x.auth_token) xs ≡ false)
    → get_elem? xs i ≡ some s
    → is_open s ≡ true
    → open_with_token s.auth_token x ≡ false
other_slot x xs i s hx e ho = elim (Bool-cases (open_with_token s.auth_token x)) [
  | inl both ↦
      let (hox, same) = same_token s.auth_token x both in
      absurd (
        true_false (
          sym (own_token s ho)
          ∙ ap (λ t. open_with_token t s) (sym same)
          ∙ any_session-get (open_with_token x.auth_token) xs i s (hx hox) e))
  | inr h ↦ h
]
  where
    true_false : true ≡ false → ⊥
    true_false p = cc

-- In such a table the lookup of an open session's token finds its slot.
pub find_first-Distinct :
    (ss : List Session) (i : ℕ) (s : Session)
    → Distinct ss
    → get_elem? ss i ≡ some s
    → is_open s ≡ true
    → find_first (open_with_token s.auth_token) ss ≡ some i
find_first-Distinct [] i s d e ho = absurd (none-some s e)
find_first-Distinct (x ∷ xs) zero s d e ho =
    rw (ap (open_with_token s.auth_token) (get_some x s e) ∙ own_token s ho) refl
find_first-Distinct (x ∷ xs) (suc i) s (d, hx) e ho =
    rw (other_slot x xs i s hx e ho) (ap after (find_first-Distinct xs i s d e ho))

-- Every open session has a timeout between the bounds.
abbrev pub Timely : Session → Type 0
Timely s = is_open s ≡ true → InBounds s.revised_session_timeout_ms

pub All-set :
    (P : Session → Type 0) (ss : List Session) (i : ℕ) (s : Session)
    → All P ss
    → P s
    → All P (set ss i s)
All-set P [] i s h hs = tt
All-set P (x ∷ xs) zero s (_, h) hs = (hs, h)
All-set P (x ∷ xs) (suc i) s (hx, h) hs = (hx, All-set P xs i s h hs)

pub All-get :
    (P : Session → Type 0) (ss : List Session) (i : ℕ) (s : Session)
    → All P ss
    → get_elem? ss i ≡ some s
    → P s
All-get P [] i s h e = absurd (none-some s e)
All-get P (x ∷ xs) zero s (hx, h) e = rw (← get_some x s e) hx
All-get P (x ∷ xs) (suc i) s (_, h) e = All-get P xs i s h e

pub TimelyAll-changed :
    (ss : List Session) (i : ℕ) (s s' : Session)
    → All Timely ss
    → get_elem? ss i ≡ some s
    → Keeps s s'
    → All Timely (set ss i s')
TimelyAll-changed ss i s s' h e k =
    All-set Timely ss i s' h (λ ho. rw k.timeout_same (All-get Timely ss i s h e (k.opens_not ho)))
