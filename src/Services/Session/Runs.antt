-- ===== src/Services/Session/Runs.antt =====
-- The table of sessions under every sequence of requests and timeouts.
use muc_opcua.Common.{
  ℕ, zero, suc, ◌≡◌, refl, sym, ap, inl, inr, List, Option, some, true, false, not, ◌&&◌, ◌/=◌,
  get_elem?, set, Bool-cases, if_both, replicate, All, subst,
}
use muc_opcua.Status.{Result, ok, good, bad_session_id_invalid, bad_identity_token_invalid}
use muc_opcua.Services.Session.{
  Session, session_init, is_closed, activate, close, close_timeout, activated, closed, zero_nonce,
}
use muc_opcua.Services.Session.Timeout.{InBounds}
use muc_opcua.Services.Session.Table.{
  is_open, find_by_token, Entropy, initialize_create_session, authentication_token_active,
}
use muc_opcua.Services.Session.Unique.{IsCreated, initialize_create_session-IsCreated}
use muc_opcua.Services.Session.Unique.Tables.{
  Distinct, Distinct-created, Distinct-changed, find_first-Distinct, Timely, All-set, All-get,
  TimelyAll-changed, Keeps,
}

-- One change of the table: a CreateSession that succeeds, an ActivateSession or a CloseSession on
-- some session, with any outcome, or the timeout of one.
pub data Step (ss : List Session) : List Session → Type 0 where
  creates :
      {t : List Session} {slot : ℕ} (first second : Entropy) (prefix bits channel : ℕ)
      (tick : Option ℕ)
      → initialize_create_session ss first second prefix bits channel tick ≡ ok (slot, t)
      → Step ss t
  activates :
      (i : ℕ) {s : Session} (token encoding : ℕ)
      → get_elem? ss i ≡ some s
      → Step ss (set ss i (activate s token encoding).1)
  closes :
      (i : ℕ) {s : Session} (token : ℕ)
      → get_elem? ss i ≡ some s
      → Step ss (set ss i (close s token).1)
  expires : (i : ℕ) {s : Session} → get_elem? ss i ≡ some s → Step ss (set ss i (close_timeout s))

-- The tables that `n` slots come to from mu_session_init.
pub data Reachable (n : ℕ) : List Session → Type 0 where
  initial : Reachable n (replicate n session_init)
  next : {ss t : List Session} → Reachable n ss → Step ss t → Reachable n t

Keeps-same : (s : Session) → Keeps s s
Keeps-same s = record { token_same = refl; timeout_same = refl; opens_not = λ h. h }

-- A change of the state alone, of a session that is open.
Keeps-state :
    (s s' : Session)
    → is_closed s.state ≡ false
    → s'.auth_token ≡ s.auth_token
    → s'.revised_session_timeout_ms ≡ s.revised_session_timeout_ms
    → Keeps s s'
Keeps-state s s' h et em = record { token_same = et; timeout_same = em; opens_not = λ _. ap not h }

Keeps-activate : (s : Session) (token encoding : ℕ) → Keeps s (activate s token encoding).1
unfolding activate
Keeps-activate s token encoding = elim (Bool-cases (is_closed s.state)) [
  | inl shut ↦ rw shut (Keeps-same s)
  | inr opened ↦ rw opened (
      if_both (λ (r : ℕ × Session). Keeps s r.1) (s.auth_token /= token) (bad_session_id_invalid, s)
        _ (Keeps-same s)
        (if_both (λ (r : ℕ × Session). Keeps s r.1)
          (encoding /= 321 && encoding /= 324 && encoding /= 327 && encoding /= 940)
          (bad_identity_token_invalid, s) (good, record s { state = activated }) (Keeps-same s)
          (Keeps-state s (record s { state = activated }) opened refl refl)))
]

Keeps-close : (s : Session) (token : ℕ) → Keeps s (close s token).1
unfolding close
Keeps-close s token = elim (Bool-cases (is_closed s.state)) [
  | inl shut ↦ rw shut (Keeps-same s)
  | inr opened ↦ rw opened (
      if_both (λ (r : ℕ × Session). Keeps s r.1) (s.auth_token /= token) (bad_session_id_invalid, s)
        (good, record s { state = closed; server_nonce = zero_nonce }) (Keeps-same s)
        (Keeps-state s (record s { state = closed; server_nonce = zero_nonce }) opened refl refl))
]

Keeps-close_timeout : (s : Session) → Keeps s (close_timeout s)
unfolding close_timeout
Keeps-close_timeout s = elim (Bool-cases (is_closed s.state)) [
  | inl shut ↦ rw shut (Keeps-same s)
  | inr opened ↦
      rw opened
        (Keeps-state s (record s { state = closed; server_nonce = zero_nonce }) opened refl refl)
]

abbrev Invariant : List Session → Type 0
Invariant ss = Distinct ss × All Timely ss

Invariant-created :
    (ss : List Session) (r : Result (ℕ × List Session)) (slot : ℕ) (t : List Session)
    → Invariant ss
    → IsCreated ss r
    → r ≡ ok (slot, t)
    → Invariant t
unfolding authentication_token_active
Invariant-created ss r slot t (d, h) c e =
    let (s, same, free, bounds) = subst (IsCreated ss) e c in
    subst Invariant (sym same)
      (Distinct-created ss slot s d free, All-set Timely ss slot s h (λ _. bounds))

Invariant-changed :
    (ss : List Session) (i : ℕ) (s s' : Session)
    → Invariant ss
    → get_elem? ss i ≡ some s
    → Keeps s s'
    → Invariant (set ss i s')
Invariant-changed ss i s s' (d, h) e k =
    (Distinct-changed ss i s s' d e k, TimelyAll-changed ss i s s' h e k)

Invariant-Step : (ss t : List Session) → Invariant ss → Step ss t → Invariant t
Invariant-Step ss t inv (creates first second prefix bits channel tick e) =
    Invariant-created ss _ _ t inv
      (initialize_create_session-IsCreated ss first second prefix bits channel tick) e
Invariant-Step ss t inv (activates i {s = s} token encoding e) =
    Invariant-changed ss i s (activate s token encoding).1 inv e (Keeps-activate s token encoding)
Invariant-Step ss t inv (closes i {s = s} token e) =
    Invariant-changed ss i s (close s token).1 inv e (Keeps-close s token)
Invariant-Step ss t inv (expires i {s = s} e) =
    Invariant-changed ss i s (close_timeout s) inv e (Keeps-close_timeout s)

init_closed : is_open session_init ≡ true → ⊥
unfolding session_init
init_closed p = cc

Invariant-initial : (n : ℕ) → Invariant (replicate n session_init)
Invariant-initial zero = (tt, tt)
Invariant-initial (suc n) =
    let (d, h) = Invariant-initial n in
    ((d, λ ho. absurd (init_closed ho)), ((λ ho. absurd (init_closed ho)), h))

Invariant-Reachable : (n : ℕ) (ss : List Session) → Reachable n ss → Invariant ss
Invariant-Reachable n ss initial = Invariant-initial n
Invariant-Reachable n ss (next {ss = before} r step) =
    Invariant-Step before ss (Invariant-Reachable n before r) step

-- In every table that requests and timeouts can bring about, the lookup of the token of an open
-- session gives that session's slot: no two open sessions share a token.
pub token_routes :
    (n : ℕ) (ss : List Session) (i : ℕ) (s : Session)
    → Reachable n ss
    → get_elem? ss i ≡ some s
    → is_open s ≡ true
    → find_by_token ss s.auth_token ≡ some i
unfolding find_by_token
token_routes n ss i s r e opened =
    find_first-Distinct ss i s (Invariant-Reachable n ss r).0 e opened

-- In every such table, the timeout of an open session lies between ten seconds and an hour.
pub timeouts-InBounds :
    (n : ℕ) (ss : List Session) (i : ℕ) (s : Session)
    → Reachable n ss
    → get_elem? ss i ≡ some s
    → is_open s ≡ true
    → InBounds s.revised_session_timeout_ms
timeouts-InBounds n ss i s r e opened =
    All-get Timely ss i s (Invariant-Reachable n ss r).1 e opened
