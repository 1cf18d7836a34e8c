-- ===== src/Services/Session/Unique.antt =====
-- No two open sessions share an authentication token, whatever the order of the requests.
pub mod Tables
use muc_opcua.Common.{
  ℕ, zero, suc, ◌+◌, ◌≤◌, ◌≡◌, ◌≢◌, refl, sym, ap, ◌∙◌, inl, inr, List, [], ◌∷◌, Option, none, some,
  Bool, true, false, not, ◌&&◌, ◌==◌, ◌/=◌, ltb, leb, if◌then◌else◌, length, get_elem?, set, arith,
  Bool-cases, if_both, replicate, All,
}
use muc_opcua.Status.{good, Result, error, ok}
use muc_opcua.Services.Session.{
  Session, SessionState, closed, is_closed, session_init, create_with_identifiers, activate, close,
  close_timeout, clamp_timeout_bits, duration_bits_to_ms,
}
use muc_opcua.Services.Session.Timeout.{InBounds, timeout_bounds}
use muc_opcua.Services.Session.Table.{
  find_first, any_session, is_open, open_with_token, find_by_token, authentication_token_active,
  first_free, with_random, generate_authentication_token, Entropy, initialize_create_session,
  token_candidate, in_free_slot, create_in_slot, store_created, find_free, generate_session_id,
}
use muc_opcua.Services.Session.Unique.Tables.{
  Distinct, Distinct-created, Distinct-changed, find_first-Distinct, Timely, All-set,
  TimelyAll-changed, Keeps,
}

-- A drawn token is not in use.
abbrev IsFree : List Session → Result ℕ → Type 0
IsFree ss (error e) = Unit
IsFree ss (ok token) = authentication_token_active ss token ≡ false

first_free-IsFree :
    (ss : List Session) (c : ℕ → ℕ) (n salt : ℕ)
    → IsFree ss (first_free c (authentication_token_active ss) n salt)
unfolding first_free
first_free-IsFree ss c zero salt = tt
first_free-IsFree ss c (suc n) salt = elim (Bool-cases (authentication_token_active ss (c salt))) [
  | inl used ↦ rw used (first_free-IsFree ss c n (suc salt))
  | inr free ↦ rw free free
]

generate-IsFree :
    (ss : List Session) (entropy : Entropy) → IsFree ss (generate_authentication_token ss entropy)
unfolding generate_authentication_token
generate-IsFree ss none = tt
generate-IsFree ss (some generate_random) = drawn (generate_random 4)
  where
    drawn :
        (r : Result (List ℕ))
        → IsFree ss (
            with_random (some (λ n. r)) (λ base.
              first_free
                (token_candidate base)
                (authentication_token_active ss)
                (suc (length ss))
                0))
    drawn (error e) = tt
    drawn (ok random) = first_free-IsFree ss _ (suc (length ss)) 0

-- What a CreateSession that succeeds stores: a session with a fresh token and a revised timeout.
abbrev pub IsCreated : List Session → Result (ℕ × List Session) → Type 0
IsCreated ss (error e) = Unit
IsCreated ss (ok (slot, t)) =
    (s : Session) × (t ≡ set ss slot s)
    × (authentication_token_active ss s.auth_token ≡ false)
    × InBounds s.revised_session_timeout_ms

store_created-IsCreated :
    (ss : List Session) (slot : ℕ) (tick : Option ℕ) (s : Session) (bits id token channel : ℕ)
    → authentication_token_active ss token ≡ false
    → IsCreated ss (store_created ss slot tick (create_with_identifiers s bits id token channel))
unfolding create_with_identifiers
store_created-IsCreated ss slot tick s bits id token channel free =
    elim (Bool-cases (is_closed s.state)) [
      | inl shut ↦ rw shut (stored tick)
      | inr taken ↦ rw taken tt
    ]
  where
    stored :
        (tick : Option ℕ)
        → IsCreated ss (
            store_created ss slot tick (
              good,
              record s {
                session_id = id;
                auth_token = token;
                secure_channel_id = channel;
                revised_session_timeout_ms = duration_bits_to_ms (clamp_timeout_bits bits);
                state = SessionState.created;
              },
            ))
    stored none = (_, refl, free, timeout_bounds bits)
    stored (some now) = (_, refl, free, timeout_bounds bits)

create_in_slot-IsCreated :
    (ss : List Session) (slot : ℕ) (o : Option Session) (bits channel : ℕ) (tick : Option ℕ)
    (id token : Result ℕ) (prefix : ℕ)
    → IsFree ss token
    → IsCreated ss (create_in_slot ss slot o bits channel tick id token prefix)
create_in_slot-IsCreated ss slot none bits channel tick id token prefix h = tt
create_in_slot-IsCreated ss slot (some s) bits channel tick (error e) token prefix h = tt
create_in_slot-IsCreated ss slot (some s) bits channel tick (ok id) (error e) prefix h = tt
create_in_slot-IsCreated ss slot (some s) bits channel tick (ok id) (ok token) prefix h =
    if_both (IsCreated ss) (prefix /= good) (error prefix) _ tt
      (store_created-IsCreated ss slot tick s bits id token channel h)

in_free_slot-IsCreated :
    (ss : List Session) (o : Option ℕ) (bits channel : ℕ) (tick : Option ℕ) (id token : Result ℕ)
    (prefix : ℕ)
    → IsFree ss token
    → IsCreated ss (in_free_slot ss o bits channel tick id token prefix)
in_free_slot-IsCreated ss none bits channel tick id token prefix h = tt
in_free_slot-IsCreated ss (some slot) bits channel tick id token prefix h =
    create_in_slot-IsCreated ss slot (get_elem? ss slot) bits channel tick id token prefix h

pub initialize_create_session-IsCreated :
    (ss : List Session) (first second : Entropy) (prefix bits channel : ℕ) (tick : Option ℕ)
    → IsCreated ss (initialize_create_session ss first second prefix bits channel tick)
unfolding initialize_create_session
initialize_create_session-IsCreated ss first second prefix bits channel tick =
    in_free_slot-IsCreated ss (find_free ss) bits channel tick _ _ prefix
      (generate-IsFree ss second)
