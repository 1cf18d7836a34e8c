-- ===== src/Services/SecureChannel/Opening.antt =====
-- What an OpenSecureChannel that succeeds has established.
use muc_opcua.Common.{
  ℕ, ◌+◌, ◌%◌, ◌^◌, ◌≤◌, ◌≡◌, ◌≢◌, ◌⊎◌, refl, sym, ◌∙◌, List, Option, none, some, true, false, not,
  ◌/=◌, arith, if_cases,
}
use muc_opcua.Status.{good, Result, error, ok}
use muc_opcua.Encoding.Types.{Str}
use muc_opcua.Services.Policy.{none_id}
use muc_opcua.Services.Session.Table.{Entropy}
use muc_opcua.Services.SecureChannel.{
  SecureChannel, mode_none, mode_sign, mode_sign_and_encrypt, requested_policy_id,
  is_valid_security_mode, generate_channel_id, check_security, clamp_lifetime, issue_or_renew,
  channel_open,
}

-- The mode that a policy asks for: None with None, and signing with any other.
abbrev pub ModeFits : ℕ → ℕ → Type 0
ModeFits policy mode =
    ((policy ≡ none_id) × (mode ≡ mode_none))
    ⊎ ((policy ≢ none_id) × ((mode ≡ mode_sign) ⊎ (mode ≡ mode_sign_and_encrypt)))

check_security-good :
    (policy requested mode : ℕ)
    → check_security policy requested mode ≡ good
    → (requested ≡ policy) × ModeFits policy mode
unfolding check_security is_valid_security_mode
check_security-good policy requested mode e = (ground arith, ground arith)

lifetime_bounds : (n : ℕ) → (10000 ≤ clamp_lifetime n) × (clamp_lifetime n ≤ 3600000)
unfolding clamp_lifetime
lifetime_bounds n = (ground arith, ground arith)

-- What the step that issues or renews changes: a new channel has an id other than 0 and its first
-- token, a renewed one its id and the next token.
pub record Issued (c c' : SecureChannel) : Type 0 where
  pub opened : c'.is_open ≡ true
  pub policy_same : c'.policy ≡ c.policy
  pub new_id : c.is_open ≡ false → (c'.channel_id ≢ 0) × (c'.token_id ≡ 1)
  pub renewed :
      c.is_open ≡ true → (c'.channel_id ≡ c.channel_id) × (c'.token_id ≡ (c.token_id + 1) % 2 ^ 32)

abbrev AllIssued : SecureChannel → Result SecureChannel → Type 0
AllIssued c (error e) = e ≢ good
AllIssued c (ok c') = Issued c c'

abbrev NotZero : Result ℕ → Type 0
NotZero (error e) = e ≢ good
NotZero (ok id) = id ≢ 0

generate_channel_id-NotZero : (entropy : Entropy) → NotZero (generate_channel_id entropy)
unfolding generate_channel_id
generate_channel_id-NotZero none = omega arith
generate_channel_id-NotZero (some generate_random) = drawn (generate_random 4)
  where
    drawn : (r : Result (List ℕ)) → NotZero (generate_channel_id (some (λ n. r)))
    drawn (error e) = omega arith
    drawn (ok random) = ground arith

true-false : true ≡ false → ⊥
true-false p = cc

issue_or_renew-Issued :
    (c : SecureChannel) (entropy : Entropy) → AllIssued c (issue_or_renew c entropy)
unfolding issue_or_renew
issue_or_renew-Issued c entropy =
    if_cases (AllIssued c) (not c.is_open) _
      (ok (record c { token_id = (c.token_id + 1) % 2 ^ 32 }))
      (λ shut.
        issued (generate_channel_id entropy) (generate_channel_id-NotZero entropy) (not_true shut))
      (λ kept.
        let opened : c.is_open ≡ true = not_false kept in
        record {
          opened = opened;
          policy_same = refl;
          new_id = λ shut. absurd (true-false (sym opened ∙ shut));
          renewed = λ _. (refl, refl);
        })
  where
    not_true : not c.is_open ≡ true → c.is_open ≡ false
    not_true p = ground arith

    not_false : not c.is_open ≡ false → c.is_open ≡ true
    not_false p = ground arith

    issued :
        (r : Result ℕ)
        → NotZero r
        → c.is_open ≡ false
        → AllIssued c (elim r [
          | error status ↦ error status
          | ok id ↦ ok (record c { channel_id = id; token_id = 1; is_open = true })
        ])
    issued (error e) h shut = h
    issued (ok id) h shut = record {
      opened = refl;
      policy_same = refl;
      new_id = λ _. (h, refl);
      renewed = λ opened. absurd (true-false (sym opened ∙ shut));
    }

-- What a call that returns MU_STATUS_GOOD has established.
pub record Opened (c c' : SecureChannel) (requested mode : ℕ) : Type 0 where
  pub policy_agreed : requested ≡ c.policy
  pub mode_agreed : ModeFits c.policy mode
  pub mode_kept : c'.mode ≡ mode
  pub issued : Issued c c'
  pub lifetime : (10000 ≤ c'.revised_lifetime) × (c'.revised_lifetime ≤ 3600000)

abbrev GoodIsOpened : SecureChannel → ℕ → ℕ → ℕ × SecureChannel → Type 0
GoodIsOpened c requested mode (status, c') = status ≡ good → Opened c c' requested mode

-- An OpenSecureChannel that returns MU_STATUS_GOOD, whatever it was asked and whatever the entropy
-- adapter gives, asked for the policy of the channel, and for mode None just where that policy is
-- None; it leaves the channel open with that mode and policy, with a lifetime between ten seconds
-- and an hour, and with an id other than 0 and token 1 if the channel was not open, or else its
-- id as it was and the next token.
pub open_establishes :
    (c : SecureChannel) (policy : Option Str) (mode lifetime : ℕ) (entropy : Entropy)
    → (channel_open c policy mode lifetime entropy).0 ≡ good
    → Opened c (channel_open c policy mode lifetime entropy).1 (requested_policy_id policy) mode
unfolding channel_open
open_establishes c policy mode lifetime entropy e =
    let requested : ℕ = requested_policy_id policy in
    if_cases (GoodIsOpened c requested mode) (check_security c.policy requested mode /= good)
      (check_security c.policy requested mode, c) _
      (λ bad is_good. absurd (not_good (check_security c.policy requested mode) bad is_good))
      (λ checked.
        established (issue_or_renew c entropy) (issue_or_renew-Issued c entropy)
          (is_good (check_security c.policy requested mode) checked))
      e
  where
    not_good : (s : ℕ) → (s /= good) ≡ true → s ≢ good
    not_good s h = ground arith

    is_good : (s : ℕ) → (s /= good) ≡ false → s ≡ good
    is_good s h = ground arith

    established :
        (r : Result SecureChannel)
        → AllIssued c r
        → check_security c.policy (requested_policy_id policy) mode ≡ good
        → GoodIsOpened c (requested_policy_id policy) mode (elim r [
          | error status ↦ (status, c)
          | ok issued ↦
              (good, record issued { revised_lifetime = clamp_lifetime lifetime; mode = mode })
        ])
    established (error s) h checked is_good = absurd (h is_good)
    established (ok c') h checked is_good =
        let (agreed, fits) =
          check_security-good c.policy (requested_policy_id policy) mode checked in
        record {
          policy_agreed = agreed;
          mode_agreed = fits;
          mode_kept = refl;
          issued = record {
            opened = h.opened;
            policy_same = h.policy_same;
            new_id = h.new_id;
            renewed = h.renewed;
          };
          lifetime = lifetime_bounds lifetime;
        }
