-- ===== src/Auth/Tokens.antt =====
-- The tokens: `create_access_token` and its decoding (core/security.py), and those of the mails
-- (services/email_token.py). Texts are told apart by numbers, and times are whole seconds.
use stock_invest_system.Prelude.{
  ℕ, ◌+◌, ◌*◌, ◌≡◌, Bool, true, false, ◌&&◌, Option, none, some, leb, ltb, if◌then◌else◌, arith,
}

-- The main secret, and the two derived from it by a suffix.
pub data Secret : Type 0 where
  main : Secret
  email_verify : Secret
  password_reset : Secret

abbrev pub same_secret : Secret → Secret → Bool
same_secret main main = true
same_secret email_verify email_verify = true
same_secret password_reset password_reset = true
same_secret _ _ = false

-- The field `type`.
pub data Kind : Type 0 where
  verify_email : Kind
  reset_password : Kind

-- The claims of a token, those missing as none.
pub record Payload : Type 0 where
  pub sub : ℕ
  pub email : Option ℕ
  pub kind : Option Kind
  pub jti : Option ℕ
  pub exp : ℕ
  pub iat : ℕ

-- PyJWT: a token is decoded with the secret it was made with, from its creation until it expires.
pub record Jwt (T : Type 0) : Type 0 where
  pub encode : Secret → Payload → T
  pub decode : Secret → ℕ → T → Option Payload
  pub decode-encode :
      (s r : Secret) (p : Payload) (now : ℕ)
      → decode r now (encode s p) ≡ (
          if same_secret s r
          then (if leb p.iat now && ltb now p.exp then some p else none)
          else none)

module _ {T : Type 0} (j : Jwt T) where
  -- The minutes that an access token lasts are a setting.
  unfoldable pub create_access_token : ℕ → ℕ → ℕ → ℕ → T
  create_access_token minutes now jti user_id = j.encode main (record {
    sub = user_id;
    email = none;
    kind = none;
    jti = some jti;
    exp = now + minutes * 60;
    iat = now;
  })

  unfoldable pub decode_access_token_full : ℕ → T → Option Payload
  decode_access_token_full now token = j.decode main now token

  unfoldable pub create_verify_token : ℕ → ℕ → ℕ → T
  create_verify_token now user_id email = j.encode email_verify (record {
    sub = user_id;
    email = some email;
    kind = some verify_email;
    jti = none;
    exp = now + 10 * 60;
    iat = now;
  })

  unfoldable pub create_reset_token : ℕ → ℕ → ℕ → T
  create_reset_token now user_id email = j.encode password_reset (record {
    sub = user_id;
    email = some email;
    kind = some reset_password;
    jti = none;
    exp = now + 3600;
    iat = now;
  })

  -- The user and the address of a payload of the kind; a KeyError gives none.
  abbrev owner : Payload → Option ℕ → Option (ℕ × ℕ)
  owner p none = none
  owner p (some email) = some (p.sub, email)

  abbrev of_verify : Payload → Option Kind → Option (ℕ × ℕ)
  of_verify p (some verify_email) = owner p p.email
  of_verify p (some reset_password) = none
  of_verify p none = none

  abbrev of_reset : Payload → Option Kind → Option (ℕ × ℕ)
  of_reset p (some reset_password) = owner p p.email
  of_reset p (some verify_email) = none
  of_reset p none = none

  unfoldable pub verify_email_token : ℕ → T → Option (ℕ × ℕ)
  verify_email_token now token = elim (j.decode email_verify now token) [
    | none ↦ none
    | some p ↦ of_verify p p.kind
  ]

  unfoldable pub verify_reset_token : ℕ → T → Option (ℕ × ℕ)
  verify_reset_token now token = elim (j.decode password_reset now token) [
    | none ↦ none
    | some p ↦ of_reset p p.kind
  ]

  -- A mail's token gives back its user and address from its creation until it expires, and nothing
  -- before and after; and neither it nor an access token is taken for a token of another purpose.
  pub email_tokens_roundtrip :
      (made now user_id email minutes jti : ℕ)
      → (verify_email_token now (create_verify_token made user_id email)
          ≡ (if leb made now && ltb now (made + 600) then some (user_id, email) else none))
        × (verify_reset_token now (create_reset_token made user_id email)
            ≡ (if leb made now && ltb now (made + 3600) then some (user_id, email) else none))
        × (verify_reset_token now (create_verify_token made user_id email) ≡ none)
        × (verify_email_token now (create_reset_token made user_id email) ≡ none)
        × (verify_email_token now (create_access_token minutes made jti user_id) ≡ none)
        × (verify_reset_token now (create_access_token minutes made jti user_id) ≡ none)
        × (decode_access_token_full now (create_verify_token made user_id email) ≡ none)
        × (decode_access_token_full now (create_reset_token made user_id email) ≡ none)
  unfolding create_access_token decode_access_token_full create_verify_token create_reset_token
      verify_email_token verify_reset_token
  email_tokens_roundtrip made now user_id email minutes jti = grind (arith, j.decode-encode)
