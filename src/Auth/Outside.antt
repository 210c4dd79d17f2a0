-- ===== src/Auth/Outside.antt =====
-- What sign-in takes from outside this repository, its settings and its answers.
use stock_invest_system.Prelude.{ℕ, ◌≡◌, Bool, true}
use stock_invest_system.Redis.{ExpiringKeys}
use stock_invest_system.Auth.Tokens.{Jwt}
use stock_invest_system.Auth.World.{World, AuthError, err, Reply}

-- What is not under this repository: Redis, PyJWT, bcrypt, SHA-256 and `strip` of a name.
pub record Outside (S T : Type 0) : Type 0 where
  pub keys : ExpiringKeys S
  pub jwt : Jwt T
  pub strip : ℕ → ℕ
  pub hash_refresh_token : ℕ → ℕ
  -- With the salt that is drawn.
  pub hash_password : ℕ → ℕ → ℕ
  pub verify_password : ℕ → ℕ → Bool
  pub verify-hash :
      (salt password : ℕ) → verify_password password (hash_password salt password) ≡ true

-- The settings, in minutes and days.
pub record Settings : Type 0 where
  pub access_minutes : ℕ
  pub refresh_days : ℕ

pub record Fresh : Type 0 where
  pub jti : ℕ
  pub refresh_token : ℕ
  pub salt : ℕ

pub record Tokens (T : Type 0) : Type 0 where
  pub token : T
  pub refresh_token : ℕ
  pub user_id : ℕ

abbrev pub refuse : {S A : Type 0} → AuthError → World S → Reply S A
refuse e w = record { result = err e; world = w }
