-- ===== src/Auth/Simple.antt =====
-- Keys, tokens and hashes of the kind that sign-in relies on: keys as a list of writes, the newest
-- first, a token as its secret and claims, and a password as its own hash.
use stock_invest_system.Prelude.{
  ℕ, ◌+◌, ◌≡◌, refl, true, List, [], ◌∷◌, arith, ◌==◌, ==_iff, Option, none, some, if◌then◌else◌,
  leb, ltb, ◌&&◌,
}
use stock_invest_system.Redis.{ExpiringKeys, or_zero}
use stock_invest_system.Auth.Tokens.{Secret, same_secret, Payload, Jwt}
use stock_invest_system.Auth.Outside.{Outside}

-- A key with its value and the time at which it is gone.
pub record Written : Type 0 where
  pub key : ℕ
  pub content : ℕ
  pub until : ℕ

abbrev pub Writes : Type 0
Writes = List Written

abbrev value : Writes → ℕ → ℕ → Option ℕ
value [] t k = none
value (x ∷ s) t k =
    if k == x.key then (if ltb t x.until then some x.content else none) else value s t k

pub value-delete :
    (key : ℕ) (s : Writes) (t k : ℕ)
    → value (record { key = key; content = 0; until = 0 } ∷ s) t k
      ≡ (if k == key then none else value s t k)
value-delete key s t k = ground arith

abbrev pub writes : ExpiringKeys Writes
writes = record {
  value = value;
  set_ex = λ now ttl key v s. record { key = key; content = v; until = now + ttl } ∷ s;
  incr_ex = λ now ttl key s.
      record { key = key; content = or_zero (value s now key) + 1; until = now + ttl } ∷ s;
  delete = λ key s. record { key = key; content = 0; until = 0 } ∷ s;
  value-set_ex = λ now ttl key v s t k le. refl;
  value-incr_ex = λ now ttl key s t k le. refl;
  value-delete = value-delete;
}

abbrev pub Token : Type 0
Token = Secret × Payload

abbrev decode : Secret → ℕ → Token → Option Payload
decode r now (s, p) =
    if same_secret s r then (if leb p.iat now && ltb now p.exp then some p else none) else none

abbrev pub tokens : Jwt Token
tokens = record { encode = λ s p. (s, p); decode = decode; decode-encode = λ s r p now. refl }

pub verify-hash : (salt password : ℕ) → (password == password) ≡ true
verify-hash salt password = (==_iff password password).1 refl

abbrev pub simple : Outside Writes Token
simple = record {
  keys = writes;
  jwt = tokens;
  strip = λ name. name;
  hash_refresh_token = λ token. token + 1000;
  hash_password = λ salt password. password;
  verify_password = λ password hash. password == hash;
  verify-hash = verify-hash;
}
