-- ===== src/Auth/World.antt =====
-- The rows and keys that sign-in reads and writes, and the queries of repositories/user_repo.py and
-- services/session_service.py over them. Names, addresses, passwords, tokens and their hashes are
-- told apart by numbers; times are whole seconds, rounded down. What is only shown is left out.
use stock_invest_system.Prelude.{
  ℕ, ◌+◌, Bool, true, false, ◌&&◌, List, [], ◌∷◌, Option, none, some, ◌==◌, if◌then◌else◌,
}

-- models/user.py
pub record User : Type 0 where
  pub id : ℕ
  pub username : ℕ
  pub password_hash : ℕ
  pub email : Option ℕ
  pub email_verified : Bool
  pub is_deleted : Bool
  pub deleted_at : Option ℕ

-- models/session.py
pub record UserSession : Type 0 where
  pub id : ℕ
  pub user_id : ℕ
  pub refresh_token_hash : ℕ
  pub expires_at : ℕ
  pub revoked_at : Option ℕ

-- The tables, with the next values of their identities, and the keys of Redis by their prefix.
pub record World (S : Type 0) : Type 0 where
  pub users : List User
  pub next_user : ℕ
  pub sessions : List UserSession
  pub next_session : ℕ
  pub refresh_blacklist : S
  pub token_blacklist : S
  pub login_fail : S

-- The errors that are raised, by their code; the text of the message is left out.
pub data AuthError : Type 0 where
  username_taken : AuthError
  email_taken : AuthError
  wrong_password : AuthError
  current_password_wrong : AuthError
  same_password : AuthError
  same_email : AuthError
  account_deleted : AuthError
  already_deleted : AuthError
  not_deleted : AuthError
  grace_over : AuthError
  login_locked : AuthError
  sessions_revoked : AuthError
  refresh_refused : AuthError
  session_missing : AuthError
  bad_verify_link : AuthError
  bad_reset_link : AuthError
  email_mismatch : AuthError
  user_missing : AuthError
  token_refused : AuthError

pub data Result {ℓ} (A : Type ℓ) : Type ℓ where
  ok : A → Result A
  err : AuthError → Result A

-- What a call returns or raises, and what is left committed.
pub record Reply (S : Type 0) (A : Type 0) : Type 0 where
  pub result : Result A
  pub world : World S

abbrev pub same_id : Option ℕ → ℕ → Bool
same_id none n = false
same_id (some m) n = m == n

abbrev pub get_by_username : ℕ → List User → Option User
get_by_username name [] = none
get_by_username name (u ∷ us) = if u.username == name then some u else get_by_username name us

abbrev pub get_by_email : ℕ → List User → Option User
get_by_email email [] = none
get_by_email email (u ∷ us) = if same_id u.email email then some u else get_by_email email us

abbrev pub get_by_id : ℕ → List User → Option User
get_by_id id [] = none
get_by_id id (u ∷ us) = if u.id == id then some u else get_by_id id us

-- A write to the row of an identity.
abbrev pub write_user : User → List User → List User
write_user u [] = []
write_user u (v ∷ vs) = if v.id == u.id then u ∷ vs else v ∷ write_user u vs

abbrev pub is_unrevoked : UserSession → Bool
is_unrevoked s = elim s.revoked_at [ none ↦ true | some t ↦ false ]

-- The first session with a hash.
abbrev pub find_by_hash : ℕ → List UserSession → Option UserSession
find_by_hash hash [] = none
find_by_hash hash (s ∷ ss) = if s.refresh_token_hash == hash then some s else find_by_hash hash ss

abbrev pub revoke_id : ℕ → ℕ → List UserSession → List UserSession
revoke_id now id [] = []
revoke_id now id (s ∷ ss) =
    (if s.id == id then record s { revoked_at = some now } else s) ∷ revoke_id now id ss

abbrev pub revoke_user : ℕ → ℕ → List UserSession → List UserSession
revoke_user now user_id [] = []
revoke_user now user_id (s ∷ ss) =
    (if s.user_id == user_id && is_unrevoked s then record s { revoked_at = some now } else s)
    ∷ revoke_user now user_id ss

abbrev pub count_unrevoked : ℕ → List UserSession → ℕ
count_unrevoked user_id [] = 0
count_unrevoked user_id (s ∷ ss) =
    (if s.user_id == user_id && is_unrevoked s then 1 else 0) + count_unrevoked user_id ss
