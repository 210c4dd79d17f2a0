-- ===== src/Auth/CurrentUser.antt =====
-- The user of a request, in api/deps.py.
use stock_invest_system.Prelude.{ℕ, Bool, false, ◌||◌, Option, none, some, ◌==◌, if◌then◌else◌}
use stock_invest_system.Auth.Tokens.{decode_access_token_full}
use stock_invest_system.Auth.World.{
  User, World, Result, ok, err, get_by_id, user_missing, token_refused, account_deleted,
}
use stock_invest_system.Auth.Sessions.{is_access_token_blacklisted}
use stock_invest_system.Auth.Outside.{Outside, Settings}

module _ {S T : Type 0} (o : Outside S T) (c : Settings) where
  -- `_resolve_user_id`: a token with no jti is not looked up; user 0 is none.
  abbrev blacklisted_jti : Bool → ℕ → Option ℕ → World S → Bool
  blacklisted_jti up now none w = false
  blacklisted_jti up now (some jti) w =
      is_access_token_blacklisted o.keys o.hash_refresh_token c.refresh_days up now jti w

  unfoldable pub resolve_user_id : Bool → ℕ → T → World S → Option ℕ
  resolve_user_id up now token w = elim (decode_access_token_full o.jwt now token) [
    | none ↦ none
    | some p ↦ if blacklisted_jti up now p.jti w || (p.sub == 0) then none else some p.sub
  ]

  unfoldable pub get_current_user : Bool → ℕ → T → World S → Result User
  get_current_user up now token w = elim (resolve_user_id up now token w) [
    | none ↦ err token_refused
    | some user_id ↦ elim (get_by_id user_id w.users) [
      | none ↦ err user_missing
      | some u ↦ if u.is_deleted then err account_deleted else ok u
    ]
  ]
