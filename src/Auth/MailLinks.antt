-- ===== src/Auth/MailLinks.antt =====
-- The links sent by mail, in services/auth_service.py.
use stock_invest_system.Prelude.{ℕ, true, Option, none, some, if◌then◌else◌}
use stock_invest_system.Auth.Tokens.{create_reset_token, verify_email_token, verify_reset_token}
use stock_invest_system.Auth.World.{
  World, Reply, same_id, get_by_email, get_by_id, bad_verify_link, bad_reset_link, email_mismatch,
  user_missing,
}
use stock_invest_system.Auth.Outside.{Outside, Settings, Fresh, refuse}
use stock_invest_system.Auth.Account.{with_user, revoke_all, done}

module _ {S T : Type 0} (o : Outside S T) (c : Settings) where
  unfoldable pub verify_email : ℕ → T → World S → Reply S (Unit {0})
  verify_email now token w = elim (verify_email_token o.jwt now token) [
    | none ↦ refuse bad_verify_link w
    | some (user_id, email) ↦ elim (get_by_id user_id w.users) [
      | none ↦ refuse user_missing w
      | some u ↦
          if same_id u.email email
          then (if u.email_verified
              then done o c w
              else done o c (with_user o c (record u { email_verified = true }) w))
          else refuse email_mismatch w
    ]
  ]

  -- The link that is mailed, none when there is no such address; the answer is always the same.
  unfoldable pub forgot_password : ℕ → ℕ → World S → Option T
  forgot_password now email w = elim (get_by_email email w.users) [
    | none ↦ none
    | some u ↦ some (create_reset_token o.jwt now u.id email)
  ]

  unfoldable pub reset_password : ℕ → Fresh → T → ℕ → World S → Reply S (Unit {0})
  reset_password now r token new_password w = elim (verify_reset_token o.jwt now token) [
    | none ↦ refuse bad_reset_link w
    | some (user_id, email) ↦ elim (get_by_id user_id w.users) [
      | none ↦ refuse user_missing w
      | some u ↦
          if same_id u.email email
          then done o c (
              revoke_all o c now user_id (
                with_user o c (record u { password_hash = o.hash_password r.salt new_password }) w))
          else refuse email_mismatch w
    ]
  ]
