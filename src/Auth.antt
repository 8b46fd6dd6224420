-- ===== src/Auth.antt =====
-- pkg/auth/token.go, and GetAuthKey of pkg/util/util/util.go: frpc signs its messages with the token of
-- its configuration, and frps verifies them. `digest` stands for the hexadecimal MD5 of a text, which is
-- not implemented here. A timestamp is the number of Unix seconds, and the clock is an argument.
pub mod Agree
use frp.Prelude.{
  String, ◌⋅◌, str_eq, Bool, true, false, not, if◌then◌else◌, Option, none, some, ℤ, show_ℤ,
}

-- TokenAuthSetterVerifier with its BaseConfig.
pub record TokenAuth : Type 0 where
  pub authenticate_heart_beats : Bool
  pub authenticate_new_work_conns : Bool
  pub token : String

-- The fields of Login, Ping and NewWorkConn that authentication reads or writes.
pub record Signed : Type 0 where
  pub privilege_key : String
  pub timestamp : ℤ

pub data AuthError : Type 0 where
  login_token_mismatch heartbeat_token_mismatch new_work_conn_token_mismatch : AuthError

module _ (digest : String → String) where
  unfoldable pub get_auth_key : String → ℤ → String
  get_auth_key token timestamp = digest (token ⋅ show_ℤ timestamp)

  -- SetLogin signs the timestamp that the message has.
  unfoldable pub set_login : TokenAuth → Signed → Signed
  unfolding get_auth_key
  set_login auth m = record m { privilege_key = get_auth_key auth.token m.timestamp }

  abbrev pub sign_at : ℤ → TokenAuth → Signed → Signed
  sign_at now auth m = record m { timestamp = now; privilege_key = get_auth_key auth.token now }

  unfoldable pub set_ping : ℤ → TokenAuth → Signed → Signed
  unfolding get_auth_key
  set_ping now auth m = if not auth.authenticate_heart_beats then m else sign_at now auth m

  unfoldable pub set_new_work_conn : ℤ → TokenAuth → Signed → Signed
  unfolding get_auth_key
  set_new_work_conn now auth m =
      if not auth.authenticate_new_work_conns then m else sign_at now auth m

  abbrev pub verify : AuthError → TokenAuth → Signed → Option AuthError
  verify e auth m =
      if not (str_eq (get_auth_key auth.token m.timestamp) m.privilege_key) then some e else none

  unfoldable pub verify_login : TokenAuth → Signed → Option AuthError
  unfolding get_auth_key
  verify_login auth m = verify login_token_mismatch auth m

  unfoldable pub verify_ping : TokenAuth → Signed → Option AuthError
  unfolding get_auth_key
  verify_ping auth m =
      if not auth.authenticate_heart_beats then none else verify heartbeat_token_mismatch auth m

  unfoldable pub verify_new_work_conn : TokenAuth → Signed → Option AuthError
  unfolding get_auth_key
  verify_new_work_conn auth m =
      if not auth.authenticate_new_work_conns
      then none
      else verify new_work_conn_token_mismatch auth m
