-- ===== src/Auth/Agree.antt =====
-- A message that one side signs is accepted by the other exactly if their tokens agree.
use frp.Prelude.{
  String, ◌⋅◌, str_eq, str_eq_iff, ◌≡◌, refl, sym, ap, not, if◌then◌else◌, none, some, ℤ, show_ℤ,
  Bool-cases, inl, inr,
}
use text.Mathlib.TextLemmas.{append_cancel_right}
use frp.Auth.{
  TokenAuth, Signed, AuthError, login_token_mismatch, heartbeat_token_mismatch,
  new_work_conn_token_mismatch, get_auth_key, set_login, set_ping, set_new_work_conn, verify,
  verify_login, verify_ping, verify_new_work_conn,
}

module _ (digest : String → String) where
  -- The digests of what two sides sign at one time do not collide.
  abbrev pub NoCollision : String → String → ℤ → Type 0
  NoCollision token other timestamp =
      digest (token ⋅ show_ℤ timestamp) ≡ digest (other ⋅ show_ℤ timestamp)
      → token ⋅ show_ℤ timestamp ≡ other ⋅ show_ℤ timestamp

  -- Two secrets give one key at one time exactly if they are equal.
  pub get_auth_key_same :
      (secret other : String) (timestamp : ℤ)
      → NoCollision secret other timestamp
      → str_eq (get_auth_key digest secret timestamp) (get_auth_key digest other timestamp)
        ≡ str_eq other secret
  unfolding get_auth_key
  get_auth_key_same secret other timestamp apart =
      let signed = digest (other ⋅ show_ℤ timestamp) in
      let expected = digest (secret ⋅ show_ℤ timestamp) in
      elim (Bool-cases (str_eq other secret)) [
        | inl same ↦
            let e = (str_eq_iff other secret).0 same in
            rw same
              ((str_eq_iff expected signed).1 (ap (λ t. digest (t ⋅ show_ℤ timestamp)) (sym e)))
        | inr differ ↦ elim (Bool-cases (str_eq expected signed)) [
          | inr test ↦ rw (differ, test) refl
          | inl test ↦
              let equal =
                append_cancel_right secret other (show_ℤ timestamp)
                  (apart ((str_eq_iff expected signed).0 test)) in
              absurd (cc ((str_eq_iff other secret).1 (sym equal), differ))
        ]
      ]

  pub verify-signed :
      (e : AuthError) (client server : TokenAuth) (timestamp : ℤ)
      → NoCollision server.token client.token timestamp
      → verify digest e server (record {
        privilege_key = get_auth_key digest client.token timestamp;
        timestamp = timestamp;
      })
        ≡ (if str_eq client.token server.token then none else some e)
  verify-signed e client server timestamp apart =
      elim (Bool-cases (str_eq client.token server.token)) [
        | inl same ↦ rw (get_auth_key_same server.token client.token timestamp apart, same) refl
        | inr differ ↦ rw (get_auth_key_same server.token client.token timestamp apart, differ) refl
      ]

  -- Let both sides authenticate the same kinds of messages, and let the digests of what they sign not
  -- collide. Then what frpc sets, frps verifies: a login, and a ping and a new work connection if they
  -- are authenticated, is accepted if the tokens are equal and refused if they differ; a message of a
  -- kind that is not authenticated is accepted.
  pub verify-set :
      (client server : TokenAuth) (now : ℤ) (login ping work_conn : Signed)
      → client.authenticate_heart_beats ≡ server.authenticate_heart_beats
      → client.authenticate_new_work_conns ≡ server.authenticate_new_work_conns
      → NoCollision server.token client.token login.timestamp
      → NoCollision server.token client.token now
      → (verify_login digest server (set_login digest client login)
          ≡ (if str_eq client.token server.token then none else some login_token_mismatch))
        × (verify_ping digest server (set_ping digest now client ping) ≡ (
            if not server.authenticate_heart_beats
            then none
            else if str_eq client.token server.token
            then none
            else some heartbeat_token_mismatch))
        × (verify_new_work_conn digest server (set_new_work_conn digest now client work_conn) ≡ (
            if not server.authenticate_new_work_conns
            then none
            else if str_eq client.token server.token
            then none
            else some new_work_conn_token_mismatch))
  unfolding verify_login verify_ping verify_new_work_conn set_login set_ping set_new_work_conn
  verify-set client server now login ping work_conn beats conns login_apart now_apart = (
    verify-signed login_token_mismatch client server login.timestamp login_apart,
    elim (Bool-cases server.authenticate_heart_beats) [
      | inl on ↦ rw (beats, on) (verify-signed heartbeat_token_mismatch client server now now_apart)
      | inr off ↦ rw (beats, off) refl
    ],
    elim (Bool-cases server.authenticate_new_work_conns) [
      | inl on ↦
          rw (conns, on) (verify-signed new_work_conn_token_mismatch client server now now_apart)
      | inr off ↦ rw (conns, off) refl
    ],
  )
