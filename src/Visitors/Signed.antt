-- ===== src/Visitors/Signed.antt =====
-- A visitor's connection at frps.
use frp.Prelude.{
  true, length, ltb, ok, ◌<◌, [], ◌∷◌, ◌++◌, false, arith, some, ℕ, String, str_eq, Bool,
  if◌then◌else◌, ◌≡◌, refl, ℤ, Bool-cases, inl, inr, err, str_eq_iff, sym,
}
use frp.Auth.Agree.{NoCollision, get_auth_key_same}
use frp.Visitors.{
  Stream, set_listener, put_conn, VisitorManager, VisitorConf, auth_failed, new_visitor_conn,
  visitor_message, visitor_stream, deliver,
}

module _ (digest : String → String) (encrypts : String → Bool) where
  message_delivered :
      (cfg : VisitorConf) (sk : String) (now : ℤ) (conn id : ℕ) (vm : VisitorManager)
      → NoCollision digest sk cfg.sk now
      → vm.visitor_listeners cfg.server_name ≡ some id
      → vm.sk_map cfg.server_name ≡ some sk
      → new_visitor_conn digest encrypts (visitor_message digest encrypts cfg now) conn vm ≡ (
          if str_eq cfg.sk sk
          then deliver digest encrypts (visitor_stream digest encrypts cfg conn) id vm
          else (err auth_failed, vm))
  unfolding new_visitor_conn visitor_message
  message_delivered cfg sk now conn id vm apart listening secret =
      elim (Bool-cases (str_eq cfg.sk sk)) [
        | inr other ↦
            rw
              (
                listening,
                secret,
                new_visitor_conn,
                get_auth_key_same digest sk cfg.sk now apart,
                other,
              )
              refl
        | inl same ↦
            let e : sk ≡ cfg.sk = sym ((str_eq_iff cfg.sk sk).0 same) in
            rw
              (
                listening,
                secret,
                new_visitor_conn,
                get_auth_key_same digest sk cfg.sk now apart,
                same,
                e,
              )
              refl
      ]

  -- Let a proxy of that name listen with a secret on a listener that is open and at which fewer than 64
  -- connections wait, let the visitor's own encryption, if it uses any, succeed, and let the digests of what
  -- is signed not collide. Then a visitor with the same secret is answered without an error, and its
  -- connection waits last at that listener, under the very layers that the visitor puts on its end; a
  -- visitor with another secret is refused, and nothing changes.
  pub new_visitor_conn-message :
      (cfg : VisitorConf) (sk : String) (now : ℤ) (conn id : ℕ) (s : Stream) (vm : VisitorManager)
      → NoCollision digest sk cfg.sk now
      → vm.visitor_listeners cfg.server_name ≡ some id
      → vm.sk_map cfg.server_name ≡ some sk
      → (vm.listeners id).closed ≡ false
      → length (vm.listeners id).accept_ch < 64
      → visitor_stream digest encrypts cfg conn ≡ some s
      → new_visitor_conn digest encrypts (visitor_message digest encrypts cfg now) conn vm ≡ (
          if str_eq cfg.sk sk
          then (
            ok tt,
            set_listener id
                (record (vm.listeners id) { accept_ch = (vm.listeners id).accept_ch ++ s ∷ [] })
                vm,
          )
          else (err auth_failed, vm))
  unfolding put_conn
  new_visitor_conn-message cfg sk now conn id s vm apart listening secret opened room layers =
      let free : ltb (length (vm.listeners id).accept_ch) 64 ≡ true = ground arith in
      let put : deliver digest encrypts (visitor_stream digest encrypts cfg conn) id vm ≡ (
        ok tt,
        set_listener id
            (record (vm.listeners id) { accept_ch = (vm.listeners id).accept_ch ++ s ∷ [] }) vm,
      ) =
        rw (layers, put_conn, opened, free) refl in
      rw⁻¹ put (message_delivered cfg sk now conn id vm apart listening secret)
