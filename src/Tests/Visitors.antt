-- ===== src/Tests/Visitors.antt =====
-- Visitors with the right and the wrong secret. The digest is the identity.
use frp.Prelude.{
  arith, show_ℤ, zero, suc, ◌∷◌, [], List, String, ◌≡◌, refl, pos, true, false, none, some, ok, err,
  if◌then◌else◌, str_eq, Bool, ℕ,
}
use frp.Visitors.{
  set_listener, VisitorManager, VisitorConf, CustomListener, Stream, new_visitor_manager,
  listen_visitors, visitor_message, new_visitor_conn, put_conn, accept_at, accepted, auth_failed,
  no_listener, close_visitors, close_own, listener_closed,
}
use frp.Visitors.Secrets.{IsSecret}
use frp.Visitors.Steps.{start, listening, connecting, Reach-IsSecret}
use frp.Visitors.Signed.{new_visitor_conn-message}

abbrev digest : String → String
digest text = text

abbrev encrypts : String → Bool
encrypts key = true

abbrev cfg : VisitorConf
cfg = record { server_name = "ssh"; sk = "abc"; use_encryption = true; use_compression = false }

abbrev served : VisitorManager
served = (listen_visitors "ssh" "abc" new_visitor_manager).1

abbrev visited : VisitorManager
visited =
    (new_visitor_conn digest encrypts (visitor_message digest encrypts cfg (pos 5)) 7 served).1

Reach-IsSecret_example : IsSecret visited
Reach-IsSecret_example = Reach-IsSecret digest encrypts (
    connecting (visitor_message digest encrypts cfg (pos 5)) 7 served
      (listening "ssh" "abc" new_visitor_manager start))

abbrev layered : Stream
layered = record { conn = 7; encrypted_with = some "abc"; compressed = false }

new_visitor_conn-message_example :
    new_visitor_conn digest encrypts (visitor_message digest encrypts cfg (pos 5)) 7 served ≡ (
      if str_eq "abc" "abc"
      then (ok tt, set_listener 0 (record { accept_ch = layered ∷ []; closed = false }) served)
      else (err auth_failed, served))
unfolding listen_visitors
new_visitor_conn-message_example =
    new_visitor_conn-message digest encrypts cfg "abc" (pos 5) 7 0 layered served (λ e. e) refl refl
      refl (omega arith) refl

same_layers :
    (accept_at 0 visited).0
    ≡ accepted (record { conn = 7; encrypted_with = some "abc"; compressed = false })
unfolding listen_visitors new_visitor_conn visitor_message accept_at show_ℤ
same_layers = refl

-- A visitor that comes between the two steps of Close is told of it.
closing :
    (new_visitor_conn digest encrypts
      (visitor_message digest encrypts cfg (pos 5))
      8
      (close_own 0 served)).0
    ≡ err listener_closed
unfolding listen_visitors new_visitor_conn visitor_message close_own show_ℤ
closing = refl

closed :
    (new_visitor_conn digest encrypts
      (visitor_message digest encrypts cfg (pos 5))
      8
      (close_visitors "ssh" served)).0
    ≡ err no_listener
unfolding listen_visitors new_visitor_conn visitor_message close_visitors
closed = refl

abbrev fill : ℕ → List Stream
fill zero = []
fill (suc n) = record { conn = n; encrypted_with = none; compressed = false } ∷ fill n

abbrev full : CustomListener
full = record { accept_ch = fill 64; closed = false }

-- The visitor whose connection finds 64 others waiting is told of no error.
dropped :
    put_conn (record { conn = 99; encrypted_with = none; compressed = false }) full ≡ (ok tt, full)
unfolding put_conn
dropped = refl
