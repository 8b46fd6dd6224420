-- ===== src/Visitors.antt =====
-- Visitors of stcp and sudp proxies: the Manager of server/visitor/visitor.go with CustomListener of
-- pkg/util/net/listener.go, Run and Close of server/proxy/stcp.go and sudp.go, RegisterVisitorConn of
-- server/service.go, and the message and streams of STCPVisitor in client/visitor.go. A connection is a
-- number; a stream has the layers that are put on it. `digest` stands for the hexadecimal MD5, and
-- `encrypts` for whether WithEncryption, which another library has, makes a stream with a key. The locks
-- make each operation of the manager one step.
pub mod Secrets
pub mod Steps
pub mod Signed
use frp.Prelude.{
  ℕ, ◌+◌, ltb, String, str_eq, Bool, true, false, not, if◌then◌else◌, Option, none, some, List, [],
  ◌∷◌, ◌++◌, length, ℤ, Outcome, ok, err, update, update_name,
}
use frp.Auth.{get_auth_key}

-- A connection under its layers.
pub record Stream : Type 0 where
  pub conn : ℕ
  pub encrypted_with : Option String
  pub compressed : Bool

pub record CustomListener : Type 0 where
  pub accept_ch : List Stream
  pub closed : Bool

-- Manager, with the listeners by number.
pub record VisitorManager : Type 0 where
  pub visitor_listeners : String → Option ℕ
  pub sk_map : String → Option String
  pub listeners : ℕ → CustomListener
  pub next : ℕ

pub data VisitorError : Type 0 where
  listener_repeated auth_failed encryption_failed no_listener listener_closed : VisitorError

abbrev pub new_custom_listener : CustomListener
new_custom_listener = record { accept_ch = []; closed = false }

abbrev pub new_visitor_manager : VisitorManager
new_visitor_manager = record {
  visitor_listeners = λ name. none;
  sk_map = λ name. none;
  listeners = λ id. new_custom_listener;
  next = 0;
}

-- PutConn: a connection that finds the channel full is closed, and that is no error.
unfoldable pub put_conn : Stream → CustomListener → Outcome VisitorError (Unit {0}) × CustomListener
put_conn s l =
    if l.closed
    then (err listener_closed, l)
    else if ltb (length l.accept_ch) 64
    then (ok tt, record l { accept_ch = l.accept_ch ++ s ∷ [] })
    else (ok tt, l)

-- What Accept comes to; it waits at a channel that is open and empty.
pub data Accepted : Type 0 where
  accepted : Stream → Accepted
  ended waiting : Accepted

unfoldable pub accept : CustomListener → Accepted × CustomListener
accept l = elim l.accept_ch [
  | ◌∷◌ s more ↦ (accepted s, record l { accept_ch = more })
  | [] ↦ if l.closed then (ended, l) else (waiting, l)
]

-- CustomListener.Close
abbrev pub close_channel : CustomListener → CustomListener
close_channel l = record l { closed = true }

abbrev pub set_listener : ℕ → CustomListener → VisitorManager → VisitorManager
set_listener id l vm = record vm { listeners = update vm.listeners id l }

-- Manager.Listen, which Run of a stcp and of a sudp proxy calls.
unfoldable pub listen_visitors :
    String → String → VisitorManager → Outcome VisitorError ℕ × VisitorManager
listen_visitors name sk vm = elim (vm.visitor_listeners name) [
  | some id ↦ (err listener_repeated, vm)
  | none ↦ (
    ok vm.next,
    record vm {
      visitor_listeners = update_name vm.visitor_listeners name (some vm.next);
      sk_map = update_name vm.sk_map name (some sk);
      listeners = update vm.listeners vm.next new_custom_listener;
      next = vm.next + 1;
    },
  )
]

-- Manager.CloseListener
unfoldable pub close_visitors : String → VisitorManager → VisitorManager
close_visitors name vm = record vm {
  visitor_listeners = update_name vm.visitor_listeners name none;
  sk_map = update_name vm.sk_map name none;
}

-- Close of a proxy up to CloseListener: it closes the listener that Run got.
unfoldable pub close_own : ℕ → VisitorManager → VisitorManager
close_own id vm = set_listener id (close_channel (vm.listeners id)) vm

-- An Accept of the proxy.
unfoldable pub accept_at : ℕ → VisitorManager → Accepted × VisitorManager
unfolding accept
accept_at id vm = let (a, l) = accept (vm.listeners id) in (a, set_listener id l vm)

-- NewVisitorConn
pub record NewVisitorConn : Type 0 where
  pub proxy_name : String
  pub sign_key : String
  pub timestamp : ℤ
  pub use_encryption : Bool
  pub use_compression : Bool

-- STCPVisitorConf, as far as handleConn reads it.
pub record VisitorConf : Type 0 where
  pub server_name : String
  pub sk : String
  pub use_encryption : Bool
  pub use_compression : Bool

-- The value of a key, or Go's zero value.
abbrev pub or_zero : Option String → String
or_zero none = ""
or_zero (some sk) = sk

abbrev pub compress_if : Bool → Stream → Stream
compress_if use_compression s = if use_compression then record s { compressed = true } else s

module _ (digest : String → String) (encrypts : String → Bool) where
  -- The stream of a connection that NewConn puts, none if the encryption fails.
  abbrev pub server_stream : NewVisitorConn → String → ℕ → Option Stream
  server_stream m sk conn =
      let bare : Stream = record { conn = conn; encrypted_with = none; compressed = false } in
      if m.use_encryption
      then (if encrypts sk
          then some (compress_if m.use_compression (record bare { encrypted_with = some sk }))
          else none)
      else some (compress_if m.use_compression bare)

  abbrev pub deliver :
      Option Stream → ℕ → VisitorManager → Outcome VisitorError (Unit {0}) × VisitorManager
  deliver none id vm = (err encryption_failed, vm)
  deliver (some s) id vm = let (r, l) = put_conn s (vm.listeners id) in (r, set_listener id l vm)

  -- Manager.NewConn, which RegisterVisitorConn calls with the fields of the message.
  unfoldable pub new_visitor_conn :
      NewVisitorConn → ℕ → VisitorManager → Outcome VisitorError (Unit {0}) × VisitorManager
  unfolding get_auth_key put_conn
  new_visitor_conn m conn vm = elim (vm.visitor_listeners m.proxy_name) [
    | none ↦ (err no_listener, vm)
    | some id ↦
        let sk = or_zero (vm.sk_map m.proxy_name) in
        if not (str_eq (get_auth_key digest sk m.timestamp) m.sign_key)
        then (err auth_failed, vm)
        else deliver (server_stream m sk conn) id vm
  ]

  -- The message that a visitor sends first.
  unfoldable pub visitor_message : VisitorConf → ℤ → NewVisitorConn
  unfolding get_auth_key
  visitor_message cfg now = record {
    proxy_name = cfg.server_name;
    sign_key = get_auth_key digest cfg.sk now;
    timestamp = now;
    use_encryption = cfg.use_encryption;
    use_compression = cfg.use_compression;
  }

  -- The stream that a visitor then joins with its user's connection, none if the encryption fails.
  abbrev pub visitor_stream : VisitorConf → ℕ → Option Stream
  visitor_stream cfg conn =
      let remote : Stream = record { conn = conn; encrypted_with = none; compressed = false } in
      if cfg.use_encryption
      then (if encrypts cfg.sk
          then some
              (compress_if cfg.use_compression (record remote { encrypted_with = some cfg.sk }))
          else none)
      else some (compress_if cfg.use_compression remote)
