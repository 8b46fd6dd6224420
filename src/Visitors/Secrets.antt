-- ===== src/Visitors/Secrets.antt =====
-- The connections that wait at the listeners of visitors, and the secrets of these.
use frp.Prelude.{
  ◌⊎◌, ℕ, ◌<◌, ◌≤◌, ◌≡◌, refl, sym, ap, ◌∙◌, String, str_eq, Bool, true, false, Option, none, some,
  is_some, Option-cases, Bool-cases, inl, inr, List, [], ◌∷◌, ◌++◌, length, length-append, arith,
  ltb, ◌==◌, ==_iff,
}
use frp.Visitors.{
  get_auth_key, Stream, CustomListener, VisitorManager, NewVisitorConn, put_conn, set_listener,
  or_zero, compress_if, server_stream, deliver, new_visitor_conn,
}

-- A stream is encrypted with this secret if it is encrypted.
abbrev pub HasKey : String → Option String → Type 0
HasKey sk none = Unit {0}
HasKey sk (some k) = k ≡ sk

abbrev pub HaveKey : String → List Stream → Type 0
HaveKey sk [] = Unit {0}
HaveKey sk (s ∷ streams) = HasKey sk s.encrypted_with × HaveKey sk streams

pub record IsSecret (vm : VisitorManager) : Type 0 where
  pub same_names : (name : String) → is_some (vm.visitor_listeners name) ≡ is_some (vm.sk_map name)
  pub made : (name : String) (id : ℕ) → vm.visitor_listeners name ≡ some id → id < vm.next
  pub apart :
      (name other : String) (id : ℕ)
      → vm.visitor_listeners name ≡ some id
      → vm.visitor_listeners other ≡ some id
      → name ≡ other
  pub room : (id : ℕ) → length (vm.listeners id).accept_ch ≤ 64
  pub keyed :
      (name sk : String) (id : ℕ)
      → vm.visitor_listeners name ≡ some id
      → vm.sk_map name ≡ some sk
      → HaveKey sk (vm.listeners id).accept_ch

HaveKey-append :
    (sk : String) (streams : List Stream) (s : Stream)
    → HaveKey sk streams
    → HasKey sk s.encrypted_with
    → HaveKey sk (streams ++ s ∷ [])
HaveKey-append sk [] s all one = (one, tt)
HaveKey-append sk (t ∷ streams) s (first, all) one = (first, HaveKey-append sk streams s all one)

-- A listener changes, and what it holds stays within its room and its key.
pub set_listener-IsSecret :
    (id : ℕ) (l : CustomListener) (vm : VisitorManager)
    → length l.accept_ch ≤ 64
    → ((name sk : String)
        → vm.visitor_listeners name ≡ some id
        → vm.sk_map name ≡ some sk
        → HaveKey sk l.accept_ch)
    → IsSecret vm
    → IsSecret (set_listener id l vm)
set_listener-IsSecret id l vm small keys h = record {
  same_names = h.same_names;
  made = h.made;
  apart = h.apart;
  room = λ j. elim (Bool-cases (id == j)) [
    | inl same ↦ rw same small
    | inr other ↦ rw other (h.room j)
  ];
  keyed = λ name sk j found secret. elim (Bool-cases (id == j)) [
    | inl same ↦
        let e : id ≡ j = (==_iff id j).0 same in
        rw same (keys name sk (found ∙ ap some (sym e)) secret)
    | inr other ↦ rw other (h.keyed name sk j found secret)
  ];
}

-- A listener holds what it held, or one more.
put_conn_cases :
    (s : Stream) (streams : List Stream) (closed : Bool)
    → ((put_conn s (record { accept_ch = streams; closed = closed })).1.accept_ch ≡ streams)
      ⊎ ((length streams < 64)
          × ((put_conn s (record { accept_ch = streams; closed = closed })).1.accept_ch
              ≡ streams ++ s ∷ []))
unfolding put_conn
put_conn_cases s streams true = inl refl
put_conn_cases s streams false = elim (Bool-cases (ltb (length streams) 64)) [
  | inl free ↦ inr (ground arith, rw free refl)
  | inr full ↦ inl (rw full refl)
]

put_conn-IsSecret :
    (s : Stream) (id : ℕ) (vm : VisitorManager)
    → ((name sk : String)
        → vm.visitor_listeners name ≡ some id
        → vm.sk_map name ≡ some sk
        → HasKey sk s.encrypted_with)
    → IsSecret vm
    → IsSecret (set_listener id (put_conn s (vm.listeners id)).1 vm)
put_conn-IsSecret s id vm key h =
    let l = vm.listeners id in
    let after = (put_conn s l).1 in
    elim (put_conn_cases s l.accept_ch l.closed) [
      | inl same ↦
          set_listener-IsSecret id after vm (rw same (h.room id))
            (λ name sk found secret. rw same (h.keyed name sk id found secret)) h
      | inr (free, more) ↦
          set_listener-IsSecret id after vm
            (rw (more, length-append l.accept_ch (s ∷ [])) (ground arith))
            (λ name sk found secret. rw more (
              HaveKey-append sk l.accept_ch s (h.keyed name sk id found secret)
                (key name sk found secret)))
            h
    ]

abbrev MayHaveKey : String → Option Stream → Type 0
MayHaveKey sk none = Unit {0}
MayHaveKey sk (some s) = HasKey sk s.encrypted_with

compress_if-MayHaveKey :
    (sk : String) (use_compression : Bool) (s : Stream)
    → HasKey sk s.encrypted_with
    → MayHaveKey sk (some (compress_if use_compression s))
compress_if-MayHaveKey sk true s key = key
compress_if-MayHaveKey sk false s key = key

module _ (digest : String → String) (encrypts : String → Bool) where
  -- What NewConn makes of a connection has the secret that it is given, if it is encrypted.
  server_stream-MayHaveKey :
      (m : NewVisitorConn) (sk : String) (conn : ℕ)
      → MayHaveKey sk (server_stream digest encrypts m sk conn)
  server_stream-MayHaveKey m sk conn =
      let bare : Stream = record { conn = conn; encrypted_with = none; compressed = false } in
      elim (Bool-cases m.use_encryption) [
        | inr off ↦ rw off (compress_if-MayHaveKey sk m.use_compression bare tt)
        | inl on ↦ elim (Bool-cases (encrypts sk)) [
          | inr fails ↦ rw (on, fails) tt
          | inl works ↦
              rw (on, works)
                (compress_if-MayHaveKey sk m.use_compression
                  (record bare { encrypted_with = some sk }) refl)
        ]
      ]

  deliver-IsSecret :
      (o : Option Stream) (id : ℕ) (vm : VisitorManager)
      → ((name sk : String)
          → vm.visitor_listeners name ≡ some id
          → vm.sk_map name ≡ some sk
          → MayHaveKey sk o)
      → IsSecret vm
      → IsSecret (deliver digest encrypts o id vm).1
  deliver-IsSecret none id vm keys h = h
  deliver-IsSecret (some s) id vm keys h = put_conn-IsSecret s id vm keys h

  pub new_visitor_conn-IsSecret :
      (m : NewVisitorConn) (conn : ℕ) (vm : VisitorManager)
      → IsSecret vm
      → IsSecret (new_visitor_conn digest encrypts m conn vm).1
  unfolding new_visitor_conn
  new_visitor_conn-IsSecret m conn vm h = elim (Option-cases (vm.visitor_listeners m.proxy_name)) [
    | inl missing ↦ rw (missing, new_visitor_conn) h
    | inr (id, found) ↦
        let sk = or_zero (vm.sk_map m.proxy_name) in
        elim (Bool-cases (str_eq (get_auth_key digest sk m.timestamp) m.sign_key)) [
          | inr wrong ↦ rw (found, new_visitor_conn, wrong) h
          | inl right ↦
              rw (found, new_visitor_conn, right)
                (deliver-IsSecret (server_stream digest encrypts m sk conn) id vm
                  (λ name own at_name secret.
                    let e : name ≡ m.proxy_name = h.apart name m.proxy_name id at_name found in
                    let same : sk ≡ own = ap or_zero (rw e at secret) in
                    rw⁻¹ same (server_stream-MayHaveKey m sk conn))
                  h)
        ]
  ]
