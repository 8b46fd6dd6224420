-- ===== src/Visitors/Steps.antt =====
-- The states of the manager of visitors.
use frp.Prelude.{
  ◌⊎◌, ℕ, ◌≡◌, refl, ap, String, str_eq, str_eq_iff, Bool, true, false, none, some, Option-cases,
  Bool-cases, inl, inr, List, [], ◌∷◌, length, arith, ◌==◌, ==_iff,
}
use frp.Visitors.{
  close_channel, Stream, VisitorManager, NewVisitorConn, new_visitor_manager, accept,
  listen_visitors, close_visitors, close_own, accept_at, new_visitor_conn,
}
use frp.Visitors.Secrets.{IsSecret, set_listener-IsSecret, new_visitor_conn-IsSecret}

-- The states after any calls, of the proxies and of visitors.
pub data Reach (digest : String → String) (encrypts : String → Bool) : VisitorManager → Type 0 where
  start : Reach digest encrypts new_visitor_manager
  listening :
      (name sk : String) (vm : VisitorManager)
      → Reach digest encrypts vm
      → Reach digest encrypts (listen_visitors name sk vm).1
  connecting :
      (m : NewVisitorConn) (conn : ℕ) (vm : VisitorManager)
      → Reach digest encrypts vm
      → Reach digest encrypts (new_visitor_conn digest encrypts m conn vm).1
  accepting :
      (id : ℕ) (vm : VisitorManager)
      → Reach digest encrypts vm
      → Reach digest encrypts (accept_at id vm).1
  closing :
      (id : ℕ) (vm : VisitorManager)
      → Reach digest encrypts vm
      → Reach digest encrypts (close_own id vm)
  forgetting :
      (name : String) (vm : VisitorManager)
      → Reach digest encrypts vm
      → Reach digest encrypts (close_visitors name vm)

listen_visitors-IsSecret :
    (name sk : String) (vm : VisitorManager) → IsSecret vm → IsSecret (listen_visitors name sk vm).1
unfolding listen_visitors
listen_visitors-IsSecret name sk vm h = elim (Option-cases (vm.visitor_listeners name)) [
  | inr (id, found) ↦ rw (found, listen_visitors) h
  | inl missing ↦
      rw (missing, listen_visitors)
        (record {
          same_names = λ n. elim (Bool-cases (str_eq name n)) [
            | inl same ↦ rw same refl
            | inr other ↦ rw other (h.same_names n)
          ];
          made = λ n id. ground (arith, h.made n id);
          apart = λ n m id. ground (
            arith,
            h.apart n m id,
            h.made n id,
            h.made m id,
            str_eq_iff name n,
            str_eq_iff name m,
          );
          room = λ id. elim (Bool-cases (vm.next == id)) [
            | inl same ↦ rw same (omega arith)
            | inr other ↦ rw other (h.room id)
          ];
          keyed = λ n own id found secret. elim (Bool-cases (vm.next == id)) [
            | inl same ↦ rw same tt
            | inr other ↦ elim (Bool-cases (str_eq name n)) [
              | inr differ ↦ rw other (h.keyed n own id (rw differ at found) (rw differ at secret))
              | inl this ↦
                  let taken : some vm.next ≡ some id = rw this at found in
                  let same : vm.next ≡ id = cc in absurd (cc (other, (==_iff vm.next id).1 same))
            ]
          ];
        })
]

close_visitors-IsSecret :
    (name : String) (vm : VisitorManager) → IsSecret vm → IsSecret (close_visitors name vm)
unfolding close_visitors
close_visitors-IsSecret name vm h = record {
  same_names = λ n. elim (Bool-cases (str_eq name n)) [
    | inl same ↦ rw same refl
    | inr other ↦ rw other (h.same_names n)
  ];
  made = λ n id. ground (arith, h.made n id);
  apart = λ n m id. ground (arith, h.apart n m id);
  room = h.room;
  keyed = λ n own id found secret. elim (Bool-cases (str_eq name n)) [
    | inl same ↦ let gone : none ≡ some id = rw same at found in cc
    | inr other ↦ h.keyed n own id (rw other at found) (rw other at secret)
  ];
}

-- What a listener holds after Accept is what it held, without the first.
accept_cases :
    (streams : List Stream) (closed : Bool)
    → ((accept (record { accept_ch = streams; closed = closed })).1.accept_ch ≡ streams)
      ⊎ ((s : Stream) × (streams
            ≡ s ∷ (accept (record { accept_ch = streams; closed = closed })).1.accept_ch))
unfolding accept
accept_cases [] true = inl refl
accept_cases [] false = inl refl
accept_cases (s ∷ more) closed = inr (s, refl)

accept_at-IsSecret : (id : ℕ) (vm : VisitorManager) → IsSecret vm → IsSecret (accept_at id vm).1
unfolding accept_at
accept_at-IsSecret id vm h =
    let l = vm.listeners id in
    let after = (accept l).1 in
    elim (accept_cases l.accept_ch l.closed) [
      | inl same ↦
          set_listener-IsSecret id after vm (rw same (h.room id))
            (λ name sk found secret. rw same (h.keyed name sk id found secret)) h
      | inr (s, one_less) ↦
          set_listener-IsSecret id after vm
            (let count : length l.accept_ch ≡ length (s ∷ after.accept_ch) = ap length one_less in
              omega (arith, count, h.room id))
            (λ name sk found secret. (rw one_less at (h.keyed name sk id found secret)).1) h
    ]

-- However proxies listen and close, and visitors come and are accepted: a name has a listener exactly if it
-- has a secret, two names have different listeners, at most 64 connections wait at one, and those that
-- wait at the listener of a name are encrypted, if at all, with the secret of that name.
pub Reach-IsSecret :
    (digest : String → String) (encrypts : String → Bool) {vm : VisitorManager}
    → Reach digest encrypts vm
    → IsSecret vm
unfolding close_own
Reach-IsSecret digest encrypts start = record {
  same_names = λ name. refl;
  made = λ name id found. cc;
  apart = λ name other id found also. cc;
  room = λ id. omega arith;
  keyed = λ name sk id found secret. cc;
}
Reach-IsSecret digest encrypts (listening name sk vm r) =
    listen_visitors-IsSecret name sk vm (Reach-IsSecret digest encrypts r)
Reach-IsSecret digest encrypts (connecting m conn vm r) =
    new_visitor_conn-IsSecret digest encrypts m conn vm (Reach-IsSecret digest encrypts r)
Reach-IsSecret digest encrypts (accepting id vm r) =
    accept_at-IsSecret id vm (Reach-IsSecret digest encrypts r)
Reach-IsSecret digest encrypts (closing id vm r) =
    let h = Reach-IsSecret digest encrypts r in
    set_listener-IsSecret id (close_channel (vm.listeners id)) vm (h.room id)
      (λ name sk. h.keyed name sk id) h
Reach-IsSecret digest encrypts (forgetting name vm r) =
    close_visitors-IsSecret name vm (Reach-IsSecret digest encrypts r)
