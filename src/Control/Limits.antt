-- ===== src/Control/Limits.antt =====
-- What RegisterProxy answers, and that a refusal leaves no trace.
use frp.Prelude.{
  ℕ, ◌+◌, ◌≡◌, refl, ap, String, Bool, true, false, ltb, ==_iff, ◌&&◌, if◌then◌else◌, none, some,
  Outcome, ok, err, arith, Bool-cases, Option-cases, inl, inr, update_name,
}
use frp.Control.{
  Proxy, Control, Server, RegisterError, exceed_max_ports, name_in_use, run_failed, set_control,
  is_limited, count_ports, add_pxy, reserve_ports, cancel, add_proxy, register_from, register_proxy,
}

abbrev pub SameServer : Server → Server → Type 0
SameServer s s' = (s'.pxys ≡ s.pxys) × ((id : ℕ) → s'.controls id ≡ s.controls id)

ok_is_no_err :
    {remote_addr : String} {e : RegisterError}
    → ◌≡◌ {A = Outcome RegisterError String} (ok remote_addr) (err e)
    → ⊥
ok_is_no_err h = cc

module _ (max_ports_per_client : ℕ) where
  -- The state in which Run works.
  abbrev reserved : ℕ → Proxy → Server → Server
  reserved id p s =
      let c = s.controls id in
      set_control id
        (record c {
          ports_used_num = count_ports max_ports_per_client p.used_ports_num c.ports_used_num;
          pending = some p;
        })
        s

  cancel-reserved :
      (id : ℕ) (p : Proxy) (s : Server)
      → (s.controls id).pending ≡ none
      → SameServer s (cancel max_ports_per_client id p (reserved id p s))
  cancel-reserved id p s idle = (refl, λ j. ground (arith, ==_iff id j, ==_iff id id))

  abbrev is_over : Proxy → Control → Bool
  is_over p c =
      is_limited max_ports_per_client
      && ltb max_ports_per_client (c.ports_used_num + p.used_ports_num)

  -- What RegisterProxy answers for a proxy of this name, by what Run answers.
  abbrev pub answer : Proxy → Outcome String String → ℕ → Server → Outcome RegisterError String
  answer p run id s = if is_over p (s.controls id) then err exceed_max_ports else elim run [
    | err e ↦ err (run_failed e)
    | ok remote_addr ↦ elim (s.pxys p.name) [ some other ↦ err name_in_use | none ↦ ok remote_addr ]
  ]

  -- For a proxy that could be made, RegisterProxy refuses one that would exceed the limit of ports, then
  -- one whose Run fails, then one whose name is in use by any client, and gives the address of Run to
  -- any other.
  pub register_proxy-answer :
      (id : ℕ) (p : Proxy) (run : Outcome String String) (s : Server)
      → (register_proxy max_ports_per_client id (ok p) run s).0 ≡ answer p run id s
  unfolding register_proxy reserve_ports add_proxy add_pxy
  register_proxy-answer id p run s = ground arith

  reserve_ports_over :
      (id : ℕ) (p : Proxy) (s : Server)
      → is_over p (s.controls id) ≡ true
      → reserve_ports max_ports_per_client id (ok p) s ≡ (err exceed_max_ports, s)
  unfolding reserve_ports
  reserve_ports_over id p s over = rw over refl

  reserve_ports_fits :
      (id : ℕ) (p : Proxy) (s : Server)
      → is_over p (s.controls id) ≡ false
      → reserve_ports max_ports_per_client id (ok p) s ≡ (ok p, reserved id p s)
  unfolding reserve_ports
  reserve_ports_fits id p s fits = rw fits refl

  add_proxy_refused :
      (id : ℕ) (p : Proxy) (run : Outcome String String) (s : Server) (e : RegisterError)
      → (s.controls id).pending ≡ none
      → (add_proxy max_ports_per_client id p run (reserved id p s)).0 ≡ err e
      → SameServer s (add_proxy max_ports_per_client id p run (reserved id p s)).1
  unfolding add_proxy add_pxy
  add_proxy_refused id p (err m) s e idle failed = cancel-reserved id p s idle
  add_proxy_refused id p (ok remote_addr) s e idle failed = elim (Option-cases (s.pxys p.name)) [
    | inl free ↦
        let r : add_pxy p.name id s.pxys ≡ some (update_name s.pxys p.name (some id)) =
          rw (free, add_pxy) refl in
        absurd (ok_is_no_err (rw (r, add_proxy) at failed))
    | inr (other, taken) ↦
        let r : add_pxy p.name id s.pxys ≡ none = rw (taken, add_pxy) refl in
        rw (r, add_proxy) (cancel-reserved id p s idle)
  ]

  register_proxy_over :
      (id : ℕ) (p : Proxy) (run : Outcome String String) (s : Server)
      → is_over p (s.controls id) ≡ true
      → register_proxy max_ports_per_client id (ok p) run s ≡ (err exceed_max_ports, s)
  unfolding register_proxy
  register_proxy_over id p run s over =
      ap (register_from max_ports_per_client id run) (reserve_ports_over id p s over)

  register_proxy_fits :
      (id : ℕ) (p : Proxy) (run : Outcome String String) (s : Server)
      → is_over p (s.controls id) ≡ false
      → register_proxy max_ports_per_client id (ok p) run s
        ≡ add_proxy max_ports_per_client id p run (reserved id p s)
  unfolding register_proxy
  register_proxy_fits id p run s fits =
      ap (register_from max_ports_per_client id run) (reserve_ports_fits id p s fits)

  made_refused :
      (id : ℕ) (p : Proxy) (run : Outcome String String) (s : Server) (e : RegisterError)
      → (s.controls id).pending ≡ none
      → (register_proxy max_ports_per_client id (ok p) run s).0 ≡ err e
      → SameServer s (register_proxy max_ports_per_client id (ok p) run s).1
  made_refused id p run s e idle failed = elim (Bool-cases (is_over p (s.controls id))) [
    | inl over ↦ rw (register_proxy_over id p run s over) (refl, λ j. refl)
    | inr fits ↦
        let r = register_proxy_fits id p run s fits in
        rw r (add_proxy_refused id p run s e idle (rw r at failed))
  ]

  -- A registration that fails, at whatever point, leaves the manager and every control as they were, the
  -- count of ports included.
  pub register_proxy_refused :
      (id : ℕ) (made : Outcome RegisterError Proxy) (run : Outcome String String) (s : Server)
      (e : RegisterError)
      → (s.controls id).pending ≡ none
      → (register_proxy max_ports_per_client id made run s).0 ≡ err e
      → SameServer s (register_proxy max_ports_per_client id made run s).1
  unfolding register_proxy reserve_ports
  register_proxy_refused id (err m) run s e idle failed = (refl, λ j. refl)
  register_proxy_refused id (ok p) run s e idle failed = made_refused id p run s e idle failed
