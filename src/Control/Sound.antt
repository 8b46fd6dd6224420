-- ===== src/Control/Sound.antt =====
-- What holds of the controls and the manager of proxies after any steps.
use frp.Prelude.{
  ℕ, ◌+◌, ◌≤◌, ◌≡◌, refl, String, str_eq_iff, true, false, ltb, ◌==◌, ==_iff, ◌&&◌, Option, none,
  some, ◌∷◌, Outcome, ok, err, arith, Bool-cases, Option-cases, inl, inr, update, update_name,
}
use frp.Control.{
  Proxy, Control, Server, RegisterError, new_server, set_control, is_limited, count_ports,
  release_ports, find_proxy, delete_proxy, add_pxy, reserve_ports, cancel, add_proxy, close_proxy,
  stop_control,
}
use frp.Control.Entries.{
  del_all-has_proxy, has_proxy, total_ports, IsUnique, delete_proxy-absent,
  total_ports-delete_proxy, find_proxy-name, find_proxy-has, has_proxy-delete_proxy,
  delete_proxy-IsUnique,
}

abbrev pub pending_ports : Option Proxy → ℕ
pending_ports none = 0
pending_ports (some p) = p.used_ports_num

module _ (max_ports_per_client : ℕ) where
  -- The count of a control is that of its proxies and of the one it registers, within the limit.
  pub record IsCounted (c : Control) : Type 0 where
    pub counted :
        is_limited max_ports_per_client ≡ true
        → c.ports_used_num ≡ total_ports c.proxies + pending_ports c.pending
    pub within : is_limited max_ports_per_client ≡ true → c.ports_used_num ≤ max_ports_per_client
    pub unique : IsUnique c.proxies

  pub record IsSound (s : Server) : Type 0 where
    pub control : (id : ℕ) → IsCounted (s.controls id)
    pub owned :
        (id : ℕ) (name : String)
        → (s.controls id).closed ≡ false
        → has_proxy name (s.controls id).proxies ≡ true
        → s.pxys name ≡ some id
    pub held :
        (id : ℕ) (name : String)
        → s.pxys name ≡ some id
        → ((s.controls id).closed ≡ false) × (has_proxy name (s.controls id).proxies ≡ true)

  update-IsCounted :
      (id : ℕ) (c : Control) (s : Server)
      → IsCounted c
      → ((j : ℕ) → IsCounted (s.controls j))
      → (j : ℕ) → IsCounted (update s.controls id c j)
  update-IsCounted id c s new all j = elim (Bool-cases (id == j)) [
    | inl same ↦ rw same new
    | inr other ↦ rw other (all j)
  ]

  -- A change of one control that leaves its proxies.
  set_control-IsSound :
      (id : ℕ) (c : Control) (s : Server)
      → c.proxies ≡ (s.controls id).proxies
      → c.closed ≡ (s.controls id).closed
      → IsCounted c
      → IsSound s
      → IsSound (set_control id c s)
  set_control-IsSound id c s proxies closed counted h = record {
    control = update-IsCounted id c s counted h.control;
    owned = λ j name. ground (arith, h.owned j name, ==_iff id j);
    held = λ j name. ground (arith, h.held j name, ==_iff id j);
  }

  reserve_ports-IsSound :
      (id : ℕ) (made : Outcome RegisterError Proxy) (s : Server)
      → (s.controls id).pending ≡ none
      → IsSound s
      → IsSound (reserve_ports max_ports_per_client id made s).1
  unfolding reserve_ports
  reserve_ports-IsSound id (err e) s idle h = h
  reserve_ports-IsSound id (ok p) s idle h =
      let c = s.controls id in
      elim (Bool-cases (
        is_limited max_ports_per_client
        && ltb max_ports_per_client (c.ports_used_num + p.used_ports_num))) [
          | inl over ↦ rw over h
          | inr fits ↦ rw fits (
              set_control-IsSound id
                (record c {
                  ports_used_num =
                      count_ports max_ports_per_client p.used_ports_num c.ports_used_num;
                  pending = some p;
                })
                s refl refl
                (record {
                  counted = λ limited. ground (arith, (h.control id).counted limited);
                  within = λ limited. ground (arith, (h.control id).within limited);
                  unique = (h.control id).unique;
                })
                h)
        ]

  cancel-IsSound :
      (id : ℕ) (p : Proxy) (s : Server)
      → (s.controls id).pending ≡ some p
      → IsSound s
      → IsSound (cancel max_ports_per_client id p s)
  cancel-IsSound id p s pending h =
      let c = s.controls id in
      set_control-IsSound id
        (record c {
          ports_used_num = release_ports max_ports_per_client p.used_ports_num c.ports_used_num;
          pending = none;
        })
        s refl refl
        (record {
          counted = λ limited. ground (arith, (h.control id).counted limited);
          within = λ limited. ground (arith, (h.control id).within limited);
          unique = (h.control id).unique;
        })
        h

  register-IsCounted :
      (p : Proxy) (c : Control)
      → c.pending ≡ some p
      → has_proxy p.name c.proxies ≡ false
      → IsCounted c
      → IsCounted (record c { proxies = p ∷ delete_proxy p.name c.proxies; pending = none })
  register-IsCounted p c pending absent k =
      let same = delete_proxy-absent p.name c.proxies absent in
      rw same (record {
        counted = λ limited. ground (arith, k.counted limited);
        within = k.within;
        unique = (absent, k.unique);
      })

  add_proxy_free-IsSound :
      (id : ℕ) (p : Proxy) (s : Server)
      → (s.controls id).pending ≡ some p
      → (s.controls id).closed ≡ false
      → s.pxys p.name ≡ none
      → IsSound s
      → IsSound (record {
        pxys = update_name s.pxys p.name (some id);
        controls = update s.controls id (record (s.controls id) {
          proxies = p ∷ delete_proxy p.name (s.controls id).proxies;
          pending = none;
        });
      })
  add_proxy_free-IsSound id p s pending opened free h =
      let c = s.controls id in
      let absent : has_proxy p.name c.proxies ≡ false = ground (arith, h.owned id p.name) in
      let same = delete_proxy-absent p.name c.proxies absent in
      record {
        control =
            update-IsCounted id
              (record c { proxies = p ∷ delete_proxy p.name c.proxies; pending = none }) s
              (register-IsCounted p c pending absent (h.control id)) h.control;
        owned =
            λ j name. rw same (ground (arith, h.owned j name, ==_iff id j, str_eq_iff p.name name));
        held =
            λ j name. rw same (ground (arith, h.held j name, ==_iff id j, str_eq_iff p.name name));
      }

  add_proxy-IsSound :
      (id : ℕ) (p : Proxy) (run : Outcome String String) (s : Server)
      → (s.controls id).pending ≡ some p
      → (s.controls id).closed ≡ false
      → IsSound s
      → IsSound (add_proxy max_ports_per_client id p run s).1
  unfolding add_proxy add_pxy
  add_proxy-IsSound id p (err e) s pending opened h = cancel-IsSound id p s pending h
  add_proxy-IsSound id p (ok remote_addr) s pending opened h = elim (Option-cases (s.pxys p.name)) [
    | inr (other, taken) ↦
        let e : add_pxy p.name id s.pxys ≡ none = rw (taken, add_pxy) refl in
        rw (e, add_proxy) (cancel-IsSound id p s pending h)
    | inl free ↦
        let e : add_pxy p.name id s.pxys ≡ some (update_name s.pxys p.name (some id)) =
          rw (free, add_pxy) refl in
        rw (e, add_proxy) (add_proxy_free-IsSound id p s pending opened free h)
  ]

  close_proxy-IsSound :
      (id : ℕ) (name : String) (s : Server)
      → (s.controls id).pending ≡ none
      → (s.controls id).closed ≡ false
      → IsSound s
      → IsSound (close_proxy max_ports_per_client id name s)
  unfolding close_proxy
  close_proxy-IsSound id name s idle opened h =
      let c = s.controls id in
      let k = h.control id in
      elim (Option-cases (find_proxy name c.proxies)) [
        | inl missing ↦ rw (missing, close_proxy) h
        | inr (p, found) ↦
            let named = find_proxy-name name c.proxies p found in
            let sum = total_ports-delete_proxy name c.proxies p found in
            let c' : Control = record c {
              proxies = delete_proxy name c.proxies;
              ports_used_num = release_ports max_ports_per_client p.used_ports_num c.ports_used_num;
            } in
            rw (found, close_proxy, named)
              (record {
                control =
                    update-IsCounted id c' s
                      (record {
                        counted = λ limited. ground (arith, k.counted limited);
                        within = λ limited. ground (arith, k.within limited);
                        unique = delete_proxy-IsUnique name c.proxies k.unique;
                      })
                      h.control;
                owned = λ j other. ground (
                  arith,
                  h.owned j other,
                  h.owned id name,
                  ==_iff id j,
                  str_eq_iff name other,
                  has_proxy-delete_proxy name other c.proxies k.unique,
                  find_proxy-has name c.proxies p found,
                );
                held = λ j other. ground (
                  arith,
                  h.held j other,
                  ==_iff id j,
                  str_eq_iff name other,
                  has_proxy-delete_proxy name other c.proxies k.unique,
                );
              })
      ]

  stop_control-IsSound :
      (id : ℕ) (s : Server)
      → (s.controls id).closed ≡ false
      → IsSound s
      → IsSound (stop_control id s)
  unfolding stop_control
  stop_control-IsSound id s opened h =
      let c = s.controls id in
      let k = h.control id in
      record {
        control =
            update-IsCounted id (record c { closed = true }) s
              (record { counted = k.counted; within = k.within; unique = k.unique }) h.control;
        owned = λ j name. ground (
          arith,
          h.owned j name,
          h.owned id name,
          ==_iff id j,
          del_all-has_proxy c.proxies s.pxys name,
        );
        held = λ j name. ground (
          arith,
          h.held j name,
          h.held id name,
          ==_iff id j,
          del_all-has_proxy c.proxies s.pxys name,
        );
      }

  -- A control works on one message at a time, until it is stopped.
  pub data Reach : Server → Type 0 where
    start : Reach new_server
    reserve :
        (id : ℕ) (made : Outcome RegisterError Proxy) (s : Server)
        → (s.controls id).pending ≡ none
        → (s.controls id).closed ≡ false
        → Reach s
        → Reach (reserve_ports max_ports_per_client id made s).1
    add :
        (id : ℕ) (p : Proxy) (run : Outcome String String) (s : Server)
        → (s.controls id).pending ≡ some p
        → (s.controls id).closed ≡ false
        → Reach s
        → Reach (add_proxy max_ports_per_client id p run s).1
    close :
        (id : ℕ) (name : String) (s : Server)
        → (s.controls id).pending ≡ none
        → (s.controls id).closed ≡ false
        → Reach s
        → Reach (close_proxy max_ports_per_client id name s)
    stop :
        (id : ℕ) (s : Server)
        → (s.controls id).pending ≡ none
        → (s.controls id).closed ≡ false
        → Reach s
        → Reach (stop_control id s)

  -- After any steps of any number of clients, whatever Run answers: a control has each name once, and
  -- where there is a limit, its count of ports is that of its proxies and of the one it registers, and
  -- within the limit; a name stands in the manager under a control exactly if that control is not
  -- stopped and has a proxy of that name.
  pub Reach-IsSound : {s : Server} → Reach s → IsSound s
  Reach-IsSound start = record {
    control =
        λ id. record { counted = λ limited. refl; within = λ limited. omega arith; unique = tt };
    owned = λ id name opened has. cc;
    held = λ id name has. cc;
  }
  Reach-IsSound (reserve id made s idle opened r) =
      reserve_ports-IsSound id made s idle (Reach-IsSound r)
  Reach-IsSound (add id p run s pending opened r) =
      add_proxy-IsSound id p run s pending opened (Reach-IsSound r)
  Reach-IsSound (close id name s idle opened r) =
      close_proxy-IsSound id name s idle opened (Reach-IsSound r)
  Reach-IsSound (stop id s idle opened r) = stop_control-IsSound id s opened (Reach-IsSound r)
