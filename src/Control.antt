-- ===== src/Control.antt =====
-- server/control.go and the Manager of server/proxy/proxy.go: the controls of frps, one to a client, that
-- register proxies and close them, and the manager of all proxies by name. A control is a number, and
-- the manager holds the control whose proxy stands under a name. What a message makes of a proxy, and
-- what Run of that proxy answers, are arguments. RegisterProxy is in two steps, since other controls go
-- on while Run listens. The number of ports used is Go's int; Control/Sound shows that its subtractions
-- never go below 0. Connections, channels and server plugins are left out.
pub mod Entries
pub mod Sound
pub mod Limits
use frp.Prelude.{
  ℕ, ◌+◌, ◌-◌, String, str_eq, Bool, true, false, ◌&&◌, ltb, ◌==◌, if◌then◌else◌, Option, none,
  some, List, [], ◌∷◌, Outcome, ok, err, update, update_name,
}

-- What RegisterProxy returns instead of an address.
pub data RegisterError : Type 0 where
  invalid_proxy exceed_max_ports name_in_use : RegisterError
  run_failed : String → RegisterError

pub record Proxy : Type 0 where
  pub name : String
  pub used_ports_num : ℕ

-- `pending` is the proxy that RegisterProxy works on between its two steps.
pub record Control : Type 0 where
  pub proxies : List Proxy
  pub ports_used_num : ℕ
  pub pending : Option Proxy
  pub closed : Bool

pub record Server : Type 0 where
  pub pxys : String → Option ℕ
  pub controls : ℕ → Control

abbrev pub new_control : Control
new_control = record { proxies = []; ports_used_num = 0; pending = none; closed = false }

abbrev pub new_server : Server
new_server = record { pxys = λ name. none; controls = λ id. new_control }

abbrev pub find_proxy : String → List Proxy → Option Proxy
find_proxy name [] = none
find_proxy name (p ∷ ps) = if str_eq p.name name then some p else find_proxy name ps

-- `delete(ctl.proxies, name)`; a name stands there once.
abbrev pub delete_proxy : String → List Proxy → List Proxy
delete_proxy name [] = []
delete_proxy name (p ∷ ps) =
    let rest = delete_proxy name ps in if str_eq p.name name then ps else p ∷ rest

-- Manager.Add
unfoldable pub add_pxy : String → ℕ → (String → Option ℕ) → Option (String → Option ℕ)
add_pxy name id pxys = elim (pxys name) [
  | some other ↦ none
  | none ↦ some (update_name pxys name (some id))
]

-- Manager.Del
abbrev pub del_pxy : String → (String → Option ℕ) → String → Option ℕ
del_pxy name pxys = update_name pxys name none

abbrev pub set_control : ℕ → Control → Server → Server
set_control id c s = record s { controls = update s.controls id c }

module _ (max_ports_per_client : ℕ) where
  abbrev pub is_limited : Bool
  is_limited = ltb 0 max_ports_per_client

  -- The count after `n` more ports, and after `n` fewer, if there is a limit.
  abbrev pub count_ports : ℕ → ℕ → ℕ
  count_ports n used = if is_limited then used + n else used

  abbrev pub release_ports : ℕ → ℕ → ℕ
  release_ports n used = if is_limited then used - n else used

  -- RegisterProxy up to Run.
  unfoldable pub reserve_ports :
      ℕ → Outcome RegisterError Proxy → Server → Outcome RegisterError Proxy × Server
  reserve_ports id (err e) s = (err e, s)
  reserve_ports id (ok p) s =
      let c = s.controls id in
      if is_limited && ltb max_ports_per_client (c.ports_used_num + p.used_ports_num)
      then (err exceed_max_ports, s)
      else (
        ok p,
        set_control id
            (record c {
              ports_used_num = count_ports p.used_ports_num c.ports_used_num;
              pending = some p;
            })
            s,
      )

  -- The end of a RegisterProxy that fails after its ports were counted.
  abbrev pub cancel : ℕ → Proxy → Server → Server
  cancel id p s =
      let c = s.controls id in
      set_control id
        (record c {
          ports_used_num = release_ports p.used_ports_num c.ports_used_num;
          pending = none;
        })
        s

  -- RegisterProxy from Run on, which answers `run`.
  unfoldable pub add_proxy :
      ℕ → Proxy → Outcome String String → Server → Outcome RegisterError String × Server
  unfolding add_pxy
  add_proxy id p (err e) s = (err (run_failed e), cancel id p s)
  add_proxy id p (ok remote_addr) s = elim (add_pxy p.name id s.pxys) [
    | none ↦ (err name_in_use, cancel id p s)
    | some pxys ↦
        let c = s.controls id in
        (
          ok remote_addr,
          record {
            pxys = pxys;
            controls =
                update s.controls id
                  (record c { proxies = p ∷ delete_proxy p.name c.proxies; pending = none });
          },
        )
  ]

  abbrev pub register_from :
      ℕ
      → Outcome String String
      → Outcome RegisterError Proxy × Server
      → Outcome RegisterError String × Server
  register_from id run (err e, s) = (err e, s)
  register_from id run (ok p, s) = add_proxy id p run s

  -- RegisterProxy
  unfoldable pub register_proxy :
      ℕ
      → Outcome RegisterError Proxy
      → Outcome String String
      → Server
      → Outcome RegisterError String × Server
  unfolding reserve_ports add_proxy
  register_proxy id made run s = register_from id run (reserve_ports id made s)

  -- CloseProxy
  unfoldable pub close_proxy : ℕ → String → Server → Server
  close_proxy id name s = elim (find_proxy name (s.controls id).proxies) [
    | none ↦ s
    | some p ↦
        let c = s.controls id in
        record {
          pxys = del_pxy p.name s.pxys;
          controls = update s.controls id (record c {
            proxies = delete_proxy name c.proxies;
            ports_used_num = release_ports p.used_ports_num c.ports_used_num;
          });
        }
  ]

-- The loop of stoper over the proxies of a control.
abbrev pub del_all : List Proxy → (String → Option ℕ) → String → Option ℕ
del_all [] pxys = pxys
del_all (p ∷ ps) pxys = del_all ps (del_pxy p.name pxys)

-- stoper, which runs once the manager of the control has ended; what is left of the control is not
-- used again.
unfoldable pub stop_control : ℕ → Server → Server
stop_control id s =
    let c = s.controls id in
    record {
      pxys = del_all c.proxies s.pxys;
      controls = update s.controls id (record c { closed = true });
    }
