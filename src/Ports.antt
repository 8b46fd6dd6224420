-- ===== src/Ports.antt =====
-- Manager of server/ports/ports.go: the public ports that proxies acquire and release. The maps are
-- functions from their keys. A `*PortCtx` is an address of `contexts`, because Acquire puts one
-- context into two maps and Release changes it through one of them. What the operating system and
-- Go's map iteration decide enters as arguments: whether a port can be listened on (`available`), and
-- the order in which a loop meets the free ports (`order`). The mutex makes each method one step.
-- Times are in seconds.
pub mod Consistent
pub mod Acquire
pub mod Reuse
use frp.Prelude.{
  update, update_name, ℕ, zero, suc, ◌+◌, ◌-◌, ◌*◌, String, str_eq, Bool, true, false, ◌&&◌, leb,
  ltb, ◌==◌, if◌then◌else◌, Option, none, some, List, [], ◌∷◌, Outcome, ok, err,
}

pub data PortError : Type 0 where
  port_already_used port_not_allowed port_unavailable no_available_port : PortError

pub record PortCtx : Type 0 where
  pub proxy_name : String
  pub port : ℕ
  pub closed : Bool
  pub update_time : ℕ

pub record Manager : Type 0 where
  pub reserved_ports : String → Option ℕ
  pub used_ports : ℕ → Option ℕ
  pub free_ports : ℕ → Bool
  pub contexts : ℕ → PortCtx
  pub next : ℕ

abbrev pub min_port : ℕ
min_port = 1

abbrev pub max_port : ℕ
max_port = 65535

abbrev pub max_port_reserved_duration : ℕ
max_port_reserved_duration = 24 * 3600

unfoldable pub contains : List ℕ → ℕ → Bool
contains [] p = false
contains (q ∷ ports) p = if q == p then true else contains ports p

-- The ports that the configuration allows: all if it names none.
unfoldable pub allowed_ports : List ℕ → ℕ → Bool
unfolding contains
allowed_ports [] p = leb min_port p && leb p max_port
allowed_ports (q ∷ ports) p = contains (q ∷ ports) p

unfoldable pub new_manager : List ℕ → Manager
unfolding allowed_ports
new_manager allow = record {
  reserved_ports = λ name. none;
  used_ports = λ port. none;
  free_ports = allowed_ports allow;
  contexts = λ id. record { proxy_name = ""; port = 0; closed = false; update_time = 0 };
  next = 0;
}

-- The three writes of Acquire with the new context, whose port is set when the method returns.
unfoldable pub take_port : ℕ → String → ℕ → Manager → Manager
take_port now name port pm = record {
  reserved_ports = update_name pm.reserved_ports name (some pm.next);
  used_ports = update pm.used_ports port (some pm.next);
  free_ports = update pm.free_ports port false;
  contexts =
      update pm.contexts pm.next
        (record { proxy_name = name; port = port; closed = false; update_time = now });
  next = pm.next + 1;
}

-- The first port that is available among the first `tries` of the loop.
unfoldable pub try_ports : ℕ → (ℕ → Bool) → List ℕ → Option ℕ
try_ports zero available order = none
try_ports (suc tries) available [] = none
try_ports (suc tries) available (k ∷ order) =
    let rest = try_ports tries available order in if available k then some k else rest

abbrev pub max_try_times : ℕ
max_try_times = 5

-- A port of 0 counts as none found, after the writes.
abbrev pub random_result : ℕ → Outcome PortError ℕ
random_result port = if port == 0 then err no_available_port else ok port

unfoldable pub acquire_random :
    (ℕ → Bool) → List ℕ → ℕ → String → Manager → Outcome PortError ℕ × Manager
unfolding try_ports take_port
acquire_random available order now name pm = elim (try_ports max_try_times available order) [
  | none ↦ (err no_available_port, pm)
  | some port ↦ (random_result port, take_port now name port pm)
]

-- With the port 0: the port reserved for the name, if there is one and it is available, else any.
unfoldable pub acquire_any :
    (ℕ → Bool) → List ℕ → ℕ → String → Manager → Outcome PortError ℕ × Manager
unfolding acquire_random take_port
acquire_any available order now name pm = elim (pm.reserved_ports name) [
  | none ↦ acquire_random available order now name pm
  | some id ↦
      let port = (pm.contexts id).port in
      if available port
      then (ok port, take_port now name port pm)
      else acquire_random available order now name pm
]

unfoldable pub acquire_specified :
    (ℕ → Bool) → ℕ → String → ℕ → Manager → Outcome PortError ℕ × Manager
unfolding take_port
acquire_specified available now name port pm =
    if pm.free_ports port
    then (if available port
        then (ok port, take_port now name port pm)
        else (err port_unavailable, pm))
    else elim (pm.used_ports port) [
      | some id ↦ (err port_already_used, pm)
      | none ↦ (err port_not_allowed, pm)
    ]

-- Acquire
unfoldable pub acquire :
    (ℕ → Bool) → List ℕ → ℕ → String → ℕ → Manager → Outcome PortError ℕ × Manager
unfolding acquire_any acquire_specified
acquire available order now name port pm =
    if port == 0
    then acquire_any available order now name pm
    else acquire_specified available now name port pm

-- Release
unfoldable pub release : ℕ → ℕ → Manager → Manager
release now port pm = elim (pm.used_ports port) [
  | none ↦ pm
  | some id ↦ record pm {
    free_ports = update pm.free_ports port true;
    used_ports = update pm.used_ports port none;
    contexts = update pm.contexts id (record (pm.contexts id) { closed = true; update_time = now });
  }
]

abbrev pub is_stale : ℕ → PortCtx → Bool
is_stale now ctx = ctx.closed && ltb max_port_reserved_duration (now - ctx.update_time)

-- One round of cleanReservedPortsWorker.
unfoldable pub clean_reserved_ports : ℕ → Manager → Manager
clean_reserved_ports now pm = record pm {
  reserved_ports = λ name. elim (pm.reserved_ports name) [
    | none ↦ none
    | some id ↦ if is_stale now (pm.contexts id) then none else some id
  ];
}
