-- ===== src/Web/Vhost/Calm.antt =====
-- The virtual host pages, with requests that follow one another and with requests that overlap.
use frp.Prelude.{
  ◌||◌, if◌then◌else◌, ◌∙◌, inl, inr, Option-cases, Bool-cases, All-concat, ◌+◌, ◌≤◌, ◌<◌, ◌≡◌,
  refl, ℤ, pos, is_zero, false, List, [], ◌∷◌, ◌++◌, All, map, Option, none, some, arith,
}
use frp.Web.Json.{eq_zero, Field, num, number, Reply, body, rejected}
use frp.Web.Proxy.{ProxyStats}
use frp.Web.Overview.{ServerInfo}
use frp.Web.Pages.{Proxies, push_rows}
use frp.Web.Pages.Runs.{push_rows-map}
use frp.Web.Vhost.{missing, VhostPage, vhost_created, fetch_info, on_info, on_list}

-- A port that was set.
abbrev pub IsPort : Field → Type 0
IsPort v = (n : ℤ) × (v ≡ num n) × (is_zero n ≡ false)

module _ {Row : Type 0} (port_of : ServerInfo → Option ℤ)
    (row : ProxyStats → Field → Field → Row) where
  -- Runs in which the route changes only while no request waits for its reply.
  pub data CalmRun : VhostPage Row → Type 0 where
    start : CalmRun vhost_created
    navigate : {p : VhostPage Row} → p.infos + p.lists ≡ 0 → CalmRun p → CalmRun (fetch_info p)
    info :
        {p : VhostPage Row} (r : Reply ServerInfo)
        → 0 < p.infos
        → CalmRun p
        → CalmRun (on_info port_of r p).0
    list :
        {p : VhostPage Row} (r : Reply Proxies)
        → 0 < p.lists
        → CalmRun p
        → CalmRun (on_list row r p).0

  module _ (P : Row → Type 0)
      (row_has : (s : ProxyStats) (port host : Field) → IsPort port → P (row s port host)) where
    record IsCalm (p : VhostPage Row) : Type 0 where
      one_request : p.infos + p.lists ≤ 1
      list_port : 0 < p.lists → IsPort p.vhost_port
      rows : All P p.proxies

    All-push_rows :
        (port host : Field)
        → IsPort port
        → (rows : List Row) (stats : List ProxyStats) → All P rows
        → All P (push_rows (λ s. row s port host) rows stats)
    unfolding push_rows
    All-push_rows port host h rows [] hs = hs
    All-push_rows port host h rows (s ∷ stats) hs =
        All-push_rows port host h (rows ++ row s port host ∷ []) stats
          (All-concat P rows hs (row_has s port host h))

    info-IsCalm :
        (r : Reply ServerInfo) (p : VhostPage Row)
        → 0 < p.infos
        → IsCalm p
        → IsCalm (on_info port_of r p).0
    unfolding on_info
    info-IsCalm rejected p waits h = record {
      one_request = omega (arith, h.one_request);
      list_port = h.list_port;
      rows = h.rows;
    }
    info-IsCalm (body json) p waits h = elim (Option-cases (port_of json)) [
      | inl absent ↦ rw absent (record {
        one_request = omega (arith, h.one_request);
        list_port = λ l. absurd (omega (arith, h.one_request));
        rows = h.rows;
      })
      | inr (n, given) ↦ elim (Bool-cases (is_zero n)) [
        | inl unset ↦
            rw (given, unset)
              (record {
                one_request = omega (arith, h.one_request);
                list_port = λ l. absurd (omega (arith, h.one_request));
                rows = h.rows;
              })
        | inr set_port ↦
            rw (given, set_port)
              (record {
                one_request = omega (arith, h.one_request);
                list_port = λ l. (n, refl, set_port);
                rows = h.rows;
              })
      ]
    ]

    list-IsCalm :
        (r : Reply Proxies) (p : VhostPage Row)
        → 0 < p.lists
        → IsCalm p
        → IsCalm (on_list row r p).0
    unfolding on_list
    list-IsCalm rejected p waits h = record {
      one_request = omega (arith, h.one_request);
      list_port = λ l. h.list_port waits;
      rows = h.rows;
    }
    list-IsCalm (body none) p waits h = record {
      one_request = omega (arith, h.one_request);
      list_port = λ l. h.list_port waits;
      rows = tt;
    }
    list-IsCalm (body (some stats)) p waits h = record {
      one_request = omega (arith, h.one_request);
      list_port = λ l. h.list_port waits;
      rows = All-push_rows p.vhost_port p.subdomain_host (h.list_port waits) [] stats tt;
    }

    CalmRun-IsCalm : {p : VhostPage Row} → CalmRun p → IsCalm p
    unfolding fetch_info
    CalmRun-IsCalm start = record {
      one_request = omega arith;
      list_port = λ l. absurd (omega arith);
      rows = tt;
    }
    CalmRun-IsCalm (navigate idle run) =
        let h = CalmRun-IsCalm run in
        record { one_request = omega arith; list_port = λ l. absurd (omega arith); rows = h.rows }
    CalmRun-IsCalm (info {p = p} r waits run) = info-IsCalm r p waits (CalmRun-IsCalm run)
    CalmRun-IsCalm (list {p = p} r waits run) = list-IsCalm r p waits (CalmRun-IsCalm run)

    -- While requests follow one another, whatever their replies, every row of the table was made with
    -- a port that is set: what holds of such rows holds of all rows.
    pub CalmRun-All : {p : VhostPage Row} → CalmRun p → All P p.proxies
    CalmRun-All run = (CalmRun-IsCalm run).rows

  on_info-body :
      (json : ServerInfo) (p : VhostPage Row) (o : Option ℤ)
      → port_of json ≡ o
      → ((on_info port_of (body json) p).0.vhost_port ≡ number o)
        × ((on_info port_of (body json) p).0.subdomain_host ≡ json.subdomain_host)
        × ((on_info port_of (body json) p).0.lists
            ≡ (if missing o || eq_zero o then p.lists else p.lists + 1))
  unfolding on_info
  on_info-body json p none e = rw e (refl, refl, refl)
  on_info-body json p (some n) e = elim (Bool-cases (is_zero n)) [
    | inl unset ↦ rw (e, unset) (refl, refl, refl)
    | inr set_port ↦ rw (e, set_port) (refl, refl, refl)
  ]

  on_list-proxies :
      (q : VhostPage Row) (port host : Field) (stats : List ProxyStats)
      → q.vhost_port ≡ port
      → q.subdomain_host ≡ host
      → (on_list row (body (some stats)) q).0.proxies ≡ map (λ s. row s port host) stats
  unfolding on_list
  on_list-proxies q port host stats e f =
      push_rows-map (λ s. row s q.vhost_port q.subdomain_host) [] stats
      ∙ (λ i. map (λ s. row s (e i) (f i)) stats)

  -- The page after two requests that overlap and their replies.
  abbrev pub after_two : ServerInfo → ServerInfo → VhostPage Row → VhostPage Row
  after_two first second p =
      (on_info port_of (body second) (on_info port_of (body first) (fetch_info (fetch_info p))).0).0

  -- Two requests overlap, the port is set in the first reply and is 0 in the second: one list is
  -- asked for, and every row that its reply brings has the port 0.
  pub overlap :
      (first second : ServerInfo) (n : ℤ) (stats : List ProxyStats) (p : VhostPage Row)
      → port_of first ≡ some n
      → is_zero n ≡ false
      → port_of second ≡ some (pos 0)
      → ((after_two first second p).lists ≡ p.lists + 1)
        × ((on_list row (body (some stats)) (after_two first second p)).0.proxies
            ≡ map (λ s. row s (num (pos 0)) second.subdomain_host) stats)
  unfolding fetch_info
  overlap first second n stats p was_set not_zero now_zero =
      let q = (on_info port_of (body first) (fetch_info (fetch_info p))).0 in
      let (_, _, asked) = on_info-body first (fetch_info (fetch_info p)) (some n) was_set in
      let (port, host, kept) = on_info-body second q (some (pos 0)) now_zero in
      (
        kept ∙ asked ∙ rw not_zero,
        on_list-proxies _ (num (pos 0)) second.subdomain_host stats port host,
      )
