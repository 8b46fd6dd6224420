-- ===== src/Web/Pages/Runs.antt =====
-- A table page under any interleaving of route changes and replies.
use frp.Prelude.{
  suc, ℕ, ◌+◌, ◌<◌, ◌≡◌, refl, sym, ◌∙◌, List, [], ◌∷◌, ◌++◌, map, length, append-nil, append_assoc,
  none, some, arith,
}
use frp.Web.Json.{Reply, body, rejected}
use frp.Web.Proxy.{ProxyStats}
use frp.Web.Pages.{Page, Proxies, push_rows, fetch_data, on_proxies, created}

module _ {Row : Type 0} (row : ProxyStats → Row) where
  -- The states that a page can be in after `n` route changes and the given replies, newest first. A
  -- reply comes only to a request that waits for one.
  pub data Run : ℕ → List (Reply Proxies) → Page Row → Type 0 where
    start : Run 0 [] created
    navigate :
        {n : ℕ} {rs : List (Reply Proxies)} {p : Page Row}
        → Run n rs p
        → Run (suc n) rs (fetch_data p)
    answer :
        {n : ℕ} {rs : List (Reply Proxies)} {p : Page Row} (r : Reply Proxies)
        → 0 < p.in_flight
        → Run n rs p
        → Run n (r ∷ rs) (on_proxies row r p).0

  -- The rows of the newest reply that had a body.
  abbrev pub shown : List (Reply Proxies) → List Row
  shown [] = []
  shown (rejected ∷ rs) = shown rs
  shown (body none ∷ rs) = []
  shown (body (some stats) ∷ rs) = map row stats

  pub push_rows-map :
      (rows : List Row) (stats : List ProxyStats) → push_rows row rows stats ≡ rows ++ map row stats
  unfolding push_rows
  push_rows-map rows [] = sym (append-nil rows)
  push_rows-map rows (s ∷ stats) =
      push_rows-map (rows ++ row s ∷ []) stats ∙ append_assoc rows (row s ∷ []) (map row stats)

  proxies-answer :
      (r : Reply Proxies) (rs : List (Reply Proxies)) (p : Page Row)
      → p.proxies ≡ shown rs
      → (on_proxies row r p).0.proxies ≡ shown (r ∷ rs)
  unfolding on_proxies
  proxies-answer rejected rs p h = h
  proxies-answer (body none) rs p h = refl
  proxies-answer (body (some stats)) rs p h = push_rows-map [] stats

  in_flight-answer :
      (r : Reply Proxies) (p : Page Row)
      → 0 < p.in_flight
      → (on_proxies row r p).0.in_flight + 1 ≡ p.in_flight
  unfolding on_proxies
  in_flight-answer rejected p h = omega arith
  in_flight-answer (body none) p h = omega arith
  in_flight-answer (body (some stats)) p h = omega arith

  -- However route changes and replies interleave, the table holds the rows of the newest reply that
  -- had a body (none, if that body had no list), and every request is answered or waits.
  pub Run_lem :
      {n : ℕ} {rs : List (Reply Proxies)} {p : Page Row}
      → Run n rs p
      → (p.proxies ≡ shown rs) × (length rs + p.in_flight ≡ n + 1)
  unfolding fetch_data
  Run_lem start = (refl, omega arith)
  Run_lem (navigate run) = let (rows, requests) = Run_lem run in (rows, omega arith)
  Run_lem (answer {rs = rs} {p = p} r waits run) =
      let (rows, requests) = Run_lem run in
      (proxies-answer r rs p rows, omega (arith, in_flight-answer r p waits))
