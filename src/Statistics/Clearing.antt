-- ===== src/Statistics/Clearing.antt =====
-- What the clearing of old entries leaves.
use frp.Prelude.{
  ℕ, ◌+◌, ◌-◌, ◌*◌, ◌≤◌, ◌≡◌, refl, ◌∙◌, true, false, ltb, if◌then◌else◌, String, str_eq,
  str_eq_refl, Option, none, some, Bool-cases, Option-cases, inl, inr, arith,
}
use frp.Statistics.{
  Clock, ProxyStatistics, ServerStatistics, new_proxy, close_proxy, dec_type, is_useless,
  unless_useless, clear_useless_info, proxy_or_fresh,
}
use frp.Statistics.Tracks.{change_proxy_self, dec_type-same}

-- The proxy was not closed after this time.
abbrev pub ClosedBy : ℕ → Option ProxyStatistics → Type 0
ClosedBy now none = Unit
ClosedBy now (some p) = (closed : ℕ) → p.last_close_time ≡ some closed → closed ≤ now

started-kept :
    (now later : ℕ) (p : ProxyStatistics)
    → ClosedBy now (some p)
    → unless_useless later (some (record p { last_start_time = some now }))
      ≡ some (record p { last_start_time = some now })
unfolding is_useless
started-kept now later p closed_by = elim (Option-cases p.last_close_time) [
  | inl nothing ↦ rw (nothing, is_useless) refl
  | inr (closed, found) ↦
      let h = closed_by closed found in
      let test : ltb now closed ≡ false = ground arith in rw (found, is_useless, test) refl
]

pub proxy_or_fresh-ClosedBy :
    (t : Clock) (name type : String) (o : Option ProxyStatistics)
    → ClosedBy t.now o
    → ClosedBy t.now (some (proxy_or_fresh t name type o))
proxy_or_fresh-ClosedBy t name type none h = λ closed e. cc
proxy_or_fresh-ClosedBy t name type (some p) h = elim (Bool-cases (str_eq p.proxy_type type)) [
  | inl test ↦ rw (test, proxy_or_fresh) h
  | inr test ↦ rw (test, proxy_or_fresh) (λ closed e. cc)
]

-- A proxy that is opened at a time not before any time it was closed is left by a clearing that comes next.
pub clear_useless_info-new_proxy :
    (t : Clock) (name type : String) (later : ℕ) (m : ServerStatistics)
    → ClosedBy t.now (m.proxy_statistics name)
    → (clear_useless_info later (new_proxy t name type m)).proxy_statistics name
      ≡ (new_proxy t name type m).proxy_statistics name
unfolding clear_useless_info new_proxy
clear_useless_info-new_proxy t name type later m closed_by = rw (str_eq_refl name) (
    started-kept t.now later (proxy_or_fresh t name type (m.proxy_statistics name))
      (proxy_or_fresh-ClosedBy t name type (m.proxy_statistics name) closed_by))

closed-cleared :
    (now later started : ℕ) (p : ProxyStatistics)
    → p.last_start_time ≡ some started
    → started + 1 ≤ now
    → unless_useless later (some (record p { last_close_time = some now })) ≡ (
        if ltb (7 * 24 * 3600) (later - now)
        then none
        else some (record p { last_close_time = some now }))
unfolding is_useless
closed-cleared now later started p was_started before =
    let test : ltb started now ≡ true = ground arith in rw (is_useless, was_started, test) refl

-- After a proxy that was opened is closed at a later time, a clearing removes it if it runs more than
-- seven days after that, and leaves what CloseProxy left otherwise.
pub clear_useless_info-close_proxy :
    (t : Clock) (name type : String) (later : ℕ) (m : ServerStatistics) (p : ProxyStatistics)
    (started : ℕ)
    → m.proxy_statistics name ≡ some p
    → p.last_start_time ≡ some started
    → started + 1 ≤ t.now
    → (clear_useless_info later (close_proxy t name type m)).proxy_statistics name ≡ (
        if ltb (7 * 24 * 3600) (later - t.now)
        then none
        else (close_proxy t name type m).proxy_statistics name)
unfolding clear_useless_info close_proxy
clear_useless_info-close_proxy t name type later m p started found was_started before =
    let closed =
      change_proxy_self name type 0 name (λ q. record q { last_close_time = some t.now })
        (dec_type type m) p (str_eq_refl name) (dec_type-same name type 0 type m ∙ found) in
    rw closed (closed-cleared t.now later started p was_started before)
