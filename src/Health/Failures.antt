-- ===== src/Health/Failures.antt =====
-- The failed checks of a monitor are counted from its start on.
use frp.Prelude.{
  ℕ, ◌+◌, ◌≤◌, ◌<◌, ◌^◌, ◌≡◌, refl, ◌∙◌, Bool, true, false, if◌then◌else◌, List, [], ◌∷◌, ◌++◌,
  Bool-cases, inl, inr, arith, ◌&&◌, not,
}
use frp.Metric.Word.{mod64, add_word}
use frp.Health.{
  Monitor, Network, do_check, do_tcp_check, do_http_check, reached, on_check, check_worker,
}

-- The number of these checks that fail.
abbrev pub failures : Monitor → List Network → ℕ
failures m [] = 0
failures m (n ∷ ns) = let rest = failures m ns in if do_check n m then rest else rest + 1

-- What no check changes.
record SameSetup (m m' : Monitor) : Type 0 where
  check_type : m'.check_type ≡ m.check_type
  addr : m'.addr ≡ m.addr
  url : m'.url ≡ m.url
  max_failed_times : m'.max_failed_times ≡ m.max_failed_times
  status_normal_fn : m'.status_normal_fn ≡ m.status_normal_fn
  status_failed_fn : m'.status_failed_fn ≡ m.status_failed_fn

on_check-SameSetup : (ok : Bool) (m : Monitor) → SameSetup m (on_check ok m).0
unfolding on_check
on_check-SameSetup true m = elim (Bool-cases (not m.status_ok && m.status_normal_fn)) [
  | inl e ↦
      rw (e, on_check)
        (record {
          check_type = refl;
          addr = refl;
          url = refl;
          max_failed_times = refl;
          status_normal_fn = refl;
          status_failed_fn = refl;
        })
  | inr e ↦
      rw (e, on_check)
        (record {
          check_type = refl;
          addr = refl;
          url = refl;
          max_failed_times = refl;
          status_normal_fn = refl;
          status_failed_fn = refl;
        })
]
on_check-SameSetup false m =
    elim (Bool-cases (
      m.status_ok
      && reached (add_word mod64 m.failed_times 1) m.max_failed_times
      && m.status_failed_fn)) [
        | inl e ↦
            rw (e, on_check)
              (record {
                check_type = refl;
                addr = refl;
                url = refl;
                max_failed_times = refl;
                status_normal_fn = refl;
                status_failed_fn = refl;
              })
        | inr e ↦
            rw (e, on_check)
              (record {
                check_type = refl;
                addr = refl;
                url = refl;
                max_failed_times = refl;
                status_normal_fn = refl;
                status_failed_fn = refl;
              })
      ]

do_check-SameSetup : (n : Network) (m m' : Monitor) → SameSetup m m' → do_check n m' ≡ do_check n m
unfolding do_check do_tcp_check do_http_check
do_check-SameSetup n m m' s = rw (s.check_type, s.addr, s.url) refl

failures-SameSetup :
    (m m' : Monitor) (ns : List Network) → SameSetup m m' → failures m' ns ≡ failures m ns
failures-SameSetup m m' [] s = refl
failures-SameSetup m m' (n ∷ ns) s =
    rw (do_check-SameSetup n m m' s, failures-SameSetup m m' ns s) refl

failed_times-on_check :
    (ok : Bool) (m : Monitor)
    → m.failed_times + 1 < 2 ^ 63
    → (on_check ok m).0.failed_times ≡ (if ok then m.failed_times else m.failed_times + 1)
unfolding on_check
failed_times-on_check true m h = ground arith
failed_times-on_check false m h = ground arith

-- With both callbacks, the status after a check that succeeds or fails.
status_ok-on_check :
    (ok : Bool) (m : Monitor)
    → m.status_normal_fn ≡ true
    → m.status_failed_fn ≡ true
    → m.failed_times + 1 < 2 ^ 63
    → m.max_failed_times ≤ m.failed_times + 1
    → (on_check ok m).0.status_ok ≡ ok
unfolding on_check
status_ok-on_check true m normal failed bound most = ground arith
status_ok-on_check false m normal failed bound most = ground arith

-- The failures before and after a check add up.
failures-on_check :
    (k : Network) (m : Monitor) (ns : List Network)
    → m.failed_times + 1 < 2 ^ 63
    → (on_check (do_check k m) m).0.failed_times + failures (on_check (do_check k m) m).0 ns
      ≡ m.failed_times + failures m (k ∷ ns)
failures-on_check k m ns bound =
    let s = on_check-SameSetup (do_check k m) m in
    let same = failures-SameSetup m (on_check (do_check k m) m).0 ns s in
    let count = failed_times-on_check (do_check k m) m bound in
    elim (Bool-cases (do_check k m)) [
      | inl test ↦ rw (same, count, test) refl
      | inr test ↦ rw (same, count, test) (omega arith)
    ]

-- For a monitor with both callbacks: once the failed checks since its start, with one more, come to the
-- maximum, and while they are below 2^63, the status after each further check is that check's result.
-- So a single failure then counts as a failed service, also after any number of successes.
pub status_ok-check_worker :
    (ns : List Network) (n : Network) (m : Monitor)
    → m.status_normal_fn ≡ true
    → m.status_failed_fn ≡ true
    → m.failed_times + failures m ns + 1 < 2 ^ 63
    → m.max_failed_times ≤ m.failed_times + failures m ns + 1
    → (check_worker (ns ++ n ∷ []) m).0.status_ok ≡ do_check n m
unfolding check_worker
status_ok-check_worker [] n m normal failed bound most =
    status_ok-on_check (do_check n m) m normal failed (omega arith) (omega arith)
status_ok-check_worker (k ∷ ns) n m normal failed bound most =
    let m' = (on_check (do_check k m) m).0 in
    let s = on_check-SameSetup (do_check k m) m in
    let bound' : m.failed_times + 1 < 2 ^ 63 = omega arith in
    let sum = failures-on_check k m ns bound' in
    status_ok-check_worker ns n m' (s.status_normal_fn ∙ normal) (s.status_failed_fn ∙ failed)
      (rw sum bound) (rw (sum, s.max_failed_times) most)
    ∙ do_check-SameSetup n m m' s
