-- ===== src/Statistics/Tracks.antt =====
-- What a run keeps of one proxy: its statistics are there, and its counters hold its traffic.
use frp.Prelude.{
  ℕ, ◌*◌, ◌≤◌, ◌≡◌, refl, sym, ap, ◌∙◌, String, str_eq, str_eq_iff, true, false, some, List,
  Bool-cases, Option-cases, inl, inr,
}
use frp.Metric.DateCounter
use frp.Metric.DateCounter.{DateCounter, day_seconds}
use frp.Metric.DateCounter.Totals.{Entry}
use frp.Statistics.{
  Clock, ProxyStatistics, ServerStatistics, change_proxy, dec_type, new_proxy, proxy_or_fresh,
}
use frp.Statistics.Counted.{Counted, Counted-later, rotate-Counted}

-- The two counters of the statistics of a proxy hold these entries, and its type is this one.
pub record Holds (type : String) (day : ℕ) (ins outs : List Entry) (p : ProxyStatistics)
    : Type 0 where
  pub of_type : p.proxy_type ≡ type
  pub counted_in : Counted ins day p.traffic_in
  pub counted_out : Counted outs day p.traffic_out

pub record Tracks (name type : String) (day : ℕ) (ins outs : List Entry) (m : ServerStatistics)
    : Type 0 where
  pub proxy : ProxyStatistics
  pub found : m.proxy_statistics name ≡ some proxy
  pub holds : Holds type day ins outs proxy

unfoldable pub rotate_both : ℕ → ProxyStatistics → ProxyStatistics
rotate_both now p = record p {
  traffic_in = DateCounter.rotate now p.traffic_in;
  traffic_out = DateCounter.rotate now p.traffic_out;
}

module _ (name type : String) (day : ℕ) where
  pub change_proxy_self :
      (n : String) (change : ProxyStatistics → ProxyStatistics) (m : ServerStatistics)
      (p : ProxyStatistics)
      → str_eq n name ≡ true
      → m.proxy_statistics name ≡ some p
      → (change_proxy n change m).proxy_statistics name ≡ some (change p)
  unfolding change_proxy
  change_proxy_self n change m p test found =
      let e : m.proxy_statistics n ≡ some p =
        ap m.proxy_statistics ((str_eq_iff n name).0 test) ∙ found in
      rw (e, change_proxy, test) refl

  pub change_proxy_other :
      (n : String) (change : ProxyStatistics → ProxyStatistics) (m : ServerStatistics)
      → str_eq n name ≡ false
      → (change_proxy n change m).proxy_statistics name ≡ m.proxy_statistics name
  unfolding change_proxy
  change_proxy_other n change m test = elim (Option-cases (m.proxy_statistics n)) [
    | inl nothing ↦ rw (nothing, change_proxy) refl
    | inr (p, found) ↦ rw (found, change_proxy, test) refl
  ]

  -- A change of a proxy that may be another one.
  pub change_proxy-Tracks :
      (n : String) (change : ProxyStatistics → ProxyStatistics) (ins outs ins' outs' : List Entry)
      (m : ServerStatistics)
      → (n ≡ name
          → (p : ProxyStatistics) → Holds type day ins outs p
          → Holds type day ins' outs' (change p))
      → (str_eq n name ≡ false → (ins' ≡ ins) × (outs' ≡ outs))
      → Tracks name type day ins outs m
      → Tracks name type day ins' outs' (change_proxy n change m)
  change_proxy-Tracks n change ins outs ins' outs' m same other t =
      elim (Bool-cases (str_eq n name)) [
        | inl test ↦ record {
          proxy = change t.proxy;
          found = change_proxy_self n change m t.proxy test t.found;
          holds = same ((str_eq_iff n name).0 test) t.proxy t.holds;
        }
        | inr test ↦
            let (ins_eq, outs_eq) = other test in
            record {
              proxy = t.proxy;
              found = change_proxy_other n change m test ∙ t.found;
              holds = rw (ins_eq, outs_eq) t.holds;
            }
      ]

  -- A change that leaves the traffic as it is.
  pub quiet-Tracks :
      (n : String) (change : ProxyStatistics → ProxyStatistics) (ins outs : List Entry)
      (m : ServerStatistics)
      → ((p : ProxyStatistics) → Holds type day ins outs p → Holds type day ins outs (change p))
      → Tracks name type day ins outs m
      → Tracks name type day ins outs (change_proxy n change m)
  quiet-Tracks n change ins outs m kept t =
      change_proxy-Tracks n change ins outs ins outs m (λ _. kept) (λ _. (refl, refl)) t

  pub rotate_both-Tracks :
      (n : String) (ins outs : List Entry) (m : ServerStatistics)
      → Tracks name type day ins outs m
      → Tracks name type day ins outs (change_proxy n (rotate_both (day * day_seconds)) m)
  unfolding rotate_both
  rotate_both-Tracks n ins outs m t =
      quiet-Tracks n (rotate_both (day * day_seconds)) ins outs m
        (λ p h. record {
          of_type = h.of_type;
          counted_in = rotate-Counted ins day p.traffic_in h.counted_in;
          counted_out = rotate-Counted outs day p.traffic_out h.counted_out;
        })
        t

  pub same-Tracks :
      (ins outs : List Entry) (m m' : ServerStatistics)
      → m'.proxy_statistics name ≡ m.proxy_statistics name
      → Tracks name type day ins outs m
      → Tracks name type day ins outs m'
  same-Tracks ins outs m m' same t = record {
    proxy = t.proxy;
    found = same ∙ t.found;
    holds = t.holds;
  }

  pub dec_type-same :
      (ty : String) (m : ServerStatistics)
      → (dec_type ty m).proxy_statistics name ≡ m.proxy_statistics name
  dec_type-same ty m = elim (Option-cases (m.proxy_type_counts ty)) [
    | inl nothing ↦ rw (nothing, dec_type) refl
    | inr (c, found) ↦ rw (found, dec_type) refl
  ]

  pub new_proxy-Tracks :
      (c : Clock) (n ty : String) (ins outs : List Entry) (m : ServerStatistics)
      → (n ≡ name → ty ≡ type)
      → Tracks name type day ins outs m
      → Tracks name type day ins outs (new_proxy c n ty m)
  unfolding new_proxy
  new_proxy-Tracks c n ty ins outs m kept t = elim (Bool-cases (str_eq n name)) [
    | inl test ↦
        let same_name = (str_eq_iff n name).0 test in
        let e : m.proxy_statistics n ≡ some t.proxy = ap m.proxy_statistics same_name ∙ t.found in
        let typed : str_eq t.proxy.proxy_type ty ≡ true =
          (str_eq_iff t.proxy.proxy_type ty).1 (t.holds.of_type ∙ sym (kept same_name)) in
        record {
          proxy = record t.proxy { last_start_time = some c.now };
          found = rw (test, e, proxy_or_fresh, typed) refl;
          holds = record {
            of_type = t.holds.of_type;
            counted_in = t.holds.counted_in;
            counted_out = t.holds.counted_out;
          };
        }
    | inr test ↦ record { proxy = t.proxy; found = rw test t.found; holds = t.holds }
  ]

  pub Tracks-later :
      (later : ℕ) (ins outs : List Entry) (m : ServerStatistics)
      → day ≤ later
      → Tracks name type day ins outs m
      → Tracks name type later ins outs m
  Tracks-later later ins outs m h t = record {
    proxy = t.proxy;
    found = t.found;
    holds = record {
      of_type = t.holds.of_type;
      counted_in = Counted-later ins day later t.proxy.traffic_in h t.holds.counted_in;
      counted_out = Counted-later outs day later t.proxy.traffic_out h t.holds.counted_out;
    };
  }
