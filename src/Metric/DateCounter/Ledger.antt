-- ===== src/Metric/DateCounter/Ledger.antt =====
-- A counter of the last days against the whole history of what was added, on days of 24 hours.
use frp.Prelude.{
  inr, inl, append-nil, Bool-cases, ℕ, zero, suc, ◌+◌, ◌-◌, ◌*◌, ◌/◌, ◌≤◌, ◌<◌, ◌≡◌, refl, ap, sym,
  ◌∙◌, ◌∷◌, ◌++◌, take, replicate, recent, leb, ◌==◌, arith,
}
use frp.Metric.DateCounter.{DateCounter, shift, rotate, day_seconds}

module _ (f : ℕ → ℕ) where
  -- Days without an entry give zeros.
  recent-zeros :
      (k j n : ℕ)
      → ((d : ℕ) → n + j ≤ d → f d ≡ 0)
      → recent f (k + j) n ≡ replicate k 0 ++ recent f j n
  recent-zeros zero j n quiet = ap (λ r. recent f r n) (omega arith)
  recent-zeros (suc k) j n quiet =
      let rounds : suc k + j ≡ suc (k + j) = omega arith in
      rw rounds
        (rw (quiet (n + (k + j)) (omega arith)) (ap (λ l. 0 ∷ l) (recent-zeros k j n quiet)))

  pub take-recent : (k j n : ℕ) → take j (recent f (k + j) n) ≡ recent f j (n + k)
  take-recent k zero n = refl
  take-recent k (suc j) n =
      let rounds : k + suc j ≡ suc (k + j) = omega arith in
      let day : n + (k + j) ≡ n + k + j = omega arith in
      rw (rounds, day) (ap (λ l. f (n + k + j) ∷ l) (take-recent k j n))

  shift-recent :
      (k j n : ℕ)
      → ((d : ℕ) → n + (k + j) ≤ d → f d ≡ 0)
      → shift k (k + j) (recent f (k + j) n) ≡ recent f (k + j) (n + k)
  unfolding shift
  shift-recent k j n quiet =
      let left : k + j - k ≡ j = omega arith in
      rw (left, take-recent k j n) (sym (recent-zeros k j (n + k) (λ d h. quiet d (omega arith))))

  shift-recent_le :
      (k r n : ℕ)
      → k ≤ r
      → ((d : ℕ) → n + r ≤ d → f d ≡ 0)
      → shift k r (recent f r n) ≡ recent f r (n + k)
  shift-recent_le k r n h quiet =
      let e : k + (r - k) ≡ r = omega arith in
      rw e at (shift-recent k (r - k) n (λ d p. quiet d (omega arith)))

  pub recent-quiet : (r n : ℕ) → ((d : ℕ) → n ≤ d → f d ≡ 0) → replicate r 0 ≡ recent f r n
  recent-quiet r n quiet =
      let e : r + 0 ≡ r = omega arith in
      sym (append-nil (replicate r 0))
      ∙ sym (rw e at (recent-zeros r 0 n (λ d p. quiet d (omega arith))))

-- On day `today`, the counter holds the entries of `f` for its last days, and `f` has none later.
pub record Represents (f : ℕ → ℕ) (today : ℕ) (c : DateCounter) : Type 0 where
  pub first : ℕ
  pub reserved : 0 < c.reserve_days
  pub days : first + c.reserve_days ≡ today + 1
  pub counts : c.counts ≡ recent f c.reserve_days first
  pub updated : c.last_update ≡ today * day_seconds
  pub quiet : (d : ℕ) → today < d → f d ≡ 0

pub rotate-Represents :
    (f : ℕ → ℕ) (today later : ℕ) (c : DateCounter)
    → Represents f today c
    → today ≤ later
    → Represents f later (rotate (later * day_seconds) c)
unfolding rotate
rotate-Represents f today later c r h =
    let elapsed : (later * day_seconds - c.last_update) / day_seconds ≡ later - today =
      omega (arith, r.updated) in
    elim (Bool-cases (later - today == 0)) [
      | inl same_day ↦
          let same : later ≡ today = ground arith in
          rw (elapsed, same_day)
            (record {
              first = r.first;
              reserved = r.reserved;
              days = omega (arith, r.days);
              counts = r.counts;
              updated = refl;
              quiet = λ d p. r.quiet d (omega arith);
            })
      | inr other_day ↦ elim (Bool-cases (leb c.reserve_days (later - today))) [
        | inl long_ago ↦
            let gap : c.reserve_days ≤ later - today = ground arith in
            rw (elapsed, other_day, long_ago)
              (record {
                first = later + 1 - c.reserve_days;
                reserved = r.reserved;
                days = omega arith;
                counts =
                    recent-quiet f c.reserve_days (later + 1 - c.reserve_days)
                      (λ d p. r.quiet d (omega (arith, r.days)));
                updated = refl;
                quiet = λ d p. r.quiet d (omega arith);
              })
        | inr recently ↦
            let gap : later - today < c.reserve_days = ground arith in
            rw (elapsed, other_day, recently)
              (record {
                first = r.first + (later - today);
                reserved = r.reserved;
                days = omega (arith, r.days);
                counts =
                    ap (shift (later - today) c.reserve_days) r.counts
                    ∙ shift-recent_le f (later - today) c.reserve_days r.first (omega arith)
                        (λ d p. r.quiet d (omega (arith, r.days)));
                updated = refl;
                quiet = λ d p. r.quiet d (omega arith);
              })
      ]
    ]
