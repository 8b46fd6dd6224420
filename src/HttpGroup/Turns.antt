-- ===== src/HttpGroup/Turns.antt =====
-- The proxies of a group take turns.
use frp.Prelude.{
  ℕ, zero, suc, ◌+◌, ◌%◌, ◌^◌, ◌<◌, ◌≡◌, refl, ◌∙◌, Bool, true, ltb, if◌then◌else◌, String, List,
  [], ◌∷◌, length, get_or, arith, window, count_if, count_turn,
}
use frp.HttpGroup.{HttpGroup, find_func, Served, served_by, served, pick, create_conn}
use frp.HttpGroup.Members.{IsMatched, count_served}

module _ {F : Type 0} where
  -- The answers of some calls of createConn in a row.
  unfoldable pub turns : ℕ → HttpGroup F → List (Served F)
  turns zero g = []
  turns (suc k) g = let (s, g') = create_conn g in s ∷ turns k g'

  pick-served :
      (i : ℕ) (names : List String) (funcs : List (String × F))
      → 0 < length names
      → i < 2 ^ 63
      → pick i names funcs ≡ served (find_func (get_or names (i % length names) "") funcs)
  unfolding pick
  pick-served i [] funcs some_proxy small = absurd (omega arith)
  pick-served i (n ∷ ns) funcs some_proxy small =
      let test : ltb i (2 ^ 63) ≡ true = ground arith in rw test refl

  create_conn-served :
      (g : HttpGroup F)
      → 0 < length g.pxy_names
      → g.index + 1 < 2 ^ 63
      → create_conn g ≡ (
        served
            (find_func (get_or g.pxy_names (suc g.index % length g.pxy_names) "") g.create_funcs),
        record g { index = suc g.index },
      )
  unfolding create_conn
  create_conn-served g some_proxy small =
      let count : (g.index + 1) % 2 ^ 64 ≡ suc g.index = omega arith in
      rw (count, pick-served (suc g.index) g.pxy_names g.create_funcs some_proxy (omega arith)) refl

  count_turns :
      (p : Served F → Bool) (k : ℕ) (g : HttpGroup F)
      → 0 < length g.pxy_names
      → g.index + k < 2 ^ 63
      → count_if p (turns k g)
        ≡ window
            (λ j.
              if p
                (served (find_func (get_or g.pxy_names (j % length g.pxy_names) "") g.create_funcs))
              then 1
              else 0)
            (suc g.index)
            k
  unfolding turns
  count_turns p zero g some_proxy small = refl
  count_turns p (suc k) g some_proxy small =
      let next = record g { index = suc g.index } in
      let rest = count_turns p k next some_proxy (omega arith) in
      rw (create_conn-served g some_proxy (omega arith), rest) refl

  -- If a group has proxies and fewer than 2^63 calls were made, then in as many calls as it has proxies,
  -- from any place on, each of its functions serves once.
  pub turns_fair :
      (p : Served F → Bool) (g : HttpGroup F)
      → IsMatched g
      → 0 < length g.pxy_names
      → g.index + length g.pxy_names < 2 ^ 63
      → count_if p (turns (length g.pxy_names) g) ≡ count_if (λ e. p (served_by e.1)) g.create_funcs
  turns_fair p g m some_proxy small =
      count_turns p (length g.pxy_names) g some_proxy small
      ∙ count_turn (λ name. p (served (find_func name g.create_funcs))) g.pxy_names "" (suc g.index)
      ∙ rw m.names (count_served p g.create_funcs m.distinct)
