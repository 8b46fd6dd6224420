-- ===== src/Routing/Order.antt =====
-- Of two prefixes of one path, the one that is not less is the longer.
use frp.Prelude.{◌≤◌, ◌≡◌, refl, true, false, [], ◌∷◌, length, arith}
use frp.Routing.{Bytes, less, has_prefix}

pub prefix_le :
    (path a b : Bytes)
    → has_prefix path a ≡ true
    → has_prefix path b ≡ true
    → less a b ≡ false
    → length b ≤ length a
unfolding has_prefix less
prefix_le path a [] pa pb h = omega arith
prefix_le path [] (y ∷ b) pa pb h = cc
prefix_le [] (x ∷ a) (y ∷ b) pa pb h = cc
prefix_le (c ∷ path) (x ∷ a) (y ∷ b) pa pb h = ground (arith, prefix_le path a b)

pub less_trans_false : (a b c : Bytes) → less a b ≡ false → less b c ≡ false → less a c ≡ false
unfolding less
less_trans_false a [] [] h k = h
less_trans_false a [] (z ∷ c) h k = cc
less_trans_false [] (y ∷ b) c h k = cc
less_trans_false (x ∷ a) (y ∷ b) [] h k = refl
less_trans_false (x ∷ a) (y ∷ b) (z ∷ c) h k = ground (arith, less_trans_false a b c)

pub less_asymm : (a b : Bytes) → less a b ≡ true → less b a ≡ false
unfolding less
less_asymm [] [] h = cc
less_asymm [] (y ∷ b) h = refl
less_asymm (x ∷ a) [] h = cc
less_asymm (x ∷ a) (y ∷ b) h = ground (arith, less_asymm a b)
