-- ===== src/WorkConns/Order.antt =====
-- The order of what went through a pool.
use frp.Prelude.{
  append-nil, ℕ, ◌≤◌, ◌≡◌, ltb, true, List, [], ◌∷◌, ◌++◌, length, length-append, append_assoc,
  arith, ap, ◌∙◌, sym,
}

-- What the invariant says of the lists and of the length of the channel.
pub record IsInOrder (capacity : ℕ) (accepted left conns : List ℕ) (room : ℕ) : Type 0 where
  pub in_order : accepted ≡ left ++ conns
  pub bounded : length conns ≤ room
  pub same_capacity : room ≡ capacity

pub enter-IsInOrder :
    (capacity conn : ℕ) (accepted left conns : List ℕ) (room : ℕ)
    → ltb (length conns) room ≡ true
    → IsInOrder capacity accepted left conns room
    → IsInOrder capacity (accepted ++ conn ∷ []) left (conns ++ conn ∷ []) room
enter-IsInOrder capacity conn accepted left conns room free f = record {
  in_order = ap (λ l. l ++ conn ∷ []) f.in_order ∙ append_assoc left conns (conn ∷ []);
  bounded = rw (length-append conns (conn ∷ [])) (ground arith);
  same_capacity = f.same_capacity;
}

-- A connection goes past an empty channel.
pub hand-IsInOrder :
    (capacity conn : ℕ) (accepted left : List ℕ) (room : ℕ)
    → IsInOrder capacity accepted left [] room
    → IsInOrder capacity (accepted ++ conn ∷ []) (left ++ conn ∷ []) [] room
hand-IsInOrder capacity conn accepted left room f = record {
  in_order =
      ap (λ l. l ++ conn ∷ []) (f.in_order ∙ append-nil left)
      ∙ sym (append-nil (left ++ conn ∷ []));
  bounded = f.bounded;
  same_capacity = f.same_capacity;
}

-- A connection leaves at the front.
pub leave-IsInOrder :
    (capacity conn : ℕ) (accepted left conns : List ℕ) (room : ℕ)
    → IsInOrder capacity accepted left (conn ∷ conns) room
    → IsInOrder capacity accepted (left ++ conn ∷ []) conns room
leave-IsInOrder capacity conn accepted left conns room f = record {
  in_order = f.in_order ∙ sym (append_assoc left (conn ∷ []) conns);
  bounded = omega (arith, f.bounded);
  same_capacity = f.same_capacity;
}
