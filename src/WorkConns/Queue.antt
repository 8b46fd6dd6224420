-- ===== src/WorkConns/Queue.antt =====
-- The pool hands out the connections that it took, in their order.
use frp.Prelude.{
  ◌-◌, if◌then◌else◌, ◌<◌, ◌&&◌, ◌==◌, Option, none, some, Bool-cases, ℕ, ◌≡◌, refl, ltb, Bool,
  true, false, List, [], ◌∷◌, ◌++◌, length, arith, inl, inr, sym,
}
use frp.WorkConns.Order.{IsInOrder, enter-IsInOrder, hand-IsInOrder, leave-IsInOrder}
use frp.WorkConns.{
  request_one, drain_conn, Pool, Registered, taken, handed, pool_full, recovered,
  register_work_conn, Gotten, got, ctl_closed, already_closed, timeout, waits, get_work_conn,
  wait_work_conn, close_send, close_conns,
}

-- The pool with what went through it: the connections taken, and those handed out or closed.
pub record History : Type 0 where
  pub pool : Pool
  pub accepted : List ℕ
  pub left : List ℕ

abbrev pub note_taken : ℕ → Registered × Pool → History → History
note_taken conn (taken, p) h = record h { pool = p; accepted = h.accepted ++ conn ∷ [] }
note_taken conn (handed, p) h = record h {
  pool = p;
  accepted = h.accepted ++ conn ∷ [];
  left = h.left ++ conn ∷ [];
}
note_taken conn (pool_full, p) h = record h { pool = p }
note_taken conn (recovered, p) h = record h { pool = p }

abbrev pub note_got : Gotten × Pool → History → History
note_got (got conn, p) h = record h { pool = p; left = h.left ++ conn ∷ [] }
note_got (ctl_closed, p) h = record h { pool = p }
note_got (already_closed, p) h = record h { pool = p }
note_got (timeout, p) h = record h { pool = p }
note_got (waits, p) h = record h { pool = p }

abbrev pub note_drained : Option ℕ × Pool → History → History
note_drained (none, p) h = record h { pool = p }
note_drained (some conn, p) h = record h { pool = p; left = h.left ++ conn ∷ [] }

-- Any calls, of any number of users and connections.
pub data Reach (p : Pool) : History → Type 0 where
  start : Reach p (record { pool = p; accepted = []; left = [] })
  registering :
      (conn : ℕ) (h : History)
      → Reach p h
      → Reach p (note_taken conn (register_work_conn conn h.pool) h)
  getting : (h : History) → Reach p h → Reach p (note_got (get_work_conn h.pool) h)
  waiting :
      (h : History) → 0 < h.pool.waiting → Reach p h → Reach p (note_got (wait_work_conn h.pool) h)
  closing_send : (h : History) → Reach p h → Reach p (record h { pool = close_send h.pool })
  closing_conns : (h : History) → Reach p h → Reach p (record h { pool = close_conns h.pool })
  draining : (h : History) → Reach p h → Reach p (note_drained (drain_conn h.pool) h)

abbrev pub IsFifo : ℕ → History → Type 0
IsFifo capacity h = IsInOrder capacity h.accepted h.left h.pool.conns h.pool.capacity

-- A history by its parts.
abbrev history : ℕ → List ℕ → Bool → Bool → ℕ → ℕ → List ℕ → List ℕ → History
history room conns conns_closed send_closed requests in_wait accepted left = record {
  pool = record {
    capacity = room;
    conns = conns;
    conns_closed = conns_closed;
    send_closed = send_closed;
    requests = requests;
    waiting = in_wait;
  };
  accepted = accepted;
  left = left;
}

module _ (capacity room : ℕ) where
  -- A channel without room either hands the connection on or refuses it.
  abbrev at_full : Bool → Pool → Registered × Pool
  at_full test p =
      if test then (handed, request_one (record p { waiting = p.waiting - 1 })) else (pool_full, p)

  hand-IsFifo :
      (conn : ℕ) (conns : List ℕ) (s : Bool) (r w : ℕ) (accepted left : List ℕ)
      → room ≡ 0
      → IsFifo capacity (history room conns false s r w accepted left)
      → IsFifo capacity (
          note_taken conn
            (at_full true (history room conns false s r w accepted left).pool)
            (history room conns false s r w accepted left))
  hand-IsFifo conn (c ∷ conns) s r w accepted left none_fit f =
      absurd (omega (arith, none_fit, f.bounded))
  hand-IsFifo conn [] true r w accepted left none_fit f =
      hand-IsInOrder capacity conn accepted left room f
  hand-IsFifo conn [] false r w accepted left none_fit f =
      hand-IsInOrder capacity conn accepted left room f

  busy-IsFifo :
      (conn : ℕ) (conns : List ℕ) (s : Bool) (r w : ℕ) (accepted left : List ℕ)
      → ltb (length conns) room ≡ false
      → IsFifo capacity (history room conns false s r w accepted left)
      → IsFifo capacity (
          note_taken conn
            (at_full (room == 0 && ltb 0 w) (history room conns false s r w accepted left).pool)
            (history room conns false s r w accepted left))
  busy-IsFifo conn conns s r w accepted left busy f = elim (Bool-cases (room == 0 && ltb 0 w)) [
    | inr none_waits ↦ rw none_waits f
    | inl waited ↦ rw waited (hand-IsFifo conn conns s r w accepted left (ground arith) f)
  ]

  register-IsFifo :
      (conn : ℕ) (conns : List ℕ) (c s : Bool) (r w : ℕ) (accepted left : List ℕ)
      → (h : History) → h ≡ history room conns c s r w accepted left
      → IsFifo capacity h
      → IsFifo capacity (note_taken conn (register_work_conn conn h.pool) h)
  unfolding register_work_conn
  register-IsFifo conn conns true s r w accepted left h e f = rw e (rw e at f)
  register-IsFifo conn conns false s r w accepted left h e f =
      elim (Bool-cases (ltb (length conns) room)) [
        | inl free ↦
            rw (e, free) (enter-IsInOrder capacity conn accepted left conns room free (rw e at f))
        | inr busy ↦ rw (e, busy) (busy-IsFifo conn conns s r w accepted left busy (rw e at f))
      ]

  get-IsFifo :
      (conns : List ℕ) (c s : Bool) (r w : ℕ) (accepted left : List ℕ) (h : History)
      → h ≡ history room conns c s r w accepted left
      → IsFifo capacity h
      → IsFifo capacity (note_got (get_work_conn h.pool) h)
  unfolding get_work_conn
  get-IsFifo [] true s r w accepted left h e f = rw e (rw e at f)
  get-IsFifo [] false true r w accepted left h e f = rw e (rw e at f)
  get-IsFifo [] false false r w accepted left h e f = rw e (rw e at f)
  get-IsFifo (conn ∷ conns) c true r w accepted left h e f =
      rw e (leave-IsInOrder capacity conn accepted left conns room (rw e at f))
  get-IsFifo (conn ∷ conns) c false r w accepted left h e f =
      rw e (leave-IsInOrder capacity conn accepted left conns room (rw e at f))

  wait-IsFifo :
      (conns : List ℕ) (c s : Bool) (r w : ℕ) (accepted left : List ℕ) (h : History)
      → h ≡ history room conns c s r w accepted left
      → IsFifo capacity h
      → IsFifo capacity (note_got (wait_work_conn h.pool) h)
  unfolding wait_work_conn
  wait-IsFifo [] true s r w accepted left h e f = rw e (rw e at f)
  wait-IsFifo [] false s r w accepted left h e f = rw e (rw e at f)
  wait-IsFifo (conn ∷ conns) c true r w accepted left h e f =
      rw e (leave-IsInOrder capacity conn accepted left conns room (rw e at f))
  wait-IsFifo (conn ∷ conns) c false r w accepted left h e f =
      rw e (leave-IsInOrder capacity conn accepted left conns room (rw e at f))

  drain-IsFifo :
      (conns : List ℕ) (c s : Bool) (r w : ℕ) (accepted left : List ℕ) (h : History)
      → h ≡ history room conns c s r w accepted left
      → IsFifo capacity h
      → IsFifo capacity (note_drained (drain_conn h.pool) h)
  unfolding drain_conn
  drain-IsFifo [] c s r w accepted left h e f = rw e (rw e at f)
  drain-IsFifo (conn ∷ conns) c s r w accepted left h e f =
      rw e (leave-IsInOrder capacity conn accepted left conns room (rw e at f))

-- From a control's pool on, whatever calls come and in whatever order, the connections that were taken are
-- those handed out or closed, in the order in which they came, and then those still in the pool. The pool
-- never holds more than its length, which does not change.
pub Reach-IsFifo : (p : Pool) (h : History) → p.conns ≡ [] → Reach p h → IsFifo p.capacity h
unfolding close_send close_conns
Reach-IsFifo p _ empty start = record {
  in_order = sym empty;
  bounded = rw empty (omega arith);
  same_capacity = refl;
}
Reach-IsFifo p _ empty (registering conn h r) =
    register-IsFifo p.capacity h.pool.capacity conn h.pool.conns h.pool.conns_closed
      h.pool.send_closed h.pool.requests h.pool.waiting h.accepted h.left h refl
      (Reach-IsFifo p h empty r)
Reach-IsFifo p _ empty (getting h r) =
    get-IsFifo p.capacity h.pool.capacity h.pool.conns h.pool.conns_closed h.pool.send_closed
      h.pool.requests h.pool.waiting h.accepted h.left h refl (Reach-IsFifo p h empty r)
Reach-IsFifo p _ empty (waiting h some_wait r) =
    wait-IsFifo p.capacity h.pool.capacity h.pool.conns h.pool.conns_closed h.pool.send_closed
      h.pool.requests h.pool.waiting h.accepted h.left h refl (Reach-IsFifo p h empty r)
Reach-IsFifo p _ empty (closing_send h r) = Reach-IsFifo p h empty r
Reach-IsFifo p _ empty (closing_conns h r) = Reach-IsFifo p h empty r
Reach-IsFifo p _ empty (draining h r) =
    drain-IsFifo p.capacity h.pool.capacity h.pool.conns h.pool.conns_closed h.pool.send_closed
      h.pool.requests h.pool.waiting h.accepted h.left h refl (Reach-IsFifo p h empty r)
