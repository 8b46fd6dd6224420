-- ===== src/Tests/WorkConns.antt =====
-- Pools of work connections: two taken, one handed out, and the rest closed.
use frp.Metric.Word.{mod64, signed}
use frp.Prelude.{
  ℕ, ◌+ℤ◌, ◌^◌, ◌-◌, ◌+◌, ◌&&◌, ◌||◌, ltb, arith, false, ◌≡◌, ◌↔◌, refl, true, none, [], ◌∷◌, pos,
  negsuc,
}
use frp.WorkConns.{
  drain_conn, Pool, gt_ℤ, new_pool, register_work_conn, get_work_conn, close_send, close_conns,
  recovered, pool_full, handed,
}
use frp.WorkConns.Queue.{
  note_drained, draining, History, start, registering, getting, closing_send, closing_conns,
  note_taken, note_got, IsFifo, Reach-IsFifo,
}
use frp.WorkConns.Sizes.{new_pool-panics}

abbrev empty : Pool
empty = record {
  capacity = 11;
  conns = [];
  conns_closed = false;
  send_closed = false;
  requests = 1;
  waiting = 0;
}

abbrev before : History
before = record { pool = empty; accepted = []; left = [] }

abbrev one : History
one = note_taken 7 (register_work_conn 7 before.pool) before

abbrev two : History
two = note_taken 8 (register_work_conn 8 one.pool) one

abbrev used : History
used = note_got (get_work_conn two.pool) two

abbrev closing : History
closing = record used { pool = close_send used.pool }

abbrev closed : History
closed = record closing { pool = close_conns closing.pool }

abbrev over : History
over = note_drained (drain_conn closed.pool) closed

Reach-IsFifo_example : IsFifo 11 over
Reach-IsFifo_example = Reach-IsFifo empty over refl (
    draining closed (
      closing_conns closing
        (closing_send used (getting two (registering 8 one (registering 7 before start))))))

in_their_order : over.left ≡ 7 ∷ 8 ∷ []
unfolding register_work_conn get_work_conn close_send close_conns drain_conn
in_their_order = refl

-- A connection that comes too late is neither kept nor refused.
late : register_work_conn 9 over.pool ≡ (recovered, over.pool)
unfolding register_work_conn get_work_conn close_send close_conns drain_conn
late = refl

-- A pool of no length, for a login that asks for -10: a call that waits gets the connection.
abbrev no_room : Pool
no_room = record empty { capacity = 0 }

handed_on :
    (register_work_conn 9 no_room ≡ (pool_full, no_room))
    × (register_work_conn 9 (get_work_conn no_room).1 ≡ (handed, record no_room { requests = 3 }))
unfolding register_work_conn get_work_conn
handed_on = (refl, refl)

-- -11, with a runtime that makes channels up to 2^44 elements.
abbrev eleven_fewer : ℕ
eleven_fewer = 2 ^ 64 - 11

new_pool-panics_example : (new_pool (2 ^ 44) 5 eleven_fewer ≡ none) ↔ (
    (gt_ℤ (negsuc 9) (signed mod64 eleven_fewer)
      || (ltb (2 ^ 44) (5 + 10) && gt_ℤ (signed mod64 eleven_fewer +ℤ pos 10) (pos (2 ^ 44))))
    ≡ true)
new_pool-panics_example =
    new_pool-panics (2 ^ 44) 5 eleven_fewer (omega arith) (omega arith) (omega arith)

panics : new_pool (2 ^ 44) 5 eleven_fewer ≡ none
unfolding new_pool signed
panics = refl

-- The sum of ten and the largest int64 is negative.
wraps : new_pool (2 ^ 44) (2 ^ 63 - 1) (2 ^ 63 - 1) ≡ none
unfolding new_pool signed
wraps = refl
