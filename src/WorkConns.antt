-- ===== src/WorkConns.antt =====
-- The pool of work connections of a control: NewControl, Start, RegisterWorkConn, GetWorkConn and the end of
-- stoper in server/control.go. A connection is a number. The channel workConnCh is a queue of bounded
-- length, and the messages to frpc are counted where they ask for a connection. GetWorkConn is in two
-- steps, since it waits where the pool is empty. Whether the channel of messages is closed is part of the
-- state: stoper closes it first, and so is how many calls of GetWorkConn wait. An int is one of 64 bits; up
-- to which size the runtime of Go makes a channel is an argument.
pub mod Order
pub mod Queue
pub mod Sizes
use frp.Metric.Word.{mod64, signed, add_word}
use frp.Prelude.{
  ◌&&◌, ◌==◌, ◌-◌, ℕ, suc, ◌+◌, ltb, Bool, true, false, if◌then◌else◌, Option, none, some, List, [],
  ◌∷◌, ◌++◌, length, ℤ, pos, negsuc, ◌+ℤ◌,
}

pub record Pool : Type 0 where
  pub capacity : ℕ
  pub conns : List ℕ
  pub conns_closed : Bool
  pub send_closed : Bool
  pub requests : ℕ
  pub waiting : ℕ

-- Whether the left is greater.
abbrev pub gt_ℤ : ℤ → ℤ → Bool
gt_ℤ (pos a) (pos b) = ltb b a
gt_ℤ (pos a) (negsuc b) = true
gt_ℤ (negsuc a) (pos b) = false
gt_ℤ (negsuc a) (negsuc b) = ltb a b

-- `poolCount` of NewControl, of two words of 64 bits.
abbrev pub pool_count_of : ℕ → ℕ → ℕ
pool_count_of max_pool_count pool_count =
    if gt_ℤ (signed mod64 pool_count) (signed mod64 max_pool_count)
    then max_pool_count
    else pool_count

-- `make` of a channel: none is its panic at a negative size and at one above the limit of the runtime.
abbrev pub pool_of : ℕ → ℤ → Option Pool
pool_of limit (negsuc n) = none
pool_of limit (pos n) =
    if ltb limit n
    then none
    else some (record {
      capacity = n;
      conns = [];
      conns_closed = false;
      send_closed = false;
      requests = 0;
      waiting = 0;
    })

-- NewControl, of int64 words: the sum wraps around.
unfoldable pub new_pool : ℕ → ℕ → ℕ → Option Pool
new_pool limit max_pool_count pool_count =
    pool_of limit (signed mod64 (add_word mod64 (pool_count_of max_pool_count pool_count) 10))

-- How often the loop of Start runs.
abbrev pub rounds : ℤ → ℕ
rounds (pos n) = n
rounds (negsuc n) = 0

-- Start asks for as many connections as the pool count says.
unfoldable pub start_pool : ℤ → Pool → Pool
start_pool pool_count p = record p { requests = p.requests + rounds pool_count }

-- A message to frpc that asks for a connection, unless the channel is closed.
abbrev pub request_one : Pool → Pool
request_one p = if p.send_closed then p else record p { requests = p.requests + 1 }

-- What RegisterWorkConn does: a send on a closed channel panics, and the function, recovered, returns no
-- error.
pub data Registered : Type 0 where
  taken handed pool_full recovered : Registered

-- RegisterWorkConn. A channel without room, which is empty then, hands the connection to a call that waits, and
-- that call goes on to ask for another one.
unfoldable pub register_work_conn : ℕ → Pool → Registered × Pool
register_work_conn conn p =
    if p.conns_closed
    then (recovered, p)
    else if ltb (length p.conns) p.capacity
    then (taken, record p { conns = p.conns ++ conn ∷ [] })
    else if p.capacity == 0 && ltb 0 p.waiting
    then (handed, request_one (record p { waiting = p.waiting - 1 }))
    else (pool_full, p)

-- What GetWorkConn comes to; `waits` is its second select.
pub data Gotten : Type 0 where
  got : ℕ → Gotten
  ctl_closed already_closed timeout waits : Gotten

-- GetWorkConn up to its second select.
unfoldable pub get_work_conn : Pool → Gotten × Pool
get_work_conn p = elim p.conns [
  | ◌∷◌ conn conns ↦ (got conn, request_one (record p { conns = conns }))
  | [] ↦
      if p.conns_closed
      then (ctl_closed, p)
      else if p.send_closed
      then (already_closed, p)
      else (waits, request_one (record p { waiting = p.waiting + 1 }))
]

-- The second select of a call that waits, at a time when it is ready: a connection, the end of the channel, or
-- the timeout.
unfoldable pub wait_work_conn : Pool → Gotten × Pool
wait_work_conn p =
    let left = record p { waiting = p.waiting - 1 } in
    elim p.conns [
      | ◌∷◌ conn conns ↦ (got conn, request_one (record left { conns = conns }))
      | [] ↦ if p.conns_closed then (ctl_closed, left) else (timeout, left)
    ]

-- stoper closes the channel of messages first.
unfoldable pub close_send : Pool → Pool
close_send p = record p { send_closed = true }

-- Then the channel of connections. A channel that is closed still gives out what is in it.
unfoldable pub close_conns : Pool → Pool
close_conns p = record p { conns_closed = true }

-- A round of the loop that follows, in which a connection is closed; none at the end of the loop.
unfoldable pub drain_conn : Pool → Option ℕ × Pool
drain_conn p = elim p.conns [
  | ◌∷◌ conn conns ↦ (some conn, record p { conns = conns })
  | [] ↦ (none, p)
]
