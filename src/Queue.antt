-- ===== src/Queue.antt =====
-- ipscanner/engine/queue.go: the bounded queue of scan results, kept in ascending order of RTT.
-- The mutex makes each method atomic, so a run is a sequence of calls.
pub mod Search
pub mod Best
pub mod Order
mod Examples
use vwarp.Prelude.{
  ℕ, zero, suc, ◌+◌, ◌-◌, ◌/◌, Bool, true, false, ◌&&◌, List, [], ◌∷◌, ◌++◌, length, take, drop,
  get_elem?, none, some, ltb, if◌then◌else◌,
}
use vwarp.Prelude.Int.{ℤ, pos, ltb_ℤ}

-- An address and port, with the address as its bytes.
pub record AddrPort : Type 0 where
  pub addr : List ℕ
  pub port : ℕ

-- `RTT` is an elapsed time in nanoseconds. `CreatedAt` is not read by this package.
pub record IpInfo : Type 0 where
  pub addr_port : AddrPort
  pub rtt : ℕ

pub record IpQueue : Type 0 where
  pub queue : List IpInfo
  pub max_queue_size : ℤ

unfoldable pub new_ip_queue : ℤ → IpQueue
new_ip_queue size = record { queue = []; max_queue_size = size }

-- Go's `sort.Search`: the loop `for i < j` over `h := (i + j) / 2`, on fuel.
unfoldable pub search_loop : ℕ → (ℕ → Bool) → ℕ → ℕ → ℕ
search_loop zero f i j = i
search_loop (suc fuel) f i j =
    let h = (i + j) / 2 in
    elim (ltb i j) [
      | false ↦ i
      | true ↦ elim (f h) [ true ↦ search_loop fuel f i h | false ↦ search_loop fuel f (h + 1) j ]
    ]

unfoldable pub search_index : ℕ → (ℕ → Bool) → ℕ
search_index n f = search_loop (suc n) f 0 n

-- The predicate `q.queue[i].RTT > info.RTT`.
unfoldable pub slower_at : List IpInfo → ℕ → ℕ → Bool
slower_at q r i = elim (get_elem? q i) [ none ↦ true | some x ↦ ltb r x.rtt ]

-- append, the overlapping copy one place up, and the write at `index`.
unfoldable pub insert_at : List IpInfo → ℕ → IpInfo → List IpInfo
insert_at q index info = take index q ++ (info ∷ drop index q)

-- The trim behind `if q.maxQueueSize > 0 && len(q.queue) > q.maxQueueSize`.
unfoldable pub trim : ℤ → List IpInfo → List IpInfo
trim limit q =
    if ltb_ℤ (pos 0) limit && ltb_ℤ limit (pos (length q)) then take (length q - 1) q else q

unfoldable pub enqueue : IpQueue → IpInfo → IpQueue
enqueue q info =
    let index = search_index (length q.queue) (slower_at q.queue info.rtt) in
    record q { queue = trim q.max_queue_size (insert_at q.queue index info) }

unfoldable pub size : IpQueue → ℕ
size q = length q.queue

-- The queue after a sequence of calls of `enqueue`.
unfoldable pub enqueue_all : IpQueue → List IpInfo → IpQueue
enqueue_all q [] = q
enqueue_all q (info ∷ rest) = enqueue_all (enqueue q info) rest
