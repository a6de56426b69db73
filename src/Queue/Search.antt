-- ===== src/Queue/Search.antt =====
-- The binary search of ipscanner/engine/queue.go, and the insertion at the index that it finds.
use vwarp.Prelude.{
  ℕ, zero, suc, ◌+◌, ◌-◌, ◌/◌, ◌≤◌, ◌<◌, ◌≡◌, refl, Bool, List, [], ◌∷◌, length, arith, ltb, leb,
  if◌then◌else◌,
}
use vwarp.Queue.{IpInfo, search_loop, search_index, slower_at, insert_at}

-- Where a scan from the front would put a result of this RTT: behind all that are not slower.
pub rank : List IpInfo → ℕ → ℕ
rank [] r = 0
rank (x ∷ q) r = if ltb r x.rtt then 0 else suc (rank q r)

-- Stable insertion in ascending order.
unfoldable pub insort : IpInfo → List IpInfo → List IpInfo
insort info [] = info ∷ []
insort info (x ∷ q) = if ltb info.rtt x.rtt then info ∷ x ∷ q else x ∷ insort info q

abbrev pub AllFrom : ℕ → List IpInfo → Type 0
AllFrom r [] = Unit
AllFrom r (x ∷ q) = (r ≤ x.rtt) × AllFrom r q

-- Ascending RTT.
abbrev pub IsSorted : List IpInfo → Type 0
IsSorted [] = Unit
IsSorted (x ∷ q) = AllFrom x.rtt q × IsSorted q

pub rank-le-length : (q : List IpInfo) (r : ℕ) → rank q r ≤ length q
unfolding rank
rank-le-length [] r = omega arith
rank-le-length (x ∷ q) r = ground (arith, rank-le-length q r)

rank-zero : (q : List IpInfo) (r s : ℕ) → r < s → AllFrom s q → rank q r ≡ 0
unfolding rank
rank-zero [] r s h a = refl
rank-zero (x ∷ q) r s h a = ground arith

pub insert_at-rank :
    (q : List IpInfo) (info : IpInfo) → insert_at q (rank q info.rtt) info ≡ insort info q
unfolding insert_at rank insort
insert_at-rank [] info = refl
insert_at-rank (x ∷ q) info = ground (arith, insert_at-rank q info)

-- On a sorted queue the predicate turns from false to true exactly at the rank.
pub slower_at-rank : (q : List IpInfo) (r i : ℕ) → IsSorted q → slower_at q r i ≡ leb (rank q r) i
unfolding slower_at rank
slower_at-rank [] r i s = ground arith
slower_at-rank (x ∷ q) r zero s = ground arith
slower_at-rank (x ∷ q) r (suc i) s = ground (arith, slower_at-rank q r i, rank-zero q r x.rtt)

-- A predicate that turns true at `k` is searched right.
search_loop-eq :
    (fuel : ℕ) (f : ℕ → Bool) (k i j : ℕ)
    → ((m : ℕ) → f m ≡ leb k m)
    → i ≤ k
    → k ≤ j
    → j - i < fuel
    → search_loop fuel f i j ≡ k
unfolding search_loop
search_loop-eq zero f k i j hf lo hi h = absurd (omega arith)
search_loop-eq (suc fuel) f k i j hf lo hi h = ground (
  arith,
  hf ((i + j) / 2),
  search_loop-eq fuel f k i ((i + j) / 2) hf,
  search_loop-eq fuel f k ((i + j) / 2 + 1) j hf,
)

pub search_index-rank :
    (q : List IpInfo) (r : ℕ) → IsSorted q → search_index (length q) (slower_at q r) ≡ rank q r
unfolding search_index
search_index-rank q r s =
    search_loop-eq (suc (length q)) (slower_at q r) (rank q r) 0 (length q)
      (λ m. slower_at-rank q r m s) (omega arith) (rank-le-length q r) (omega arith)
