-- ===== src/Queue/Best.antt =====
-- What a run of ipscanner/engine/queue.go keeps: the best results seen, in order.
use mathlib.Core.List.{Perm, perm_middle, append-nil}
use mathlib.Core.List.Perm
use vwarp.Prelude.{
  ℕ, zero, suc, ◌-◌, ◌≤◌, ◌<◌, ◌≡◌, refl, ap, List, [], ◌∷◌, ◌++◌, length, take, length-take, arith,
  ltb, Bool-cases, inl, inr,
}
use vwarp.Prelude.Int.{ℤ, pos, negsuc}
use vwarp.Queue.{IpInfo, new_ip_queue, trim, enqueue, enqueue_all}
use vwarp.Queue.Search.{AllFrom, IsSorted, insort, search_index-rank, insert_at-rank}

-- All results in ascending order, those of one RTT in the order of their arrival.
unfoldable pub arrange : List IpInfo → List IpInfo → List IpInfo
arrange q [] = q
arrange q (info ∷ rest) = arrange (insort info q) rest

-- The results that a limit leaves. A limit of 0 or less is no limit.
abbrev pub best : ℤ → List IpInfo → List IpInfo
best (pos zero) q = q
best (pos (suc m)) q = take (suc m) q
best (negsuc m) q = q

insort-AllFrom :
    (q : List IpInfo) (info : IpInfo) (r : ℕ)
    → r ≤ info.rtt
    → AllFrom r q
    → AllFrom r (insort info q)
unfolding insort
insort-AllFrom [] info r h a = omega arith
insort-AllFrom (x ∷ q) info r h a = ground (arith, insort-AllFrom q info r)

AllFrom-le : (q : List IpInfo) (r s : ℕ) → r ≤ s → AllFrom s q → AllFrom r q
AllFrom-le [] r s h a = omega arith
AllFrom-le (x ∷ q) r s h a = (omega arith, AllFrom-le q r s h a.1)

insort-IsSorted : (q : List IpInfo) (info : IpInfo) → IsSorted q → IsSorted (insort info q)
unfolding insort
insort-IsSorted [] info s = omega arith
insort-IsSorted (x ∷ q) info s =
    ground (arith, insort-IsSorted q info, insort-AllFrom q info x.rtt, AllFrom-le q info.rtt x.rtt)

arrange-IsSorted : (xs q : List IpInfo) → IsSorted q → IsSorted (arrange q xs)
unfolding arrange
arrange-IsSorted [] q s = s
arrange-IsSorted (x ∷ xs) q s = arrange-IsSorted xs (insort x q) (insort-IsSorted q x s)

insort-perm : (q : List IpInfo) (info : IpInfo) → Perm (insort info q) (info ∷ q)
unfolding insort
insort-perm [] info = Perm.refl (info ∷ [])
insort-perm (x ∷ q) info = elim (Bool-cases (ltb info.rtt x.rtt)) [
  | inl e ↦ rw e (Perm.refl (info ∷ x ∷ q))
  | inr e ↦ rw e (Perm.trans (Perm.cons x (insort-perm q info)) (Perm.swap info x q))
]

arrange-perm : (xs q : List IpInfo) → Perm (arrange q xs) (xs ++ q)
unfolding arrange
arrange-perm [] q = Perm.refl q
arrange-perm (x ∷ xs) q =
    Perm.trans (arrange-perm xs (insort x q))
      (Perm.trans (Perm.append_left xs (insort-perm q x)) (perm_middle xs q))

take-AllFrom : (m : ℕ) (q : List IpInfo) (r : ℕ) → AllFrom r q → AllFrom r (take m q)
take-AllFrom zero q r a = omega arith
take-AllFrom (suc m) [] r a = omega arith
take-AllFrom (suc m) (x ∷ q) r a = (a.0, take-AllFrom m q r a.1)

take-IsSorted : (m : ℕ) (q : List IpInfo) → IsSorted q → IsSorted (take m q)
take-IsSorted zero q s = omega arith
take-IsSorted (suc m) [] s = omega arith
take-IsSorted (suc m) (x ∷ q) s = (take-AllFrom m q x.rtt s.0, take-IsSorted m q s.1)

take-take_pred : (m : ℕ) (q : List IpInfo) → take m (take (suc m) q) ≡ take m q
take-take_pred zero q = refl
take-take_pred (suc m) [] = refl
take-take_pred (suc m) (x ∷ q) = ap (λ l. x ∷ l) (take-take_pred m q)

take-cons-take : (m : ℕ) (x : IpInfo) (q : List IpInfo) → take m (x ∷ take m q) ≡ take m (x ∷ q)
take-cons-take zero x q = refl
take-cons-take (suc m) x q = ap (λ l. x ∷ l) (take-take_pred m q)

take-insort-take :
    (m : ℕ) (q : List IpInfo) (info : IpInfo)
    → take m (insort info (take m q)) ≡ take m (insort info q)
unfolding insort
take-insort-take zero q info = refl
take-insort-take (suc m) [] info = refl
take-insort-take (suc m) (x ∷ q) info =
    ground (arith, take-insort-take m q info, take-cons-take m x q)

length-insort : (q : List IpInfo) (info : IpInfo) → length (insort info q) ≡ suc (length q)
unfolding insort
length-insort [] info = refl
length-insort (x ∷ q) info = ground (arith, length-insort q info)

take_all : (m : ℕ) (q : List IpInfo) → length q ≤ m → take m q ≡ q
take_all zero [] h = refl
take_all zero (x ∷ q) h = absurd (omega arith)
take_all (suc m) [] h = refl
take_all (suc m) (x ∷ q) h = ap (λ l. x ∷ l) (take_all m q (omega arith))

best-IsSorted : (limit : ℤ) (q : List IpInfo) → IsSorted q → IsSorted (best limit q)
best-IsSorted (pos zero) q s = s
best-IsSorted (pos (suc m)) q s = take-IsSorted (suc m) q s
best-IsSorted (negsuc m) q s = s

trim-eq-best :
    (limit : ℤ) (q : List IpInfo) (info : IpInfo)
    → trim limit (insort info (best limit q)) ≡ best limit (insort info q)
unfolding trim
trim-eq-best (negsuc m) q info = ground arith
trim-eq-best (pos zero) q info = ground arith
trim-eq-best (pos (suc m)) q info = ground (
  arith,
  take_all (suc m) (insort info (take (suc m) q)),
  take-insort-take (suc m) q info,
  length-insort (take (suc m) q) info,
  length-take (suc m) q,
  shorter_by_one,
)
  where
    shorter_by_one :
        suc m < length (insort info (take (suc m) q))
        → length (insort info (take (suc m) q)) - 1 ≡ suc m
    shorter_by_one h = omega (arith, h, length-insort (take (suc m) q) info, length-take (suc m) q)

enqueue-insort :
    (limit : ℤ) (q : List IpInfo) (info : IpInfo)
    → IsSorted q
    → enqueue (record { queue = best limit q; max_queue_size = limit }) info
      ≡ record { queue = best limit (insort info q); max_queue_size = limit }
unfolding enqueue
enqueue-insort limit q info s =
    rw (search_index-rank (best limit q) info.rtt (best-IsSorted limit q s))
      (rw (insert_at-rank (best limit q) info) (rw (trim-eq-best limit q info)))

enqueue_all-arrange :
    (xs : List IpInfo) (limit : ℤ) (q : List IpInfo)
    → IsSorted q
    → enqueue_all (record { queue = best limit q; max_queue_size = limit }) xs
      ≡ record { queue = best limit (arrange q xs); max_queue_size = limit }
unfolding enqueue_all arrange
enqueue_all-arrange [] limit q s = refl
enqueue_all-arrange (x ∷ xs) limit q s =
    rw (enqueue-insort limit q x s)
      (enqueue_all-arrange xs limit (insort x q) (insort-IsSorted q x s))

-- For every limit and every sequence of calls on a fresh queue: the queue holds the first `limit`
-- results (all of them, if the limit is not positive) of a list that is in ascending order of RTT and
-- is a permutation of the results that were put in, and the limit is unchanged.
pub enqueue_all-best :
    (limit : ℤ) (xs : List IpInfo)
    → (enqueue_all (new_ip_queue limit) xs
        ≡ record { queue = best limit (arrange [] xs); max_queue_size = limit })
      × IsSorted (arrange [] xs)
      × Perm (arrange [] xs) xs
unfolding new_ip_queue
enqueue_all-best limit xs =
    (whole limit, arrange-IsSorted xs [] tt, rw append-nil at (arrange-perm xs []))
  where
    whole :
        (limit : ℤ)
        → enqueue_all (record { queue = []; max_queue_size = limit }) xs
          ≡ record { queue = best limit (arrange [] xs); max_queue_size = limit }
    whole (pos zero) = enqueue_all-arrange xs (pos zero) [] tt
    whole (pos (suc m)) = enqueue_all-arrange xs (pos (suc m)) [] tt
    whole (negsuc m) = enqueue_all-arrange xs (negsuc m) [] tt
