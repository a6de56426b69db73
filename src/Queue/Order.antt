-- ===== src/Queue/Order.antt =====
-- The workers of ipscanner/engine/engine.go call `Enqueue` in an order that the scheduler picks: the
-- RTTs that the queue of ipscanner/engine/queue.go ends with do not depend on it.
pub mod Occurrences
use mathlib.Core.List.{Perm, Permᴰ}
use mathlib.Core.Logic.{∥∥₁_elim}
use vwarp.Prelude.{
  ℕ, zero, suc, ◌≡◌, refl, ap, ◌∙◌, sym, List, [], ◌∷◌, map, take, arith, ltb, if◌then◌else◌,
}
use vwarp.Prelude.Int.{ℤ, pos, negsuc}
use vwarp.Queue.{IpInfo, IpQueue, new_ip_queue, enqueue_all}
use vwarp.Queue.Search.{insort}
use vwarp.Queue.Best.{arrange, best, enqueue_all-best}

abbrev pub rtts : List IpInfo → List ℕ
rtts = map (λ x. x.rtt)

-- `insort` on the keys alone.
insert_key : ℕ → List ℕ → List ℕ
insert_key r [] = r ∷ []
insert_key r (x ∷ q) = if ltb r x then r ∷ x ∷ q else x ∷ insert_key r q

insert_key_comm :
    (a b : ℕ) (q : List ℕ) → insert_key a (insert_key b q) ≡ insert_key b (insert_key a q)
unfolding insert_key
insert_key_comm a b [] = ground arith
insert_key_comm a b (x ∷ q) = ground (arith, insert_key_comm a b q)

insert_keys : List ℕ → List ℕ → List ℕ
insert_keys q [] = q
insert_keys q (x ∷ xs) = insert_keys (insert_key x q) xs

rtts-insort : (q : List IpInfo) (x : IpInfo) → rtts (insort x q) ≡ insert_key x.rtt (rtts q)
unfolding insort insert_key
rtts-insort [] x = refl
rtts-insort (y ∷ q) x = ground (arith, rtts-insort q x)

rtts-arrange : (xs q : List IpInfo) → rtts (arrange q xs) ≡ insert_keys (rtts q) (rtts xs)
unfolding arrange insert_keys
rtts-arrange [] q = refl
rtts-arrange (x ∷ xs) q =
    rtts-arrange xs (insort x q) ∙ ap (λ k. insert_keys k (rtts xs)) (rtts-insort q x)

insert_keys-perm :
    {xs ys : List IpInfo}
    → Permᴰ xs ys
    → (q : List ℕ) → insert_keys q (rtts xs) ≡ insert_keys q (rtts ys)
unfolding insert_keys
insert_keys-perm Permᴰ.nil q = refl
insert_keys-perm (Permᴰ.cons {a = a} {b = b} {l₁ = l} {l₂ = m} e p) q =
    insert_keys-perm p (insert_key a.rtt q)
    ∙ ap (λ (x : IpInfo). insert_keys (insert_key x.rtt q) (rtts m)) e
insert_keys-perm (Permᴰ.swap {a = a} {b = b} {a' = a'} {b' = b'} {l = l} e f) q =
    ap (λ k. insert_keys k (rtts l)) (insert_key_comm b.rtt a.rtt q)
    ∙ ap (λ (x : IpInfo). insert_keys (insert_key a.rtt (insert_key x.rtt q)) (rtts l)) f
    ∙ ap (λ (x : IpInfo). insert_keys (insert_key x.rtt (insert_key a'.rtt q)) (rtts l)) e
insert_keys-perm (Permᴰ.trans p r) q = insert_keys-perm p q ∙ insert_keys-perm r q

rtts-best :
    (limit : ℤ) (q r : List IpInfo) → rtts q ≡ rtts r → rtts (best limit q) ≡ rtts (best limit r)
rtts-best (pos zero) q r e = e
rtts-best (pos (suc m)) q r e = map-take (suc m) q ∙ ap (take (suc m)) e ∙ sym (map-take (suc m) r)
  where
    map-take : (n : ℕ) (xs : List IpInfo) → rtts (take n xs) ≡ take n (rtts xs)
    map-take zero xs = refl
    map-take (suc n) [] = refl
    map-take (suc n) (x ∷ xs) = ap (λ l. x.rtt ∷ l) (map-take n xs)
rtts-best (negsuc m) q r e = e

List_ℕ-set : IsSet (List ℕ)
List_ℕ-set = hlevel

-- For every limit: if the same results arrive in two orders, the two queues list the same RTTs.
pub enqueue_all-order :
    (limit : ℤ) (xs ys : List IpInfo)
    → Perm xs ys
    → rtts (enqueue_all (new_ip_queue limit) xs).queue
      ≡ rtts (enqueue_all (new_ip_queue limit) ys).queue
enqueue_all-order limit xs ys p =
    ap (λ (q : IpQueue). rtts q.queue) (enqueue_all-best limit xs).0
    ∙ rtts-best limit (arrange [] xs) (arrange [] ys) (
        ∥∥₁_elim p (List_ℕ-set _ _)
          λ d. rtts-arrange xs [] ∙ insert_keys-perm d [] ∙ sym (rtts-arrange ys []))
    ∙ sym (ap (λ (q : IpQueue). rtts q.queue) (enqueue_all-best limit ys).0)
