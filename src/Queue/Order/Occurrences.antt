-- ===== src/Queue/Order/Occurrences.antt =====
-- Two runs of the queue of ipscanner/engine/queue.go that get every RTT equally often.
use vwarp.Prelude.{ℕ, ◌+◌, ◌<◌, ◌≡◌, refl, ap, ◌∙◌, sym, List, [], ◌∷◌, arith, ◌==◌, if◌then◌else◌}
use vwarp.Prelude.Int.{ℤ}
use vwarp.Queue.{IpInfo, IpQueue, new_ip_queue, enqueue_all}
use vwarp.Queue.Best.{arrange, enqueue_all-best}
use vwarp.Queue.Order.{rtts, insert_key, insert_key_comm, insert_keys, rtts-arrange, rtts-best}

unfoldable pub occurrences : ℕ → List ℕ → ℕ
occurrences k [] = 0
occurrences k (x ∷ l) = (if x == k then 1 else 0) + occurrences k l

remove : ℕ → List ℕ → List ℕ
remove k [] = []
remove k (x ∷ l) = if x == k then l else x ∷ remove k l

occurrences-remove :
    (k j : ℕ)
    → (l : List ℕ) → 0 < occurrences k l
    → occurrences j l ≡ (if k == j then 1 else 0) + occurrences j (remove k l)
unfolding remove occurrences
occurrences-remove k j [] h = ground arith
occurrences-remove k j (x ∷ l) h = ground (arith, occurrences-remove k j l)

insert_keys-remove :
    (k : ℕ)
    → (l q : List ℕ) → 0 < occurrences k l
    → insert_keys q l ≡ insert_keys (insert_key k q) (remove k l)
unfolding insert_keys remove occurrences
insert_keys-remove k [] q h = ground arith
insert_keys-remove k (x ∷ l) q h =
    ground (arith, insert_keys-remove k l (insert_key x q), insert_key_comm k x q)

insert_keys-occurrences :
    (xs ys q : List ℕ)
    → ((k : ℕ) → occurrences k xs ≡ occurrences k ys)
    → insert_keys q xs ≡ insert_keys q ys
unfolding insert_keys occurrences
insert_keys-occurrences [] [] q h = refl
insert_keys-occurrences [] (y ∷ ys) q h = ground (arith, h y)
insert_keys-occurrences (x ∷ xs) ys q h =
    let there : 0 < occurrences x ys = ground (arith, h x) in
    insert_keys-occurrences xs (remove x ys) (insert_key x q)
      (λ k. ground (arith, h k, occurrences-remove x k ys there))
    ∙ sym (insert_keys-remove x ys q there)

-- For every limit: if two runs get every RTT equally often, the two queues list the same RTTs.
pub enqueue_all-occurrences :
    (limit : ℤ)
    → (xs ys : List IpInfo) → ((k : ℕ) → occurrences k (rtts xs) ≡ occurrences k (rtts ys))
    → rtts (enqueue_all (new_ip_queue limit) xs).queue
      ≡ rtts (enqueue_all (new_ip_queue limit) ys).queue
enqueue_all-occurrences limit xs ys h =
    ap (λ (q : IpQueue). rtts q.queue) (enqueue_all-best limit xs).0
    ∙ rtts-best limit (arrange [] xs) (arrange [] ys) (
        rtts-arrange xs []
        ∙ insert_keys-occurrences (rtts xs) (rtts ys) [] h
        ∙ sym (rtts-arrange ys []))
    ∙ sym (ap (λ (q : IpQueue). rtts q.queue) (enqueue_all-best limit ys).0)
