-- ===== src/Queue/Examples.antt =====
-- Runs of ipscanner/engine/queue.go, and the theorems about it at concrete inputs.
use mathlib.Core.List.{Perm}
use vwarp.Prelude.{ℕ, ◌≡◌, refl, List, [], ◌∷◌}
use vwarp.Prelude.Int.{pos}
use vwarp.Queue.{
  IpInfo, new_ip_queue, enqueue, enqueue_all, search_index, search_loop, slower_at, insert_at, trim,
}
use vwarp.Queue.Search.{IsSorted}
use vwarp.Queue.Best.{arrange, best, enqueue_all-best}

abbrev info : ℕ → ℕ → IpInfo
info host rtt = record {
  addr_port = record { addr = 188 ∷ 114 ∷ 96 ∷ host ∷ []; port = 2408 };
  rtt = rtt;
}

abbrev arrivals : List IpInfo
arrivals = info 1 30 ∷ info 2 10 ∷ info 3 20 ∷ info 4 10 ∷ []

abbrev swapped : List IpInfo
swapped = info 2 10 ∷ info 1 30 ∷ info 3 20 ∷ info 4 10 ∷ []

keeps_best_two : (enqueue_all (new_ip_queue (pos 2)) arrivals).queue ≡ info 2 10 ∷ info 4 10 ∷ []
unfolding enqueue_all new_ip_queue enqueue search_index search_loop slower_at insert_at trim
keeps_best_two = refl

enqueue_all-best_example :
    (enqueue_all (new_ip_queue (pos 2)) arrivals
      ≡ record { queue = best (pos 2) (arrange [] arrivals); max_queue_size = pos 2 })
    × IsSorted (arrange [] arrivals)
    × Perm (arrange [] arrivals) arrivals
enqueue_all-best_example = enqueue_all-best (pos 2) arrivals
