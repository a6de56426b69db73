-- ===== src/Engine/Examples.antt =====
-- A scan of three candidates, one of which does not answer the ICMP ping.
use vwarp.Prelude.{
  ℕ, ◌≤◌, ◌≡◌, refl, true, false, List, [], ◌∷◌, none, some, ltb, ◌==◌, if◌then◌else◌,
}
use vwarp.Prelude.Int.{pos}
use vwarp.Queue.{AddrPort, IpInfo, new_ip_queue, enqueue_all, size}
use vwarp.Queue.Order.{rtts}
use vwarp.Engine.{
  Network, Options, State, Event, generate, take_icmp, take_tcp, take_warp, check, cancel,
  finish_icmp, finish_tcp, finish_warp, run, start, ip_queue,
}
use vwarp.Text.{text_eq}
use vwarp.Engine.Candidates.{candidates_of, any_port}
use vwarp.Engine.Listed.{tried, candidates_of-tried}
use vwarp.Engine.PortScan.{PortEvent, tested}
use vwarp.Engine.Counts.{tally}
use vwarp.Engine.Complete.{IsDone, results, scan_sound, scan_sequential}

abbrev answer : AddrPort → ℕ → IpInfo
answer a r = record { addr_port = a; rtt = r }

abbrev net : Network
net = record {
  ping_icmp = λ a. if a.port == 7 then none else some (answer a 5);
  ping_tcp = λ a. some (answer a 9);
  ping_warp = λ a p. some (answer (record { addr = a; port = p }) p);
}

abbrev options : Options
options = record {
  icmp_ping = true;
  tcp_ping = false;
  icmp_ping_filter_rtt = 10;
  tcp_ping_filter_rtt = 10;
  port = 2408;
  concurrent_scanners = 2;
  ip_queue_size = pos 8;
  stop_on_first_good_ips = pos 3;
}

abbrev candidates : List IpInfo
candidates =
    answer (record { addr = 1 ∷ []; port = 500 }) 0
    ∷ answer (record { addr = 2 ∷ []; port = 7 }) 0
    ∷ answer (record { addr = 2 ∷ []; port = 0 }) 0
    ∷ []

-- The port is added once.
candidates_found :
    candidates_of
      ((2 ∷ []) ∷ (2 ∷ []) ∷ [])
      (record { addr = 1 ∷ []; port = 500 } ∷ record { addr = 1 ∷ []; port = 500 } ∷ [])
    ≡ answer (record { addr = 2 ∷ []; port = 0 }) 0
      ∷ answer (record { addr = 1 ∷ []; port = 500 }) 0
      ∷ []
unfolding candidates_of vwarp.Engine.Candidates.all_candidates vwarp.Engine.Candidates.add_endpoints
    vwarp.Engine.Candidates.add_candidate vwarp.Engine.Candidates.any_port vwarp.Text.text_eq
    vwarp.Engine.Candidates.append_if_missing vwarp.Engine.Candidates.infos_of
candidates_found = refl

-- The third candidate overtakes the first one.
abbrev events : List Event
events =
    generate
    ∷ generate
    ∷ take_icmp
    ∷ take_icmp
    ∷ generate
    ∷ finish_icmp 0 true
    ∷ take_icmp
    ∷ finish_icmp 0 true
    ∷ take_tcp
    ∷ finish_tcp 0 true
    ∷ take_warp
    ∷ finish_icmp 0 true
    ∷ take_tcp
    ∷ finish_tcp 0 true
    ∷ take_warp
    ∷ finish_warp 0 true
    ∷ finish_warp 0 true
    ∷ check
    ∷ check
    ∷ []

events_end :
    IsDone (run net options events (start candidates))
    × ((run net options events (start candidates)).cancelled ≡ false)
    × ((run net options events (start candidates)).checking ≡ 0)
unfolding run IsDone vwarp.Engine.step vwarp.Engine.checked vwarp.Engine.pinged vwarp.Engine.pull
    vwarp.Engine.take_item vwarp.Engine.generated start vwarp.Engine.workers vwarp.Engine.received
    vwarp.Engine.filtered vwarp.Engine.delivered vwarp.Engine.icmp_filter vwarp.Engine.within
    vwarp.Engine.tcp_filter vwarp.Engine.probed vwarp.Engine.warp_probe vwarp.Engine.enough ip_queue
    vwarp.Engine.keep_first vwarp.Queue.enqueue enqueue_all new_ip_queue vwarp.Queue.search_index
    size vwarp.Queue.trim vwarp.Queue.insert_at vwarp.Queue.search_loop vwarp.Queue.slower_at
events_end = ((refl, refl, refl, refl, refl, refl, refl), refl, refl)

scan_sequential_example :
    rtts (ip_queue options (run net options events (start candidates))).queue
    ≡ rtts (enqueue_all (new_ip_queue (pos 8)) (results net options candidates)).queue
scan_sequential_example = scan_sequential net options candidates events events_end.0 events_end.1

scan_sound_example :
    tally (λ x. ltb x.rtt 1000) (λ x. some x) (run net options events (start candidates)).found
    ≤ tally (λ x. ltb x.rtt 1000) (λ x. some x) (results net options candidates)
scan_sound_example = scan_sound net options candidates events (λ x. ltb x.rtt 1000)

abbrev unlimited : Options
unlimited = record options { stop_on_first_good_ips = pos 0 }

candidates_of-tried_example :
    tried (9 ∷ []) 0 (candidates_of ((9 ∷ []) ∷ []) (record { addr = 9 ∷ []; port = 443 } ∷ []))
    ≡ true
unfolding any_port text_eq
candidates_of-tried_example =
    candidates_of-tried (9 ∷ []) 0 ((9 ∷ []) ∷ []) (record { addr = 9 ∷ []; port = 443 } ∷ [])

abbrev two_ports : List (List ℕ × List ℕ)
two_ports = ((9 ∷ []), (500 ∷ 443 ∷ [])) ∷ []

abbrev later_first : List PortEvent
later_first = tested 1 true ∷ tested 0 true ∷ []
