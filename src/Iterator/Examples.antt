-- ===== src/Iterator/Examples.antt =====
-- A run of ipscanner/iterator/iterator.go on a part of 188.114.96.0/24.
use vwarp.Prelude.{ℕ, ◌+◌, ◌*◌, ◌≡◌, refl, true, List, [], ◌∷◌, some, arith}
use vwarp.Iterator.{
  Addr, generate_ips_from_range, ip_range_size, last_ip, segments, pick, attempts, add_ip,
  is_endpoint,
}
use vwarp.Iterator.Generate.{generate, range_ips, Draws}
use vwarp.Iterator.Networks.{prefixes_of, Sampled, generate-Sampled}

-- 188.114.96.0
abbrev first : ℕ
first = 3161612288

abbrev start : Addr
start = record { is4 = true; value = first }

abbrev draws : ℕ → ℕ → ℕ
draws i attempt = 17 * i + attempt

abbrev drawn : ℕ → Draws
drawn r = record { index = λ i. i; offset = λ block i attempt. 100 + block + 17 * i + attempt }

generate-Sampled_example :
    (ips : List Addr) × (generate (prefixes_of ((24701, 15) ∷ (12350048, 24) ∷ [])) 2 drawn
      ≡ some ips)
    × Sampled 2 ((24701, 15) ∷ (12350048, 24) ∷ []) ips
generate-Sampled_example =
    generate-Sampled ((24701, 15) ∷ (12350048, 24) ∷ []) 2 drawn (omega arith, (omega arith, tt))

-- A prefix with host bits, 188.114.96.200/24: the address is that of the next network.
host_bits :
    range_ips (record { addr = record { is4 = true; value = first + 200 }; bits = 24 }) 1 (drawn 0)
    ≡ some (record { is4 = true; value = first + 309 } ∷ [])
unfolding range_ips generate_ips_from_range ip_range_size segments pick attempts add_ip is_endpoint
host_bits = refl

-- The first segment of a /24 cannot give its first address.
one_segment : generate_ips_from_range start (ip_range_size true 32) 4 draws ≡ some []
unfolding generate_ips_from_range ip_range_size segments pick attempts add_ip is_endpoint
one_segment = refl

last_of_24 : last_ip start 24 ≡ record { is4 = true; value = first + 255 }
unfolding last_ip
last_of_24 = refl
