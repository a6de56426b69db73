-- ===== src/IpUtils/Network.antt =====
-- The random address of iputils/iputils.go stands in the network of its prefix.
use native.Mathlib.Nat.{
  div-eq_of_lt, mul-add-div_right, mul-le-mul_right, div-lt_iff_lt-mul, two-pow-succ, mod-lt,
  mul-add, one-le-pow,
}
use vwarp.Prelude.{
  ℕ, zero, suc, ◌+◌, ◌-◌, ◌*◌, ◌/◌, ◌%◌, ◌^◌, ◌≤◌, ◌<◌, ◌≡◌, ap, ◌∙◌, sym, true, some, arith, ltb,
  leb,
}
use vwarp.Iterator.{mapped, as16, unmap}
use vwarp.IpUtils.{is_4_in_6, host_count, masked, random_ip_from_prefix}

pub same_block : (q d r : ℕ) → r < d → (q * d + r) / d ≡ q
same_block q d r h =
    mul-add-div_right {m = d} (omega arith) q r ∙ ap (λ t. q + t) (div-eq_of_lt h) ∙ omega arith

in_block : (q d e r : ℕ) → q < e → r < d → q * d + r < e * d
in_block q d e r h k =
    let top : suc q * d ≤ e * d = mul-le-mul_right d (omega arith) in
    let next : suc q * d ≡ q * d + d = omega arith in omega arith

unmap-low : (x : ℕ) → x < 2 ^ 32 → unmap (mapped + x) ≡ record { is4 = true; value = x }
unfolding unmap
unmap-low x h =
    let above : leb mapped (mapped + x) ≡ true = ground arith in
    let below : ltb (mapped + x) (mapped + 2 ^ 32) ≡ true = ground arith in
    let back : mapped + x - mapped ≡ x = omega arith in rw (above, below, back)

pub two_pow-add : (a b : ℕ) → 2 ^ (a + b) ≡ 2 ^ a * 2 ^ b
two_pow-add a zero = let same : a + 0 ≡ a = omega arith in rw same (omega arith)
two_pow-add a (suc b) =
    let same = two_pow-add a b in
    let next : 2 ^ (a + suc b) ≡ 2 ^ suc (a + b) = ap (λ n. 2 ^ n) (omega arith) in
    let spread : 2 ^ a * (2 ^ b + 2 ^ b) ≡ 2 ^ a * 2 ^ b + 2 ^ a * 2 ^ b =
      mul-add (2 ^ a) (2 ^ b) (2 ^ b) in
    next
    ∙ two-pow-succ (a + b)
    ∙ (omega arith)
    ∙ sym spread
    ∙ ap (λ n. 2 ^ a * n) (sym (two-pow-succ b))

block_count : (bits : ℕ) → bits ≤ 32 → 2 ^ bits * 2 ^ (32 - bits) ≡ 2 ^ 32
block_count bits h =
    let whole : bits + (32 - bits) ≡ 32 = omega arith in
    sym (two_pow-add bits (32 - bits)) ∙ ap (λ n. 2 ^ n) whole

pow_positive : (n : ℕ) → 0 < 2 ^ n
pow_positive n = one-le-pow n 2 (omega arith)

assoc : (a b : ℕ) → mapped + a + b ≡ mapped + (a + b)
assoc a b = omega arith

-- For every IPv4 prefix of at most 32 bits and every draw: the random address is an IPv4 address whose
-- number has the bits of the prefix in front.
pub random_ip_from_prefix-Network :
    (v bits draw : ℕ)
    → v < 2 ^ 32
    → bits ≤ 32
    → (x : ℕ) × (random_ip_from_prefix (record { is4 = true; value = v }) (some bits) draw
        ≡ some (record { is4 = true; value = x }))
      × (x < 2 ^ 32)
      × (x / 2 ^ (32 - bits) ≡ v / 2 ^ (32 - bits))
unfolding random_ip_from_prefix masked host_count is_4_in_6 as16
random_ip_from_prefix-Network v bits draw h k =
    let d = 2 ^ (32 - bits) in
    let q = v / d in
    let positive : 0 < d = pow_positive (32 - bits) in
    let small : draw % d < d = mod-lt draw positive in
    let many : 2 ^ bits * d ≡ 2 ^ 32 = block_count bits k in
    let under : q < 2 ^ bits = (div-lt_iff_lt-mul positive).1 (omega arith) in
    let low : q * d + draw % d < 2 ^ 32 =
      omega (arith, in_block q d (2 ^ bits) (draw % d) under small) in
    (
      q * d + draw % d,
      ap some (ap unmap (assoc (q * d) (draw % d)) ∙ unmap-low (q * d + draw % d) low),
      low,
      same_block q d (draw % d) small,
    )
