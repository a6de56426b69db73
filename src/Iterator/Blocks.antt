-- ===== src/Iterator/Blocks.antt =====
-- The addresses that `Generate` of ipscanner/iterator/iterator.go gives for IPv4 ranges.
use vwarp.Prelude.{
  ℕ, zero, suc, ◌+◌, ◌*◌, ◌/◌, ◌^◌, ◌≤◌, ◌<◌, ◌≡◌, ◌∙◌, refl, ap, true, false, inl, inr, Bool-cases,
  [], some, arith, ◌==◌, ltb, if◌then◌else◌,
}
use vwarp.Iterator.{Addr, mapped, add_ip, as16, unmap, ip_range_size, generate_ips_from_range, join}
use vwarp.Iterator.Range.{Picked, join-Picked, generate_ips_from_range-Endpoints}
use vwarp.Iterator.Generate.{contains, after, next_block, blocks}
use vwarp.IpUtils.Network.{same_block}
use vwarp.Warp.Endpoint.{Prefix}

abbrev pub v4 : ℕ → Addr
v4 n = record { is4 = true; value = n }

block-start : (m h : ℕ) → 0 < h → m * h / h ≡ m
block-start m h k =
    let at_start : m * h ≡ m * h + 0 = omega arith in ap (λ x. x / h) at_start ∙ same_block m h 0 k

block-end : (m h : ℕ) → 0 < h → (m * h + h) / h ≡ suc m
block-end m h k =
    let at_end : m * h + h ≡ suc m * h = omega arith in
    ap (λ x. x / h) at_end ∙ block-start (suc m) h k

equal : (m : ℕ) → (m == m) ≡ true
equal m = ground arith

above : (m : ℕ) → (suc m == m) ≡ false
above m = ground arith

-- The block behind one: an IPv4 address, or behind the last IPv4 address one that is none.
behind : ℕ → Addr
behind n = if ltb n (2 ^ 32) then v4 n else record { is4 = false; value = mapped + n }

next_block-behind :
    (c : ℕ)
    → c + 256 ≤ 2 ^ 32
    → next_block (add_ip (v4 c) (ip_range_size true 24)) (v4 c) ≡ some (some (behind (c + 256)))
unfolding next_block add_ip ip_range_size as16 unmap after behind
next_block-behind c h = ground arith

behind-inside : (n : ℕ) → n < 2 ^ 32 → behind n ≡ v4 n
unfolding behind
behind-inside n h = ground arith

blocks-step :
    (fuel : ℕ) (p : Prefix) (c next : Addr) (count : ℕ) (draws : ℕ → ℕ → ℕ → ℕ)
    → contains p c ≡ true
    → next_block (add_ip c (ip_range_size p.addr.is4 24)) c ≡ some (some next)
    → blocks (suc fuel) p c count draws
      ≡ join
          (generate_ips_from_range c (ip_range_size c.is4 24) count (draws 0))
          (blocks fuel p next count (λ n. draws (suc n)))
unfolding blocks
blocks-step fuel p c next count draws e e' = rw (blocks, e, e') refl

blocks-stop :
    (fuel : ℕ) (p : Prefix) (c : Addr) (count : ℕ) (draws : ℕ → ℕ → ℕ → ℕ)
    → contains p c ≡ false
    → blocks (suc fuel) p c count draws ≡ some []
unfolding blocks
blocks-stop fuel p c count draws e = rw (blocks, e) refl

block-Picked :
    (c count : ℕ) (draws : ℕ → ℕ → ℕ)
    → c + 256 ≤ 2 ^ 32
    → Picked c (c + 256) count (generate_ips_from_range (v4 c) (ip_range_size true 24) count draws)
unfolding Picked ip_range_size
block-Picked c count draws h =
    let (ips, made, all, few) = generate_ips_from_range-Endpoints c 256 count draws h in
    (ips, made, all, omega arith)

-- An IPv4 prefix of size `h`, whose address is a multiple of it.
module _ (bits m h : ℕ) (e : ip_range_size true bits ≡ h) (positive : 0 < h) where
  abbrev range : Prefix
  range = record { addr = v4 (m * h); bits = bits }

  contains-inside : (r : ℕ) → r < h → contains range (v4 (m * h + r)) ≡ true
  unfolding contains
  contains-inside r k = rw (e, same_block m h r k, block-start m h positive) (equal m)

  contains-end : contains range (behind (m * h + h)) ≡ false
  unfolding contains behind
  contains-end = elim (Bool-cases (ltb (m * h + h) (2 ^ 32))) [
    | inl k ↦ rw (k, e, block-end m h positive, block-start m h positive) (above m)
    | inr k ↦ rw k refl
  ]

  pub blocks-Picked :
      (left fuel r count : ℕ) (draws : ℕ → ℕ → ℕ → ℕ)
      → left < fuel
      → m * h + h ≤ 2 ^ 32
      → r + suc left * 256 ≡ h
      → Picked
          (m * h + r)
          (m * h + h)
          (suc left * count)
          (blocks (suc fuel) range (v4 (m * h + r)) count draws)
  unfolding Picked
  blocks-Picked left zero r count draws k top ends = absurd (omega arith)
  blocks-Picked zero (suc fuel) r count draws k top ends =
      let first = block-Picked (m * h + r) count (draws 0) (omega arith) in
      let last : m * h + r + 256 ≡ m * h + h = omega arith in
      let next = next_block-behind (m * h + r) (omega arith) in
      let step =
        blocks-step (suc fuel) range (v4 (m * h + r)) (behind (m * h + h)) count draws
          (contains-inside r (omega arith)) (rw last at next) in
      let stop =
        blocks-stop fuel range (behind (m * h + h)) count (λ n. draws (suc n)) contains-end in
      rw (step, stop)
        (join-Picked (m * h + r) (m * h + h) (m * h + h) count 0 (1 * count) _ _ (omega arith)
          (omega arith) (omega arith) (rw last at first) ([], refl, tt, omega arith))
  blocks-Picked (suc left) (suc fuel) r count draws k top ends =
      let first = block-Picked (m * h + r) count (draws 0) (omega arith) in
      let later : m * h + r + 256 ≡ m * h + (r + 256) = omega arith in
      let next = next_block-behind (m * h + r) (omega arith) in
      let inside = behind-inside (m * h + (r + 256)) (omega arith) in
      let step =
        blocks-step (suc fuel) range (v4 (m * h + r)) (v4 (m * h + (r + 256))) count draws
          (contains-inside r (omega arith)) (rw inside at (rw later at next)) in
      rw step (
        join-Picked (m * h + r) (m * h + (r + 256)) (m * h + h) count (suc left * count)
          (suc (suc left) * count) _ _ (omega arith) (omega arith) (omega arith) (rw later at first)
          (blocks-Picked left fuel (r + 256) count (λ n. draws (suc n)) (omega arith) top
            (omega arith)))
