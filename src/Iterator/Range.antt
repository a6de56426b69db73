-- ===== src/Iterator/Range.antt =====
-- The addresses that `generateIPsFromRange` of ipscanner/iterator/iterator.go picks from an IPv4 range.
use vwarp.Prelude.{
  ℕ, zero, suc, ◌+◌, ◌-◌, ◌*◌, ◌/◌, ◌%◌, ◌^◌, ◌≤◌, ◌<◌, ◌≡◌, refl, true, false, Bool-cases, inl,
  inr, List, [], ◌∷◌, ◌++◌, Option, none, some, arith, length, length-append, ltb, ◌==◌,
  if◌then◌else◌, min,
}
use vwarp.Iterator.{
  Addr, add_ip, is_endpoint, attempts, pick, picked, segments, generate_ips_from_range, max_retries,
  join, as16, unmap,
}

-- Endpoints in strictly ascending order, from `lo` on and below `hi`.
abbrev pub Endpoints : ℕ → ℕ → List Addr → Type 0
Endpoints lo hi [] = Unit
Endpoints lo hi (a ∷ ips) =
    (a.is4 ≡ true)
    × (is_endpoint a ≡ true)
    × (lo ≤ a.value)
    × (a.value < hi)
    × Endpoints (suc a.value) hi ips

earlier : (lo lo' hi : ℕ) (ips : List Addr) → lo ≤ lo' → Endpoints lo' hi ips → Endpoints lo hi ips
earlier lo lo' hi [] h all = tt
earlier lo lo' hi (a ∷ ips) h (v4, ok, above, below, rest) = (v4, ok, omega arith, below, rest)

Endpoints-append :
    (lo mid hi : ℕ) (xs ys : List Addr)
    → lo ≤ mid
    → mid ≤ hi
    → Endpoints lo mid xs
    → Endpoints mid hi ys
    → Endpoints lo hi (xs ++ ys)
Endpoints-append lo mid hi [] ys h h' all more = earlier lo mid hi ys h more
Endpoints-append lo mid hi (x ∷ xs) ys h h' (v4, ok, above, below, rest) more = (
  v4,
  ok,
  above,
  omega arith,
  Endpoints-append (suc x.value) mid hi xs ys (omega arith) h' rest more,
)

add_ip-value :
    (s k : ℕ)
    → s + k < 2 ^ 32
    → add_ip (record { is4 = true; value = s }) k ≡ some (record { is4 = true; value = s + k })
unfolding add_ip as16 unmap
add_ip-value s k h = ground arith

-- What the attempts on a segment find.
Found : ℕ → ℕ → Option Addr → Type 0
Found lo hi none = Unit
Found lo hi (some a) = (a.is4 ≡ true) × (is_endpoint a ≡ true) × (lo ≤ a.value) × (a.value < hi)

attempts-Found :
    (left s lo size : ℕ) (draws : ℕ → ℕ)
    → s + lo + suc size ≤ 2 ^ 32
    → (o : Option Addr) × (attempts left (record { is4 = true; value = s }) lo (suc size) draws
        ≡ some o)
      × Found (s + lo) (s + lo + suc size) o
unfolding attempts Found
attempts-Found zero s lo size draws h = (none, refl, tt)
attempts-Found (suc left) s lo size draws h =
    let k = lo + draws left % suc size in
    let a : Addr = record { is4 = true; value = s + k } in
    let step = add_ip-value s k (omega arith) in
    let (o, later, found) = attempts-Found left s lo size draws h in
    elim (Bool-cases (is_endpoint a)) [
      | inl e ↦ (some a, rw step (rw e refl), (refl, e, omega arith, omega arith))
      | inr e ↦ (o, rw step (rw e later), found)
    ]

one_listed :
    (lo hi : ℕ) (o : Option Addr)
    → Found lo hi o
    → (ips : List Addr) × (picked (some o) ≡ some ips) × Endpoints lo hi ips × (length ips ≤ 1)
unfolding Found
one_listed lo hi none h = ([], refl, tt, omega arith)
one_listed lo hi (some a) (v4, ok, above, below) =
    (a ∷ [], refl, (v4, ok, above, below, tt), omega arith)

-- A result without a panic: endpoints between two numbers, and at most so many.
unfoldable pub Picked : ℕ → ℕ → ℕ → Option (List Addr) → Type 0
Picked lo hi n r = (ips : List Addr) × (r ≡ some ips) × Endpoints lo hi ips × (length ips ≤ n)

pick-Picked :
    (s lo size : ℕ) (draws : ℕ → ℕ)
    → s + lo + size ≤ 2 ^ 32
    → Picked (s + lo) (s + lo + size) 1 (pick (record { is4 = true; value = s }) lo size draws)
unfolding pick Picked
pick-Picked s lo zero draws h = ([], refl, tt, omega arith)
pick-Picked s lo (suc size) draws h =
    let nonzero : (suc size == 0) ≡ false = ground arith in
    let (o, done, found) = attempts-Found max_retries s lo size draws h in
    let (ips, listed, all, small) = one_listed (s + lo) (s + lo + suc size) o found in
    (ips, rw nonzero (rw done listed), all, small)

pub join-Picked :
    (lo mid hi k m n : ℕ) (p q : Option (List Addr))
    → lo ≤ mid
    → mid ≤ hi
    → k + m ≤ n
    → Picked lo mid k p
    → Picked mid hi m q
    → Picked lo hi n (join p q)
unfolding Picked
join-Picked lo mid hi k m n p q h h' l (xs, is_xs, all, few) (ys, is_ys, all', few') = (
  xs ++ ys,
  rw (is_xs, is_ys) refl,
  Endpoints-append lo mid hi xs ys h h' all all',
  omega (arith, length-append xs ys),
)

product : (i m g : ℕ) → (i + suc m) * g ≡ i * g + g + m * g
product i m g = omega arith

next : (i g : ℕ) → suc i * g ≡ i * g + g
next i g = omega arith

shift : (i m g : ℕ) → (suc i + m) * g ≡ (i + suc m) * g
shift i m g = omega arith

whole : (n size : ℕ) → suc n * (size / suc n) ≤ size
whole n size = omega arith

segments-Picked :
    (left i s size seg_size : ℕ) (draws : ℕ → ℕ → ℕ)
    → s + size ≤ 2 ^ 32
    → (i + suc left) * seg_size ≤ size
    → Picked
        (s + i * seg_size)
        (s + size)
        (suc left)
        (segments left i (record { is4 = true; value = s }) size seg_size draws)
unfolding segments
segments-Picked zero i s size seg_size draws h k =
    let fits : i * seg_size ≤ size = omega (arith, product i 0 seg_size) in
    let one = pick-Picked s (i * seg_size) (size - i * seg_size) (draws i) (omega arith) in
    let ends : s + i * seg_size + (size - i * seg_size) ≡ s + size = omega arith in rw ends at one
segments-Picked (suc left) i s size seg_size draws h k =
    let fits = product i (suc left) seg_size in
    let rest =
      segments-Picked left (suc i) s size seg_size draws h
        (omega (arith, shift i (suc left) seg_size)) in
    let one = pick-Picked s (i * seg_size) seg_size (draws i) (omega arith) in
    let ends : s + i * seg_size + seg_size ≡ s + suc i * seg_size =
      omega (arith, next i seg_size) in
    join-Picked (s + i * seg_size) (s + suc i * seg_size) (s + size) 1 (suc left) (suc (suc left)) _
      _ (omega (arith, next i seg_size)) (omega (arith, next i seg_size)) (omega arith)
      (rw ends at one) rest

bucket :
    (n s size : ℕ) (draws : ℕ → ℕ → ℕ)
    → s + size ≤ 2 ^ 32
    → n ≤ size
    → Picked s (s + size) n (
        if n == 0
        then some []
        else segments (n - 1) 0 (record { is4 = true; value = s }) size (size / n) draws)
unfolding Picked
bucket zero s size draws h k = ([], refl, tt, omega arith)
bucket (suc n) s size draws h k =
    let nonzero : (suc n == 0) ≡ false = ground arith in
    let start : s + 0 * (size / suc n) ≡ s = omega arith in
    let fits : (0 + suc n) * (size / suc n) ≤ size = omega (arith, whole n size) in
    let (ips, made, all, few) = segments-Picked n 0 s size (size / suc n) draws h fits in
    let less : suc n - 1 ≡ n = omega arith in (ips, rw nonzero (rw less made), rw start at all, few)

-- For an IPv4 range that ends below 2^32 and a bucket size: the addresses are generated without a
-- panic, at most as many as the bucket size and as the range has; they are IPv4 addresses in the
-- range, in strictly ascending order, and none of them ends in 0 or 255.
pub generate_ips_from_range-Endpoints :
    (s size count : ℕ) (draws : ℕ → ℕ → ℕ)
    → s + size ≤ 2 ^ 32
    → (ips : List Addr) × (generate_ips_from_range
          (record { is4 = true; value = s })
          size
          count
          draws
        ≡ some ips)
      × Endpoints s (s + size) ips
      × (length ips ≤ min count size)
unfolding generate_ips_from_range Picked
generate_ips_from_range-Endpoints s size count draws h = elim (Bool-cases (ltb size count)) [
  | inl e ↦
      (let (ips, made, all, few) = bucket size s size draws h (omega arith) in
        (ips, rw e made, all, ground arith))
  | inr e ↦
      (let (ips, made, all, few) = bucket count s size draws h (ground arith) in
        (ips, rw e made, all, ground arith))
]
