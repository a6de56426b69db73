-- ===== src/Noize/Packet/Sizes.antt =====
-- The sizes of padding and junk in masque/noize/noize.go.
use mathlib.Core.Option
use vwarp.Prelude.{
  ℕ, zero, suc, ◌+◌, ◌-◌, ◌%◌, ◌≤◌, ◌≡◌, inl, inr, refl, ap, ◌∙◌, true, false, not, ◌&&◌, ◌||◌,
  Bool-cases, List, [], ◌∷◌, ◌++◌, some, length, length-append, length-take, length-drop, max, take,
  drop, arith, ltb, ◌==◌, if◌then◌else◌,
}
use vwarp.Prelude.Int.{pos, ◌+ℤ◌, ◌-ℤ◌, ltb_ℤ}
use vwarp.Text.{text_eq}
use vwarp.Proxy.Ip.{put_uint16}
use vwarp.Noize.{NoizeConfig, intn, random_bytes, length-random_bytes}
use vwarp.Noize.Packet.{
  add_padding, padding_size, limited, pad, is_zero, apply_protocol_mimic, junk_limits, junk_size,
  junk_of_size, generate_junk_packet,
}

span : (lo hi : ℕ) → lo ≤ hi → pos hi -ℤ pos lo +ℤ pos 1 ≡ pos (suc (hi - lo))
unfolding ◌+ℤ◌ ◌-ℤ◌
span lo hi h = ground arith

pos_add : (a b : ℕ) → pos a +ℤ pos b ≡ pos (a + b)
unfolding ◌+ℤ◌
pos_add a b = ground arith

-- A draw between two bounds, as the code writes it: `lo + rng.Intn(hi - lo + 1)`.
intn_between :
    (draw lo hi : ℕ)
    → lo ≤ hi
    → (r : ℕ) × (intn draw (pos hi -ℤ pos lo +ℤ pos 1) ≡ some r) × (r ≤ hi - lo)
unfolding intn
intn_between draw lo hi h = (draw % suc (hi - lo), rw (span lo hi h) refl, omega arith)

length-mimic :
    (mimic junk : List ℕ) (draw : ℕ) → length (apply_protocol_mimic mimic draw junk) ≡ length junk
unfolding apply_protocol_mimic put_uint16
length-mimic mimic junk draw = ground (
  arith,
  length-append (take 2 (drop 2 junk)) (0x21 ∷ 0x12 ∷ 0xa4 ∷ 0x42 ∷ drop 8 junk),
  length-take 2 (drop 2 junk),
  length-drop 2 junk,
  length-drop 3 junk,
  length-drop 4 junk,
  length-drop 8 junk,
)

length-pad :
    (noise : ℕ → ℕ) (packet : List ℕ) (size : ℕ)
    → (length packet ≤ length (pad noise packet (pos size)))
      × (length (pad noise packet (pos size)) ≤ length packet + size)
      × (length (pad noise packet (pos size)) ≤ max (length packet) 1200)
unfolding pad limited ◌+ℤ◌ ◌-ℤ◌
length-pad noise packet size = (
  grind (arith, length-append, length-random_bytes),
  grind (arith, length-append, length-random_bytes),
  grind (arith, length-append, length-random_bytes),
)

take-front : (xs ys : List ℕ) → take (length xs) (xs ++ ys) ≡ xs
take-front [] ys = refl
take-front (x ∷ xs) ys = ap (λ l. x ∷ l) (take-front xs ys)

take-all : (xs : List ℕ) → take (length xs) xs ≡ xs
take-all [] = refl
take-all (x ∷ xs) = ap (λ l. x ∷ l) (take-all xs)

take-pad :
    (noise : ℕ → ℕ) (packet : List ℕ) (size : ℕ)
    → take (length packet) (pad noise packet (pos size)) ≡ packet
unfolding pad
take-pad noise packet size = grind (arith, take-front, take-all)

length-junk_of_size :
    (c : NoizeConfig) (draw : ℕ) (noise : ℕ → ℕ) (n : ℕ)
    → (junk : List ℕ) × (junk_of_size c draw noise (pos n) ≡ some junk) × (length junk ≡ n)
unfolding junk_of_size
length-junk_of_size c draw noise n =
    elim (Bool-cases (not (text_eq c.mimic_protocol []) && ltb 10 n)) [
      | inl e ↦ rw e (
        apply_protocol_mimic c.mimic_protocol draw (random_bytes noise n),
        refl,
        length-mimic c.mimic_protocol (random_bytes noise n) draw ∙ length-random_bytes noise n,
      )
      | inr e ↦ rw e (random_bytes noise n, refl, length-random_bytes noise n)
    ]

junk_size_within :
    (draw lo hi : ℕ)
    → lo ≤ hi
    → (n : ℕ) × (junk_size draw (pos lo) (pos hi) ≡ some (pos n)) × (lo ≤ n) × (n ≤ hi)
unfolding junk_size
junk_size_within draw lo hi h = elim (Bool-cases (ltb_ℤ (pos lo) (pos hi))) [
  | inl e ↦
      (let (r, drawn, small) = intn_between draw lo hi h in
        (lo + r, rw (e, junk_size) (rw drawn (ap some (pos_add lo r))), omega arith, omega arith))
  | inr e ↦ (lo, rw (e, junk_size) refl, omega arith, h)
]

padding_size_within :
    (c : NoizeConfig) (draw lo hi : ℕ)
    → c.padding_min ≡ pos lo
    → c.padding_max ≡ pos hi
    → lo ≤ hi
    → (n : ℕ) × (padding_size c draw ≡ some (pos n)) × (n ≤ hi)
unfolding padding_size
padding_size_within c draw lo hi at_least at_most h = elim (Bool-cases c.random_padding) [
  | inl e ↦
      (let (r, drawn, small) = intn_between draw lo hi h in
        (lo + r, rw (e, at_least, at_most, drawn) (ap some (pos_add lo r)), omega arith))
  | inr e ↦ (hi, rw (e, at_most) refl, omega arith)
]

-- With 0 ≤ PaddingMin ≤ PaddingMax, `addPadding` does not panic, it appends at most PaddingMax
-- bytes, and a packet that has at most 1200 bytes does not get longer than that.
pub add_padding-sizes :
    (c : NoizeConfig) (draw lo hi : ℕ) (noise : ℕ → ℕ) (packet : List ℕ)
    → c.padding_min ≡ pos lo
    → c.padding_max ≡ pos hi
    → lo ≤ hi
    → (padded : List ℕ) × (add_padding c draw noise packet ≡ some padded)
      × (take (length packet) padded ≡ packet)
      × (length padded ≤ length packet + hi)
      × (length padded ≤ max (length packet) 1200)
unfolding add_padding
add_padding-sizes c draw lo hi noise packet at_least at_most h =
    let (n, drawn, small) = padding_size_within c draw lo hi at_least at_most h in
    let (longer, bound, limit) = length-pad noise packet n in
    elim (Bool-cases (is_zero c.padding_max || ltb (length packet) 16)) [
      | inl e ↦ (packet, rw e refl, take-all packet, omega arith, omega arith)
      | inr e ↦ (
        pad noise packet (pos n),
        rw (e, drawn) refl,
        take-pad noise packet n,
        omega arith,
        limit,
      )
    ]

junk_between :
    (c : NoizeConfig) (draw draw' lo hi : ℕ) (noise : ℕ → ℕ)
    → lo ≤ hi
    → (junk : List ℕ) × (Option.bind (junk_size draw (pos lo) (pos hi)) (junk_of_size c draw' noise)
        ≡ some junk)
      × (lo ≤ length junk)
      × (length junk ≤ hi)
unfolding Option.bind junk_of_size
junk_between c draw draw' lo hi noise h =
    let (n, drawn, at_least, at_most) = junk_size_within draw lo hi h in
    let (junk, made, long) = length-junk_of_size c draw' noise n in
    (junk, rw drawn made, omega arith, omega arith)

-- The limits, where zero sizes are not what is asked for.
junk_limits_as :
    (c : NoizeConfig) (lo hi : ℕ)
    → c.jmin ≡ pos lo
    → c.jmax ≡ pos hi
    → lo ≤ hi
    → (lo' : ℕ) × (hi' : ℕ) × (junk_limits c ≡ (pos lo', pos hi'))
      × (lo' ≤ hi')
      × (lo ≤ lo')
      × (hi' ≤ (if hi == 0 then 90 else hi))
      × (c.allow_zero_size ≡ false → 1 ≤ lo')
unfolding junk_limits is_zero
junk_limits_as c zero zero at_least at_most h =
    (40, 90, rw (at_least, at_most) refl, omega arith, omega arith, omega arith, λ k. omega arith)
junk_limits_as c zero (suc hi) at_least at_most h = elim (Bool-cases c.allow_zero_size) [
  | inl e ↦
      (0, suc hi, rw (at_least, at_most, e) refl, h, omega arith, ground arith, λ k. ground arith)
  | inr e ↦ (
    1,
    suc hi,
    rw (at_least, at_most, e) refl,
    omega arith,
    omega arith,
    ground arith,
    λ k. omega arith,
  )
]
junk_limits_as c (suc lo) zero at_least at_most h = absurd (omega arith)
junk_limits_as c (suc lo) (suc hi) at_least at_most h =
    (suc lo, suc hi, ground arith, h, omega arith, ground arith, λ k. omega arith)

zero_asked :
    (c : NoizeConfig) (lo : ℕ)
    → c.jmin ≡ pos lo
    → (is_zero c.jmin && is_zero c.jmax && c.allow_zero_size) ≡ true
    → (lo ≤ 0) × (c.allow_zero_size ≡ true)
unfolding is_zero
zero_asked c lo at_least e = ground arith

-- With 0 ≤ Jmin ≤ Jmax, `generateJunkPacket` does not panic: the packet has at most Jmax bytes, or
-- at most 90 where Jmax is 0, and at least Jmin; it is empty only if zero sizes are allowed.
pub generate_junk_packet-sizes :
    (c : NoizeConfig) (draw draw' lo hi : ℕ) (noise : ℕ → ℕ)
    → c.jmin ≡ pos lo
    → c.jmax ≡ pos hi
    → lo ≤ hi
    → (junk : List ℕ) × (generate_junk_packet c draw draw' noise ≡ some junk)
      × (lo ≤ length junk)
      × (length junk ≤ (if hi == 0 then 90 else hi))
      × (c.allow_zero_size ≡ false → 1 ≤ length junk)
unfolding generate_junk_packet
generate_junk_packet-sizes c draw draw' lo hi noise at_least at_most h =
    let (lo', hi', limits, fits, above, below, positive) =
      junk_limits_as c lo hi at_least at_most h in
    elim (Bool-cases (is_zero c.jmin && is_zero c.jmax && c.allow_zero_size)) [
      | inl e ↦ (
        [],
        rw e refl,
        (zero_asked c lo at_least e).0,
        omega arith,
        λ k. ground (arith, (zero_asked c lo at_least e).1, k),
      )
      | inr e ↦
          (let (junk, made, small, big) = junk_between c draw draw' lo' hi' noise fits in
            (junk, simp (e, limits) made, omega arith, omega arith, λ k. omega (arith, positive k)))
    ]
