-- ===== src/Preflight/Sizes.antt =====
-- The junk packets of wireguard/preflightbind/preflight_bind.go can be made where the limits are in order.
use mathlib.Core.Option
use vwarp.Prelude.{
  ℕ, zero, suc, ◌+◌, ◌-◌, ◌%◌, ◌≤◌, ◌≡◌, refl, ap, ◌∙◌, inl, inr, Bool, true, false, ◌&&◌, List, [],
  ◌∷◌, Option, some, length, if◌then◌else◌, arith, Bool-cases,
}
use vwarp.Prelude.Int.{ℤ, pos, ltb_ℤ, ◌+ℤ◌, ◌-ℤ◌}
use vwarp.Noize.{intn, random_bytes}
use vwarp.Config.{AtomicNoizeConfig}
use vwarp.Preflight.Junk.{generate_junk_packet, is_nil, raised, size_between, sized}
use vwarp.Preflight.Sequence.{PreflightDraws, junk_from}

raised-order :
    (allow : Bool) (lo hi : ℕ)
    → lo ≤ hi
    → (a b : ℕ) × (raised allow (pos lo) (pos hi) ≡ (pos a, pos b)) × (a ≤ b)
unfolding raised
raised-order true lo hi h = (lo, hi, refl, h)
raised-order false zero zero h = (1, 1, refl, omega arith)
raised-order false zero (suc hi) h = (1, suc hi, ground arith, omega arith)
raised-order false (suc lo) hi h = (suc lo, hi, ground arith, h)

width : (a b : ℕ) → a ≤ b → pos b -ℤ pos a +ℤ pos 1 ≡ pos (suc (b - a))
unfolding ◌-ℤ◌ ◌+ℤ◌
width a b h = ground arith

pos_add : (a b : ℕ) → pos a +ℤ pos b ≡ pos (a + b)
unfolding ◌+ℤ◌
pos_add a b = ground arith

size_between-some :
    (draw a b : ℕ) → a ≤ b → (n : ℕ) × (size_between draw (pos a, pos b) ≡ some (pos n))
unfolding size_between intn
size_between-some draw a b h = elim (Bool-cases (ltb_ℤ (pos a) (pos b))) [
  | inl wide ↦
      (a + draw % suc (b - a), rw (wide, width a b h) (ap some (pos_add a (draw % suc (b - a)))))
  | inr narrow ↦ (a, rw narrow refl)
]

sized-some :
    (allow : Bool) (noise : ℕ → ℕ) (n : ℕ) → (p : List ℕ) × (sized allow noise (pos n) ≡ some p)
unfolding sized
sized-some true noise zero = ([], refl)
sized-some false noise zero = (0 ∷ [], refl)
sized-some allow noise (suc n) = (random_bytes noise (suc n), refl)

-- Limits that are not negative and in order make a junk packet.
junk-some :
    (allow : Bool) (draw : ℕ) (noise : ℕ → ℕ) (lo hi : ℕ)
    → lo ≤ hi
    → (p : List ℕ) × (Option.bind
          (size_between draw (raised allow (pos lo) (pos hi)))
          (sized allow noise)
        ≡ some p)
unfolding Option.bind sized
junk-some allow draw noise lo hi h =
    let (a, b, is_raised, order) = raised-order allow lo hi h in
    let (n, drawn) = size_between-some draw a b order in
    let (p, made) = sized-some allow noise n in (p, rw (is_raised, drawn) made)

-- The limits of an accepted configuration.
unfoldable pub IsSized : AtomicNoizeConfig → Type 0
IsSized c = (lo hi : ℕ) × (c.jmin ≡ pos lo) × (c.jmax ≡ pos hi) × (lo ≤ hi)

-- `generateJunkPacket` on its fields.
junk_by : Bool → ℤ → ℤ → ℕ → (ℕ → ℕ) → Option (List ℕ)
junk_by allow jmin jmax draw noise =
    if is_nil jmin && is_nil jmax
    then some (if allow then [] else 0 ∷ [])
    else Option.bind (size_between draw (raised allow jmin jmax)) (sized allow noise)

junk_by-some :
    (allow : Bool) (lo hi draw : ℕ) (noise : ℕ → ℕ)
    → lo ≤ hi
    → (p : List ℕ) × (junk_by allow (pos lo) (pos hi) draw noise ≡ some p)
unfolding junk_by
junk_by-some allow lo hi draw noise h = elim (Bool-cases (is_nil (pos lo) && is_nil (pos hi))) [
  | inl both ↦ ((if allow then [] else 0 ∷ []), rw both refl)
  | inr other ↦ let (p, e) = junk-some allow draw noise lo hi h in (p, rw other e)
]

generate-some :
    (c : AtomicNoizeConfig) (draw : ℕ) (noise : ℕ → ℕ)
    → IsSized c
    → (p : List ℕ) × (generate_junk_packet c draw noise ≡ some p)
unfolding IsSized generate_junk_packet junk_by
generate-some c draw noise (lo, hi, is_lo, is_hi, h) =
    let (p, e) = junk_by-some c.allow_zero_size lo hi draw noise h in
    (
      p,
      ap (λ a. junk_by c.allow_zero_size a c.jmax draw noise) is_lo
          ∙ ap (λ b. junk_by c.allow_zero_size (pos lo) b draw noise) is_hi
          ∙ e,
    )

pub junk_from-some :
    (c : AtomicNoizeConfig) (draws : PreflightDraws) (i n : ℕ)
    → IsSized c
    → (ps : List (List ℕ)) × (junk_from c draws i n ≡ some ps) × (length ps ≡ n)
unfolding junk_from
junk_from-some c draws i zero h = ([], refl, refl)
junk_from-some c draws i (suc n) h =
    let (p, e) = generate-some c (draws.size i) (draws.bytes i) h in
    let (ps, es, size) = junk_from-some c draws (suc i) n h in
    (p ∷ ps, rw (e, es) refl, ap suc size)
