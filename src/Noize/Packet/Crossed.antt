-- ===== src/Noize/Packet/Crossed.antt =====
-- Padding limits in the wrong order, in masque/noize/noize.go.
use vwarp.Prelude.{ℕ, zero, suc, refl, ◌<◌, ◌≤◌, true, false, List, length, none, ◌≡◌, arith, ltb}
use vwarp.Prelude.Int.{ℤ, pos, negsuc, ◌≤ℤ◌, ◌+ℤ◌, ◌-ℤ◌}
use vwarp.Noize.{NoizeConfig, intn}
use vwarp.Noize.Packet.{add_padding, padding_size, is_zero}

intn-low : (draw : ℕ) (z : ℤ) → z ≤ℤ pos 0 → intn draw z ≡ none
unfolding intn
intn-low draw (pos zero) h = refl
intn-low draw (pos (suc n)) h = ground arith
intn-low draw (negsuc n) h = refl

no_draw : (draw lo hi : ℕ) → suc hi < lo → intn draw (pos (suc hi) -ℤ pos lo +ℤ pos 1) ≡ none
unfolding ◌+ℤ◌ ◌-ℤ◌
no_draw draw lo hi h = intn-low draw (pos (suc hi) -ℤ pos lo +ℤ pos 1) (ground arith)

pub add_padding-crossed :
    (c : NoizeConfig)
    → (draw : ℕ) → (noise : ℕ → ℕ) → (packet : List ℕ) → (lo hi : ℕ) → c.padding_min ≡ pos lo
    → c.padding_max ≡ pos (suc hi)
    → c.random_padding ≡ true
    → suc hi < lo
    → 16 ≤ length packet
    → add_padding c draw noise packet ≡ none
unfolding add_padding padding_size is_zero
add_padding-crossed c draw noise packet lo hi at_least at_most drawn crossed long =
    let short : ltb (length packet) 16 ≡ false = ground arith in
    rw (at_most, drawn, at_least, short, no_draw draw lo hi crossed)
