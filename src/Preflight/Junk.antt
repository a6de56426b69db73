-- ===== src/Preflight/Junk.antt =====
-- The junk packets of wireguard/preflightbind/preflight_bind.go, and the ones that follow a handshake
-- request.
use mathlib.Core.Option
use vwarp.Prelude.{
  ℕ, zero, suc, ◌≡◌, Bool, true, false, ◌&&◌, ◌||◌, not, List, [], ◌∷◌, Option, none, some, ◌==◌,
  if◌then◌else◌, arith,
}
use vwarp.Prelude.Int.{ℤ, pos, negsuc, ◌+ℤ◌, ◌-ℤ◌, ltb_ℤ, pos_part}
use vwarp.Text.{text_eq}
use vwarp.Noize.{intn, random_bytes}
use vwarp.Config.{AtomicNoizeConfig}
use vwarp.Preflight.{Sending}

unfoldable pub is_nil : ℤ → Bool
is_nil (pos zero) = true
is_nil (pos (suc n)) = false
is_nil (negsuc n) = false

-- The limits behind the checks of `AllowZeroSize`.
unfoldable pub raised : Bool → ℤ → ℤ → ℤ × ℤ
raised true lo hi = (lo, hi)
raised false lo hi =
    let lo' = (if ltb_ℤ lo (pos 1) then pos 1 else lo) in (lo', if ltb_ℤ hi lo' then lo' else hi)

unfoldable pub size_between : ℕ → ℤ × ℤ → Option ℤ
size_between draw (lo, hi) =
    if ltb_ℤ lo hi then Option.map (λ r. lo +ℤ pos r) (intn draw (hi -ℤ lo +ℤ pos 1)) else some lo

-- A packet of a size; `none` is the panic of `make` at a negative one.
unfoldable pub sized : Bool → (ℕ → ℕ) → ℤ → Option (List ℕ)
sized allow noise (negsuc n) = none
sized true noise (pos zero) = some []
sized false noise (pos zero) = some (0 ∷ [])
sized allow noise (pos (suc n)) = some (random_bytes noise (suc n))

-- `generateJunkPacket`.
unfoldable pub generate_junk_packet : AtomicNoizeConfig → ℕ → (ℕ → ℕ) → Option (List ℕ)
generate_junk_packet c draw noise =
    if is_nil c.jmin && is_nil c.jmax
    then some (if c.allow_zero_size then [] else 0 ∷ [])
    else Option.bind (size_between draw (raised c.allow_zero_size c.jmin c.jmax))
        (sized c.allow_zero_size noise)

-- `maybeSendPostHandshakeJunk`: the destinations that it has recorded, and how many junk packets the
-- goroutine that it starts will send.
unfoldable pub is_request : List ℕ → Bool
is_request [] = false
is_request (b ∷ buf) = b == 1

unfoldable pub any_request : List (List ℕ) → Bool
any_request [] = false
any_request (buf ∷ bufs) = is_request buf || any_request bufs

unfoldable pub remaining_junk : AtomicNoizeConfig → ℕ
remaining_junk c = pos_part (c.jc -ℤ c.jc_before_hs)

unfoldable pub maybe_send_post_handshake_junk :
    Option AtomicNoizeConfig → (List ℕ → Bool) → Sending → (List ℕ → Bool) × ℕ
maybe_send_post_handshake_junk none post_sent p = (post_sent, 0)
maybe_send_post_handshake_junk (some c) post_sent p =
    if remaining_junk c == 0 || not (any_request p.bufs) || post_sent p.dst
    then (post_sent, 0)
    else ((λ a. if text_eq a p.dst then true else post_sent a), remaining_junk c)

-- Without `AllowZeroSize` the limits that are drawn between are positive and in order.
raised-positive :
    (lo hi : ℤ)
    → (ltb_ℤ (raised false lo hi).0 (pos 1) ≡ false)
      × (ltb_ℤ (raised false lo hi).1 (raised false lo hi).0 ≡ false)
unfolding raised
raised-positive lo hi = ground arith
