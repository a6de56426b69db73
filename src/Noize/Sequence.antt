-- ===== src/Noize/Sequence.antt =====
-- `executePreHandshake` and `executePostHandshake` of masque/noize/noize.go: the packets that the two
-- sequences around a handshake send, in their order. Errors of the socket are ignored, as they are
-- there; the pauses between the packets are left out.
pub mod Bounded
use vwarp.Prelude.{
  ℕ, zero, suc, ◌+◌, Bool, true, false, List, [], ◌∷◌, ◌++◌, Option, none, some, ◌>>=◌,
  if◌then◌else◌,
}
use vwarp.Prelude.Int.{ℤ, pos, negsuc, pos_part}
use vwarp.Noize.{NoizeConfig}
use vwarp.Noize.Packet.{generate_junk_packet}
use vwarp.Noize.Cps.{Draws, parse_cps_packet}

-- The random values that one junk packet draws.
pub record JunkDraws : Type 0 where
  pub size_draw : ℕ
  pub mimic_draw : ℕ
  pub bytes : ℕ → ℕ

-- `if len(junk) > 0`, where it is asked.
unfoldable pub put_junk : Bool → List ℕ → List (List ℕ) → List (List ℕ)
put_junk send_empty [] rest = if send_empty then [] ∷ rest else rest
put_junk send_empty (b ∷ junk) rest = (b ∷ junk) ∷ rest

-- A loop that sends `n` junk packets, the first of which is the i-th of the sequence; `none` is a panic
-- of `generateJunkPacket`.
unfoldable pub junk_packets : Bool → NoizeConfig → (ℕ → JunkDraws) → ℕ → ℕ → Option (List (List ℕ))
junk_packets send_empty c draws i zero = some []
junk_packets send_empty c draws i (suc n) = do
  junk ← generate_junk_packet c (draws i).size_draw (draws i).mimic_draw (draws i).bytes
  rest ← junk_packets send_empty c draws (suc i) n
  some (put_junk send_empty junk rest)

-- A signature packet is sent if its text can be read and is not empty.
unfoldable pub nonempty : Option (List ℕ) → List (List ℕ)
nonempty none = []
nonempty (some []) = []
nonempty (some (b ∷ packet)) = (b ∷ packet) ∷ []

unfoldable pub signature_packet : Draws → List ℕ → List (List ℕ)
signature_packet draws [] = []
signature_packet draws (c ∷ cps) = nonempty (parse_cps_packet draws (c ∷ cps))

-- A count that is not positive makes no round.
unfoldable pub execute_pre_handshake :
    Bool → NoizeConfig → (ℕ → Draws) → (ℕ → JunkDraws) → Option (List (List ℕ))
execute_pre_handshake false c cps draws = some []
execute_pre_handshake true c cps draws = do
  let before = pos_part c.jc_before_hs
  let after = pos_part c.jc_after_i1
  junk ← junk_packets false c draws 0 before
  junk' ← junk_packets false c draws before after
  junk'' ← junk_packets false c draws (before + after) (pos_part c.jc_during_hs)
  some (
      junk
      ++ signature_packet (cps 0) c.i1
      ++ junk'
      ++ signature_packet (cps 1) c.i2
      ++ signature_packet (cps 2) c.i3
      ++ signature_packet (cps 3) c.i4
      ++ signature_packet (cps 4) c.i5
      ++ junk'')

unfoldable pub execute_post_handshake :
    Bool → NoizeConfig → (ℕ → JunkDraws) → Option (List (List ℕ))
execute_post_handshake false c draws = some []
execute_post_handshake true c draws = junk_packets true c draws 0 (pos_part c.jc_after_hs)
