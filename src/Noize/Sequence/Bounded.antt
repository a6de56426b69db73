-- ===== src/Noize/Sequence/Bounded.antt =====
-- How many packets the sequences of masque/noize/noize.go send.
use vwarp.Prelude.{
  ℕ, zero, suc, ◌+◌, ◌≤◌, ◌<◌, ◌^◌, ◌≡◌, refl, Bool, true, false, List, [], ◌∷◌, ◌++◌, Option, none,
  some, arith, length, length-append,
}
use vwarp.Prelude.Int.{pos_part}
use vwarp.Noize.{NoizeConfig}
use vwarp.Noize.Packet.Sizes.{generate_junk_packet-sizes}
use vwarp.Noize.Validator.{validate_noize_config}
use vwarp.Noize.Validator.Sound.{junk_range, junk_counts}
use vwarp.Noize.Cps.{Draws, parse_cps_packet}
use vwarp.Noize.Sequence.{
  JunkDraws, put_junk, junk_packets, nonempty, signature_packet, execute_pre_handshake,
  execute_post_handshake,
}

length-put_junk :
    (send_empty : Bool)
    → (junk : List ℕ) → (rest : List (List ℕ))
    → length (put_junk send_empty junk rest) ≤ suc (length rest)
unfolding put_junk
length-put_junk send_empty [] rest = ground arith
length-put_junk send_empty (b ∷ junk) rest = omega arith

length-junk_packets :
    (send_empty : Bool)
    → (c : NoizeConfig) → (draws : ℕ → JunkDraws) → (i n : ℕ) → validate_noize_config c ≡ none
    → (sent : List (List ℕ)) × (junk_packets send_empty c draws i n ≡ some sent) × (length sent ≤ n)
unfolding junk_packets
length-junk_packets send_empty c draws i zero valid = ([], refl, omega arith)
length-junk_packets send_empty c draws i (suc n) valid =
    let (lo, hi, at_least, at_most, h, small) = junk_range c valid in
    let (junk, made, _, _, _) =
      generate_junk_packet-sizes c (draws i).size_draw (draws i).mimic_draw lo hi (draws i).bytes
        at_least at_most h in
    let (rest, sent, few) = length-junk_packets send_empty c draws (suc i) n valid in
    let more = length-put_junk send_empty junk rest in
    (put_junk send_empty junk rest, rw (made, sent) refl, omega arith)

length-signature_packet : (draws : Draws) → (cps : List ℕ) → length (signature_packet draws cps) ≤ 1
unfolding signature_packet nonempty
length-signature_packet draws [] = omega arith
length-signature_packet draws (c ∷ cps) = length-nonempty (parse_cps_packet draws (c ∷ cps))
  where
    length-nonempty : (o : Option (List ℕ)) → length (nonempty o) ≤ 1
    length-nonempty none = omega arith
    length-nonempty (some []) = omega arith
    length-nonempty (some (b ∷ packet)) = omega arith

sent_in_all :
    (a b c d e f g h : List (List ℕ))
    → length (a ++ b ++ c ++ d ++ e ++ f ++ g ++ h)
      ≡ length a + length b + length c + length d + length e + length f + length g + length h
sent_in_all a b c d e f g h = simp length-append

-- With a configuration that `ValidateNoizeConfig` accepts and whose counts of junk packets do not add
-- up to 2^63, whatever is drawn: neither sequence panics, and the two together send at most `Jc`
-- packets, of which there are at most 20, and the five signature packets.
pub handshake_packets :
    (c : NoizeConfig)
    → (cps : ℕ → Draws) → (draws draws' : ℕ → JunkDraws) → validate_noize_config c ≡ none
    → pos_part c.jc_before_hs
        + pos_part c.jc_after_i1
        + pos_part c.jc_during_hs
        + pos_part c.jc_after_hs
      < 2 ^ 63
    → (before after : List (List ℕ)) × (execute_pre_handshake true c cps draws ≡ some before)
      × (execute_post_handshake true c draws' ≡ some after)
      × (length before + length after ≤ pos_part c.jc + 5)
      × (pos_part c.jc ≤ 20)
unfolding execute_pre_handshake execute_post_handshake
handshake_packets c cps draws draws' valid small =
    let n = pos_part c.jc_before_hs in
    let m = pos_part c.jc_after_i1 in
    let (junk, sent, few) = length-junk_packets false c draws 0 n valid in
    let (junk', sent', few') = length-junk_packets false c draws n m valid in
    let (junk'', sent'', few'') =
      length-junk_packets false c draws (n + m) (pos_part c.jc_during_hs) valid in
    let (post, sent_after, few_after) =
      length-junk_packets true c draws' 0 (pos_part c.jc_after_hs) valid in
    let (fits, at_most) = junk_counts c valid small in
    let s1 = signature_packet (cps 0) c.i1 in
    let s2 = signature_packet (cps 1) c.i2 in
    let s3 = signature_packet (cps 2) c.i3 in
    let s4 = signature_packet (cps 3) c.i4 in
    let s5 = signature_packet (cps 4) c.i5 in
    (
      junk ++ s1 ++ junk' ++ s2 ++ s3 ++ s4 ++ s5 ++ junk'',
      post,
      rw (sent, sent', sent'') refl,
      sent_after,
      omega (
        arith,
        sent_in_all junk s1 junk' s2 s3 s4 s5 junk'',
        length-signature_packet (cps 0) c.i1,
        length-signature_packet (cps 1) c.i2,
        length-signature_packet (cps 2) c.i3,
        length-signature_packet (cps 3) c.i4,
        length-signature_packet (cps 4) c.i5,
      ),
      at_most,
    )
