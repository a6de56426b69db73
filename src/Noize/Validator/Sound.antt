-- ===== src/Noize/Validator/Sound.antt =====
-- What a configuration that `ValidateNoizeConfig` accepts guarantees to the code that uses it.
use vwarp.Prelude.{
  ℕ, zero, suc, ◌+◌, ◌≤◌, ◌<◌, ◌^◌, ◌||◌, ◌≡◌, refl, ap, sym, ◌∙◌, ◌%◌, ltb, Bool, true, false,
  List, [], ◌∷◌, ◌++◌, none, some, arith, length, get_elem?, take, max,
}
use vwarp.Prelude.Int.{ℤ, pos, negsuc, ltb_ℤ, pos_part, ◌+ℤ◌}
use vwarp.Noize.{NoizeConfig}
use vwarp.Noize.Packet.{add_padding, generate_junk_packet}
use vwarp.Noize.Packet.Sizes.{add_padding-sizes, generate_junk_packet-sizes}
use vwarp.Noize.Validator.{
  ConfigError, first_error, wrap64, junk_guards, size_guards, timing_guards, form_guards,
  validate_noize_config,
}

-- No guard of a list that passes holds.
first_error-passed :
    (xs : List (Bool × ConfigError)) (i : ℕ) (g : Bool) (e : ConfigError)
    → first_error xs ≡ none
    → get_elem? xs i ≡ some (g, e)
    → g ≡ false
unfolding first_error
first_error-passed [] i g e h k = ground arith
first_error-passed ((g', e') ∷ xs) zero g e h k = ground arith
first_error-passed ((g', e') ∷ xs) (suc i) g e h k = first_error-passed xs i g e (ground arith) k

passed :
    (c : NoizeConfig) (i : ℕ) (g : Bool) (e : ConfigError)
    → validate_noize_config c ≡ none
    → get_elem? (junk_guards c ++ size_guards c ++ timing_guards c ++ form_guards c) i ≡ some (g, e)
    → g ≡ false
unfolding validate_noize_config
passed c i g e valid at_i = first_error-passed _ i g e valid at_i

-- Two integers in order, the lower one not negative.
range :
    (a b : ℤ)
    → ltb_ℤ a (pos 0) ≡ false
    → ltb_ℤ b a ≡ false
    → (lo : ℕ) × (hi : ℕ) × (a ≡ pos lo) × (b ≡ pos hi) × (lo ≤ hi)
range (pos lo) (pos hi) h k = (lo, hi, refl, refl, ground arith)
range (pos lo) (negsuc hi) h k = ground arith
range (negsuc lo) b h k = ground arith

pub padding_range :
    (c : NoizeConfig)
    → validate_noize_config c ≡ none
    → (lo : ℕ) × (hi : ℕ) × (c.padding_min ≡ pos lo)
      × (c.padding_max ≡ pos hi)
      × (lo ≤ hi)
      × (hi ≤ 500)
unfolding junk_guards size_guards
padding_range c valid =
    let (lo, hi, at_least, at_most, h) =
      range c.padding_min c.padding_max (passed c 12 _ _ valid refl) (passed c 13 _ _ valid refl) in
    let small : ltb_ℤ (pos 500) c.padding_max ≡ false = passed c 14 _ _ valid refl in
    (lo, hi, at_least, at_most, h, ground (arith, rw at_most at small))

pub junk_range :
    (c : NoizeConfig)
    → validate_noize_config c ≡ none
    → (lo : ℕ) × (hi : ℕ) × (c.jmin ≡ pos lo) × (c.jmax ≡ pos hi) × (lo ≤ hi) × (hi ≤ 1400)
unfolding junk_guards
junk_range c valid =
    let (lo, hi, at_least, at_most, h) =
      range c.jmin c.jmax (passed c 1 _ _ valid refl) (passed c 2 _ _ valid refl) in
    let small : ltb_ℤ (pos 1400) c.jmax ≡ false = passed c 3 _ _ valid refl in
    (lo, hi, at_least, at_most, h, ground (arith, rw at_most at small))

-- With a configuration that `ValidateNoizeConfig` accepts: `addPadding` does not panic, the packet is
-- the front of what it returns, which is at most 500 bytes longer and, if the packet has at most 1200
-- bytes, has at most 1200 bytes; and `generateJunkPacket` does not panic, and returns at most 1400
-- bytes.
pub validate_noize_config-sizes :
    (c : NoizeConfig) (packet : List ℕ) (draw draw' : ℕ) (noise : ℕ → ℕ)
    → validate_noize_config c ≡ none
    → ((padded : List ℕ) × (add_padding c draw noise packet ≡ some padded)
        × (take (length packet) padded ≡ packet)
        × (length padded ≤ length packet + 500)
        × (length padded ≤ max (length packet) 1200))
      × ((junk : List ℕ) × (generate_junk_packet c draw draw' noise ≡ some junk)
          × (length junk ≤ 1400))
validate_noize_config-sizes c packet draw draw' noise valid =
    let (lo, hi, at_least, at_most, h, small) = padding_range c valid in
    let (padded, made, front, longer, limit) =
      add_padding-sizes c draw lo hi noise packet at_least at_most h in
    let (lo', hi', at_least', at_most', h', small') = junk_range c valid in
    let (junk, made', above, below, positive) =
      generate_junk_packet-sizes c draw draw' lo' hi' noise at_least' at_most' h' in
    ((padded, made, front, omega arith, limit), (junk, made', ground arith))

wrap64-small : (n : ℕ) → n < 2 ^ 63 → wrap64 (pos n) ≡ pos n
unfolding wrap64
wrap64-small n h =
    let whole : n % 2 ^ 64 ≡ n = omega arith in
    let low : ltb n (2 ^ 63) ≡ true = ground arith in rw (whole, low)

sum_pos : (a b c d : ℕ) → pos a +ℤ pos b +ℤ pos c +ℤ pos d ≡ pos (a + b + c + d)
unfolding ◌+ℤ◌
sum_pos a b c d = ground arith

sum_fits :
    (a b c d jc : ℕ)
    → a + b + c + d < 2 ^ 63
    → ltb_ℤ (pos jc) (wrap64 (pos a +ℤ pos b +ℤ pos c +ℤ pos d)) ≡ false
    → a + b + c + d ≤ jc
sum_fits a b c d jc small h =
    let same : wrap64 (pos a +ℤ pos b +ℤ pos c +ℤ pos d) ≡ pos (a + b + c + d) =
      ap wrap64 (sum_pos a b c d) ∙ wrap64-small (a + b + c + d) small in
    let h' : ltb_ℤ (pos jc) (pos (a + b + c + d)) ≡ false = ap (ltb_ℤ (pos jc)) (sym same) ∙ h in
    ground arith

counts_fit :
    (jc w x y z : ℤ)
    → ltb_ℤ w (pos 0) ≡ false
    → ltb_ℤ x (pos 0) ≡ false
    → ltb_ℤ y (pos 0) ≡ false
    → ltb_ℤ z (pos 0) ≡ false
    → (ltb_ℤ jc (pos 0) || ltb_ℤ (pos 20) jc) ≡ false
    → ltb_ℤ jc (wrap64 (w +ℤ x +ℤ y +ℤ z)) ≡ false
    → pos_part w + pos_part x + pos_part y + pos_part z < 2 ^ 63
    → (pos_part w + pos_part x + pos_part y + pos_part z ≤ pos_part jc) × (pos_part jc ≤ 20)
counts_fit (negsuc jc) w x y z hw hx hy hz g total small = ground arith
counts_fit (pos jc) (negsuc a) x y z hw hx hy hz g total small = ground arith
counts_fit (pos jc) (pos a) (negsuc b) y z hw hx hy hz g total small = ground arith
counts_fit (pos jc) (pos a) (pos b) (negsuc c) z hw hx hy hz g total small = ground arith
counts_fit (pos jc) (pos a) (pos b) (pos c) (negsuc d) hw hx hy hz g total small = ground arith
counts_fit (pos jc) (pos a) (pos b) (pos c) (pos d) hw hx hy hz g total small =
    (sum_fits a b c d jc small total, ground arith)

-- The counts of junk packets, if they are not so large that their sum wraps around.
pub junk_counts :
    (c : NoizeConfig)
    → validate_noize_config c ≡ none
    → pos_part c.jc_before_hs
        + pos_part c.jc_after_i1
        + pos_part c.jc_during_hs
        + pos_part c.jc_after_hs
      < 2 ^ 63
    → (pos_part c.jc_before_hs
          + pos_part c.jc_after_i1
          + pos_part c.jc_during_hs
          + pos_part c.jc_after_hs
        ≤ pos_part c.jc)
      × (pos_part c.jc ≤ 20)
unfolding junk_guards
junk_counts c valid small =
    counts_fit c.jc c.jc_before_hs c.jc_after_i1 c.jc_during_hs c.jc_after_hs
      (passed c 4 _ _ valid refl) (passed c 5 _ _ valid refl) (passed c 6 _ _ valid refl)
      (passed c 7 _ _ valid refl) (passed c 0 _ _ valid refl) (passed c 8 _ _ valid refl) small
