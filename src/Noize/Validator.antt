-- ===== src/Noize/Validator.antt =====
-- config/noize/validator.go: `ValidateNoizeConfig` and the checks around it.
pub mod Sound
use vwarp.Prelude.{
  ℕ, zero, suc, ◌+◌, ◌-◌, ◌%◌, ◌^◌, ◌≤◌, ◌≡◌, refl, Bool, true, false, not, ◌&&◌, ◌||◌, List, [],
  ◌∷◌, ◌++◌, Option, none, some, length, map, ltb, leb, if◌then◌else◌,
}
use vwarp.Prelude.Int.{ℤ, pos, negsuc, ◌+ℤ◌, ◌-ℤ◌, ltb_ℤ}
use vwarp.Text.{codes, text_eq}
use vwarp.Noize.{NoizeConfig, Loss}

-- The errors, one for each message.
pub data ConfigError : Type 0 where
  jc_range jmin_negative jmax_below_jmin jmax_too_big : ConfigError
  jc_before_hs_negative jc_after_i1_negative jc_during_hs_negative jc_after_hs_negative jc_total :
      ConfigError
  fragment_size_negative fragment_size_small fragment_delay_negative : ConfigError
  padding_min_negative padding_max_below_min padding_max_too_big : ConfigError
  junk_interval_negative junk_interval_too_long handshake_delay_negative handshake_delay_too_long :
      ConfigError
  packet_delay_negative delay_range invalid_mimic sni_negative sni_small fake_loss_range :
      ConfigError
  signature_too_long s1_not_zero s2_not_zero : ConfigError
  no_protocol both_preset_and_config invalid_preset : ConfigError

-- Guards with early returns: the error of the first guard that holds.
unfoldable pub first_error : List (Bool × ConfigError) → Option ConfigError
first_error [] = none
first_error ((guard, e) ∷ rest) = if guard then some e else first_error rest

abbrev pub negative : ℤ → Bool
negative a = ltb_ℤ a (pos 0)

-- An `int` of 64 bits: the sum of the counts wraps around.
unfoldable pub wrap64 : ℤ → ℤ
wrap64 (pos n) = (let r = n % 2 ^ 64 in if ltb r (2 ^ 63) then pos r else negsuc (2 ^ 64 - r - 1))
wrap64 (negsuc n) =
    (let r = n % 2 ^ 64 in if ltb r (2 ^ 63) then negsuc r else pos (2 ^ 64 - r - 1))

-- `stringInSlice`.
unfoldable pub string_in_slice : List ℕ → List (List ℕ) → Bool
string_in_slice str [] = false
string_in_slice str (s ∷ slice) = text_eq s str || string_in_slice str slice

-- `isValidPreset`.
unfoldable pub is_valid_preset : List ℕ → Bool
is_valid_preset preset = string_in_slice preset (
    codes "minimal"
    ∷ codes "light"
    ∷ codes "medium"
    ∷ codes "heavy"
    ∷ codes "stealth"
    ∷ codes "gfw"
    ∷ codes "firewall"
    ∷ [])

-- `validateSignaturePacket`: its checks of the format all accept.
unfoldable pub signature_guard : List ℕ → Bool × ConfigError
signature_guard sig = (ltb 1000 (length sig), signature_too_long)

-- Whether a size that is set lies below the least one that is allowed.
set_below : ℤ → ℤ → Bool
set_below a least = ltb_ℤ (pos 0) a && ltb_ℤ a least

unfoldable pub junk_guards : NoizeConfig → List (Bool × ConfigError)
junk_guards c =
    (negative c.jc || ltb_ℤ (pos 20) c.jc, jc_range)
    ∷ (negative c.jmin, jmin_negative)
    ∷ (ltb_ℤ c.jmax c.jmin, jmax_below_jmin)
    ∷ (ltb_ℤ (pos 1400) c.jmax, jmax_too_big)
    ∷ (negative c.jc_before_hs, jc_before_hs_negative)
    ∷ (negative c.jc_after_i1, jc_after_i1_negative)
    ∷ (negative c.jc_during_hs, jc_during_hs_negative)
    ∷ (negative c.jc_after_hs, jc_after_hs_negative)
    ∷ (
      ltb_ℤ c.jc (wrap64 (c.jc_before_hs +ℤ c.jc_after_i1 +ℤ c.jc_during_hs +ℤ c.jc_after_hs)),
      jc_total,
    )
    ∷ []

unfoldable pub size_guards : NoizeConfig → List (Bool × ConfigError)
unfolding set_below
size_guards c =
    (negative c.fragment_size, fragment_size_negative)
    ∷ (set_below c.fragment_size (pos 64), fragment_size_small)
    ∷ (negative c.fragment_delay, fragment_delay_negative)
    ∷ (negative c.padding_min, padding_min_negative)
    ∷ (ltb_ℤ c.padding_max c.padding_min, padding_max_below_min)
    ∷ (ltb_ℤ (pos 500) c.padding_max, padding_max_too_big)
    ∷ []

-- The durations are in nanoseconds.
unfoldable pub timing_guards : NoizeConfig → List (Bool × ConfigError)
timing_guards c =
    (negative c.junk_interval, junk_interval_negative)
    ∷ (ltb_ℤ (pos 5000000000) c.junk_interval, junk_interval_too_long)
    ∷ (negative c.handshake_delay, handshake_delay_negative)
    ∷ (ltb_ℤ (pos 10000000000) c.handshake_delay, handshake_delay_too_long)
    ∷ (negative c.packet_delay, packet_delay_negative)
    ∷ (negative c.delay_min || ltb_ℤ c.delay_max c.delay_min, delay_range)
    ∷ []

unfoldable pub form_guards : NoizeConfig → List (Bool × ConfigError)
unfolding set_below
form_guards c =
    (
      not (text_eq c.mimic_protocol [])
          && not (
              string_in_slice c.mimic_protocol (
                codes "quic"
                ∷ codes "dns"
                ∷ codes "https"
                ∷ codes "h3"
                ∷ codes "dtls"
                ∷ codes "stun"
                ∷ [])),
      invalid_mimic,
    )
    ∷ (negative c.sni_fragment, sni_negative)
    ∷ (set_below c.sni_fragment (pos 8), sni_small)
    ∷ (c.fake_loss.below_zero || c.fake_loss.above_one, fake_loss_range)
    ∷ map signature_guard (c.i1 ∷ c.i2 ∷ c.i3 ∷ c.i4 ∷ c.i5 ∷ [])

-- `ValidateNoizeConfig`; `none` is success.
unfoldable pub validate_noize_config : NoizeConfig → Option ConfigError
validate_noize_config c =
    first_error (junk_guards c ++ size_guards c ++ timing_guards c ++ form_guards c)
