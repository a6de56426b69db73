-- ===== src/Noize/HandshakeExamples.antt =====
-- Noize/Cps, Noize/Sequence and Noize/Conn at concrete configurations.
use mathlib.Core.List.{flatten}
use vwarp.Prelude.{
  ℕ, ◌+◌, ◌≤◌, ◌≡◌, refl, true, false, List, [], ◌∷◌, Option, none, some, arith, length,
}
use vwarp.Prelude.Int.{pos, pos_part}
use vwarp.Text.{codes}
use vwarp.Noize.{NoizeConfig}
use vwarp.Noize.Validator.{ConfigError, jc_total, validate_noize_config}
use vwarp.Noize.Cps.{Draws, parse_cps_packet}
use vwarp.Noize.Cps.RoundTrip.{static_tags, parse_cps_packet-static_tags}
use vwarp.Noize.Sequence.{JunkDraws, execute_pre_handshake, execute_post_handshake}
use vwarp.Noize.Sequence.Bounded.{handshake_packets}
use vwarp.Noize.Write.{Write}
use vwarp.Noize.Conn.{wrap_udp_conn, NoizeUdpConn}
use vwarp.Noize.Conn.Presets.{
  gfw_bypass_config, firewall_bypass_config, minimal_obfuscation_config, default_config,
  light_obfuscation_config, heavy_obfuscation_config, stealth_obfuscation_config,
  no_obfuscation_config,
}

abbrev draws : Draws
draws = record { unix = 258; unix_nano = 1; noise = λ i j. j }

-- Bytes, a timestamp, two random bytes, and all of them under the key 1.
parse_tags :
    parse_cps_packet draws (codes "<b 0D 0a><t>?<r 2><x 1>")
    ≡ some (12 ∷ 11 ∷ 1 ∷ 1 ∷ 0 ∷ 3 ∷ 0 ∷ 1 ∷ [])
unfolding parse_cps_packet vwarp.Noize.Cps.apply_tags vwarp.Noize.Cps.find_tags
    vwarp.Noize.Cps.matched vwarp.Noize.Cps.scan_byte vwarp.Noize.Cps.is_tag_letter
    vwarp.Noize.Cps.apply_tag vwarp.Text.Trim.trim_back vwarp.Text.Trim.trim_front
    vwarp.Text.Trim.is_space vwarp.Noize.Cps.hex_decode vwarp.Noize.Cps.without_spaces
    vwarp.Noize.Cps.trim_prefix vwarp.Text.has_prefix vwarp.Noize.Cps.hex_byte
    vwarp.Noize.Cps.hex_value vwarp.Noize.Cps.apply_timed vwarp.Noize.Cps.key_byte
    vwarp.Preflight.put_uint32 vwarp.Noize.Cps.put_uint64 vwarp.Noize.Cps.random_length
    vwarp.Noize.random_bytes vwarp.Text.Decimal.atoi_value vwarp.Text.Decimal.is_digit
    vwarp.Text.Decimal.clamped_from
parse_tags = refl

parse_bad_hex : parse_cps_packet draws (codes "<b 0x1>") ≡ none
unfolding parse_cps_packet vwarp.Noize.Cps.apply_tags vwarp.Noize.Cps.find_tags
    vwarp.Noize.Cps.matched vwarp.Noize.Cps.scan_byte vwarp.Noize.Cps.is_tag_letter
    vwarp.Noize.Cps.apply_tag vwarp.Text.Trim.trim_back vwarp.Text.Trim.trim_front
    vwarp.Text.Trim.is_space vwarp.Noize.Cps.hex_decode vwarp.Noize.Cps.without_spaces
    vwarp.Noize.Cps.trim_prefix vwarp.Text.has_prefix
parse_bad_hex = refl

parse_cps_packet-static_tags_example :
    parse_cps_packet draws (static_tags ((1 ∷ 255 ∷ []) ∷ (16 ∷ []) ∷ []))
    ≡ some (1 ∷ 255 ∷ 16 ∷ [])
unfolding vwarp.Noize.Cps.RoundTrip.AllChunks flatten
parse_cps_packet-static_tags_example =
    parse_cps_packet-static_tags draws ((1 ∷ 255 ∷ []) ∷ (16 ∷ []) ∷ [])
      ((omega arith, (omega arith, tt)), ((omega arith, tt), tt))

accepted :
    (validate_noize_config default_config ≡ none)
    × (validate_noize_config light_obfuscation_config ≡ none)
    × (validate_noize_config heavy_obfuscation_config ≡ none)
    × (validate_noize_config stealth_obfuscation_config ≡ none)
    × (validate_noize_config gfw_bypass_config ≡ none)
    × (validate_noize_config no_obfuscation_config ≡ none)
unfolding validate_noize_config vwarp.Noize.Validator.first_error vwarp.Noize.Validator.junk_guards
    vwarp.Noize.Validator.wrap64 vwarp.Prelude.Int.◌+ℤ◌ vwarp.Noize.Validator.size_guards
    vwarp.Noize.Validator.timing_guards vwarp.Noize.Validator.form_guards vwarp.Text.text_eq
    vwarp.Noize.Validator.string_in_slice vwarp.Noize.Validator.signature_guard
accepted = (refl, refl, refl, refl, refl, refl)

refused :
    (validate_noize_config firewall_bypass_config ≡ some jc_total)
    × (validate_noize_config minimal_obfuscation_config ≡ some jc_total)
unfolding validate_noize_config vwarp.Noize.Validator.first_error vwarp.Noize.Validator.junk_guards
    vwarp.Noize.Validator.wrap64 vwarp.Prelude.Int.◌+ℤ◌
refused = (refl, refl)

abbrev junk : ℕ → JunkDraws
junk = λ i. record { size_draw = i; mimic_draw = i; bytes = λ j. j }

handshake_packets_example :
    (before after : List (List ℕ)) × (execute_pre_handshake true gfw_bypass_config (λ i. draws) junk
      ≡ some before)
    × (execute_post_handshake true gfw_bypass_config junk ≡ some after)
    × (length before + length after ≤ pos_part gfw_bypass_config.jc + 5)
    × (pos_part gfw_bypass_config.jc ≤ 20)
handshake_packets_example =
    handshake_packets gfw_bypass_config (λ i. draws) junk junk accepted.4 (omega arith)

abbrev off_conn : NoizeUdpConn
off_conn = record (wrap_udp_conn gfw_bypass_config) { enabled = false }

abbrev some_write : Write
some_write = record {
  packet = 192 ∷ 1 ∷ [];
  addr = codes "1.1.1.1:443";
  padding_draw = 0;
  padding_noise = λ i. i;
  wrapper_draw = 0;
  wrapper_noise = λ i. i;
}
