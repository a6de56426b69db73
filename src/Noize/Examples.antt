-- ===== src/Noize/Examples.antt =====
-- Runs of masque/noize/noize.go, and the theorems at concrete packets.
use vwarp.Prelude.{
  ℕ, ◌+◌, ◌≤◌, ◌%◌, ◌≡◌, refl, true, false, List, [], ◌∷◌, ◌++◌, none, some, length, take, max,
  replicate,
}
use vwarp.Prelude.Int.{pos, ◌+ℤ◌, ◌-ℤ◌}
use vwarp.Text.{codes, text_eq}
use vwarp.Noize.{NoizeConfig, intn}
use vwarp.Noize.Packet.{add_padding, generate_junk_packet}
use vwarp.Noize.Validator.{
  validate_noize_config, first_error, junk_guards, wrap64, size_guards, timing_guards, form_guards,
  string_in_slice, signature_guard,
}
use vwarp.Noize.Validator.Sound.{validate_noize_config-sizes}
use vwarp.Noize.Write.{Write, new, obfuscate_all}
use vwarp.Noize.Write.Once.{bit, any, reaches, finishes, pre_count, post_count, obfuscate_all-once}
use vwarp.Noize.Write.Total.{obfuscate_all-valid}

-- The configuration `heavy` of the presets in shape: junk, padding, fragments and wrapping are on.
abbrev config : NoizeConfig
config = record {
  i1 = codes "<b 0xc0ff>";
  i2 = [];
  i3 = [];
  i4 = [];
  i5 = [];
  fragment_size = pos 64;
  fragment_initial = true;
  fragment_delay = pos 2000000;
  padding_min = pos 16;
  padding_max = pos 64;
  random_padding = true;
  jc = pos 5;
  jmin = pos 64;
  jmax = pos 256;
  jc_before_hs = pos 2;
  jc_after_i1 = pos 1;
  jc_during_hs = pos 1;
  jc_after_hs = pos 1;
  junk_interval = pos 5000000;
  junk_random = true;
  mimic_protocol = codes "h3";
  custom_wrapper = false;
  handshake_delay = pos 10000000;
  packet_delay = pos 0;
  random_delay = true;
  delay_min = pos 1000000;
  delay_max = pos 10000000;
  sni_fragmentation = true;
  sni_fragment = pos 32;
  fake_alpn = [];
  reversed_order = false;
  duplicate_packets = false;
  allow_zero_size = false;
  use_timestamp = true;
  use_nonce = true;
  randomize_initial = true;
  fake_loss = record { below_zero = false; above_one = false; is_none = true };
}

abbrev noise : ℕ → ℕ
noise i = i % 256

abbrev packet : List ℕ
packet = replicate 100 7

abbrev first_write : Write
first_write = record {
  packet = 0xc0 ∷ replicate 99 7;
  addr = codes "162.159.192.1:443";
  padding_draw = 30;
  padding_noise = noise;
  wrapper_draw = 1;
  wrapper_noise = noise;
}

abbrev second_write : Write
second_write = record first_write { packet = 0x40 ∷ replicate 30 9 }

abbrev writes : List Write
writes = first_write ∷ second_write ∷ second_write ∷ []

accepted : validate_noize_config config ≡ none
unfolding validate_noize_config first_error junk_guards wrap64 ◌+ℤ◌ size_guards timing_guards
    form_guards text_eq string_in_slice signature_guard
accepted = refl

obfuscate_all-valid_example : (obfuscate_all (new config) writes).2 ≡ []
obfuscate_all-valid_example = obfuscate_all-valid config writes accepted

obfuscate_all-once_example :
    (done : List Write) × (writes ≡ done ++ (obfuscate_all (new config) writes).2)
    × (pre_count (codes "162.159.192.1:443") (obfuscate_all (new config) writes).1
        ≡ bit (any (reaches (codes "162.159.192.1:443")) done))
    × (post_count (codes "162.159.192.1:443") (obfuscate_all (new config) writes).1
        ≡ bit (any (finishes (codes "162.159.192.1:443")) done))
obfuscate_all-once_example = obfuscate_all-once config writes (codes "162.159.192.1:443")

validate_noize_config-sizes_example :
    ((padded : List ℕ) × (add_padding config 30 noise packet ≡ some padded)
      × (take (length packet) padded ≡ packet)
      × (length padded ≤ length packet + 500)
      × (length padded ≤ max (length packet) 1200))
    × ((junk : List ℕ) × (generate_junk_packet config 30 5 noise ≡ some junk)
        × (length junk ≤ 1400))
validate_noize_config-sizes_example = validate_noize_config-sizes config packet 30 5 noise accepted

add_padding_panics :
    add_padding (record config { padding_max = pos 8 }) 3 noise (replicate 20 1) ≡ none
unfolding add_padding intn ◌+ℤ◌ ◌-ℤ◌
add_padding_panics = refl

-- Four counts of 2 ^ 62 wrap around to the sum 0.
overflow_accepted :
    validate_noize_config (record config {
      jc_before_hs = pos 4611686018427387904;
      jc_after_i1 = pos 4611686018427387904;
      jc_during_hs = pos 4611686018427387904;
      jc_after_hs = pos 4611686018427387904;
    })
    ≡ none
unfolding validate_noize_config first_error junk_guards wrap64 ◌+ℤ◌ size_guards timing_guards
    form_guards text_eq string_in_slice signature_guard
overflow_accepted = refl
