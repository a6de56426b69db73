-- ===== src/Noize/Conn/Presets.antt =====
-- The configurations of masque/noize/conn.go, and `DefaultConfig` of noize.go, which is also its
-- `MediumObfuscationConfig`. Durations are in nanoseconds.
use vwarp.Prelude.{true, false, []}
use vwarp.Prelude.Int.{pos}
use vwarp.Text.{codes}
use vwarp.Noize.{NoizeConfig}
use vwarp.Noize.Zero.{zero_noize}

-- `DefaultConfig`.
abbrev pub default_config : NoizeConfig
default_config = record zero_noize {
  i1 = codes "<b 0d0a0d0a><t><r 16>";
  fragment_size = pos 512;
  fragment_initial = true;
  fragment_delay = pos 2000000;
  padding_min = pos 16;
  padding_max = pos 64;
  random_padding = true;
  jc = pos 5;
  jmin = pos 64;
  jmax = pos 256;
  jc_before_hs = pos 2;
  jc_after_i1 = pos 1;
  jc_during_hs = pos 1;
  jc_after_hs = pos 1;
  junk_interval = pos 5000000;
  junk_random = true;
  mimic_protocol = codes "h3";
  handshake_delay = pos 10000000;
  random_delay = true;
  delay_min = pos 1000000;
  delay_max = pos 10000000;
  sni_fragmentation = true;
  sni_fragment = pos 32;
  use_timestamp = true;
  use_nonce = true;
  randomize_initial = true;
  allow_zero_size = false;
}

-- `LightObfuscationConfig`.
abbrev pub light_obfuscation_config : NoizeConfig
light_obfuscation_config = record zero_noize {
  i1 = codes "<b 474554202f20485454502f312e31><r 8>";
  fragment_initial = false;
  padding_min = pos 0;
  padding_max = pos 0;
  random_padding = false;
  jc = pos 8;
  jc_before_hs = pos 2;
  jc_after_i1 = pos 1;
  jc_during_hs = pos 2;
  jc_after_hs = pos 3;
  jmin = pos 40;
  jmax = pos 120;
  junk_interval = pos 3000000;
  junk_random = true;
  handshake_delay = pos 5000000;
  mimic_protocol = [];
  random_delay = true;
  delay_min = pos 1000000;
  delay_max = pos 5000000;
  sni_fragmentation = true;
  use_timestamp = false;
  use_nonce = true;
  randomize_initial = true;
  allow_zero_size = false;
}

-- `FirewallBypassConfig`.
abbrev pub firewall_bypass_config : NoizeConfig
firewall_bypass_config = record zero_noize {
  i1 = codes "<b 0d0a0d0a><t><r 24>";
  i2 = codes "<r 48>";
  fragment_size = pos 1200;
  fragment_initial = false;
  fragment_delay = pos 2000000;
  padding_min = pos 2;
  padding_max = pos 6;
  random_padding = false;
  jc = pos 6;
  jmin = pos 48;
  jmax = pos 190;
  jc_before_hs = pos 2;
  jc_after_i1 = pos 2;
  jc_during_hs = pos 2;
  jc_after_hs = pos 2;
  junk_interval = pos 4000000;
  junk_random = true;
  mimic_protocol = [];
  handshake_delay = pos 5000000;
  random_delay = true;
  delay_min = pos 2000000;
  delay_max = pos 12000000;
  sni_fragmentation = false;
  sni_fragment = pos 12;
  use_timestamp = false;
  use_nonce = true;
  randomize_initial = false;
  duplicate_packets = false;
  fake_loss = record { below_zero = false; above_one = false; is_none = false };
}

-- `HeavyObfuscationConfig`.
abbrev pub heavy_obfuscation_config : NoizeConfig
heavy_obfuscation_config = record zero_noize {
  i1 = codes "<b 0d0a0d0a><t><r 32>";
  i2 = codes "<b 474554202f20485454502f312e31><r 16>";
  i3 = codes "<r 64>";
  fragment_size = pos 1280;
  fragment_initial = true;
  fragment_delay = pos 3000000;
  padding_min = pos 3;
  padding_max = pos 12;
  random_padding = true;
  jc = pos 10;
  jmin = pos 128;
  jmax = pos 512;
  jc_before_hs = pos 3;
  jc_after_i1 = pos 2;
  jc_during_hs = pos 2;
  jc_after_hs = pos 3;
  junk_interval = pos 8000000;
  junk_random = true;
  mimic_protocol = [];
  handshake_delay = pos 20000000;
  random_delay = true;
  delay_min = pos 2000000;
  delay_max = pos 15000000;
  sni_fragmentation = true;
  sni_fragment = pos 16;
  use_timestamp = true;
  use_nonce = true;
  randomize_initial = true;
}

-- `StealthObfuscationConfig`.
abbrev pub stealth_obfuscation_config : NoizeConfig
stealth_obfuscation_config = record zero_noize {
  i1 = codes "<b 160301><r 2><b 0100>";
  mimic_protocol = [];
  padding_min = pos 16;
  padding_max = pos 18;
  random_padding = false;
  jc = pos 3;
  jmin = pos 40;
  jmax = pos 200;
  jc_before_hs = pos 1;
  jc_after_i1 = pos 1;
  jc_after_hs = pos 1;
  junk_interval = pos 10000000;
  handshake_delay = pos 15000000;
  random_delay = true;
  delay_min = pos 5000000;
  delay_max = pos 25000000;
  use_timestamp = false;
  randomize_initial = false;
}

-- `GFWBypassConfig`.
abbrev pub gfw_bypass_config : NoizeConfig
gfw_bypass_config = record zero_noize {
  i1 = codes "<b 0d0a0d0a><t><r 24>";
  i2 = codes "<r 48>";
  fragment_size = pos 1200;
  fragment_initial = false;
  fragment_delay = pos 3000000;
  padding_min = pos 8;
  padding_max = pos 12;
  random_padding = true;
  jc = pos 8;
  jmin = pos 64;
  jmax = pos 384;
  jc_before_hs = pos 3;
  jc_after_i1 = pos 2;
  jc_during_hs = pos 2;
  jc_after_hs = pos 1;
  junk_interval = pos 3000000;
  junk_random = true;
  mimic_protocol = [];
  handshake_delay = pos 25000000;
  random_delay = true;
  delay_min = pos 1000000;
  delay_max = pos 20000000;
  sni_fragmentation = true;
  sni_fragment = pos 8;
  use_timestamp = true;
  use_nonce = true;
  randomize_initial = true;
  duplicate_packets = false;
  fake_loss = record { below_zero = false; above_one = false; is_none = false };
}

-- `NoObfuscationConfig`.
abbrev pub no_obfuscation_config : NoizeConfig
no_obfuscation_config = record zero_noize {
  jc = pos 0;
  fragment_initial = false;
  padding_min = pos 0;
  padding_max = pos 0;
  handshake_delay = pos 0;
}

-- `MinimalObfuscationConfig`.
abbrev pub minimal_obfuscation_config : NoizeConfig
minimal_obfuscation_config = record zero_noize {
  i1 = codes "<b 474554202f20485454502f312e31><r 8>";
  fragment_size = pos 1280;
  fragment_initial = true;
  fragment_delay = pos 3000000;
  padding_min = pos 1;
  padding_max = pos 0;
  random_padding = false;
  jc = pos 8;
  jc_before_hs = pos 3;
  jc_after_i1 = pos 2;
  jc_during_hs = pos 3;
  jc_after_hs = pos 4;
  jmin = pos 40;
  jmax = pos 1285;
  junk_interval = pos 5000000;
  junk_random = true;
  handshake_delay = pos 5000000;
  mimic_protocol = [];
  random_delay = true;
  delay_min = pos 5000000;
  delay_max = pos 15000000;
  sni_fragmentation = true;
  use_timestamp = true;
  use_nonce = true;
  randomize_initial = true;
  allow_zero_size = true;
}
