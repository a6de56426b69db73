-- ===== src/Config/Presets/Strong.antt =====
-- config/noize/presets.go: the presets heavy, stealth, gfw and firewall.
use vwarp.Prelude.{ℕ, true, false, List}
use vwarp.Prelude.Int.{pos}
use vwarp.Text.{codes}
use vwarp.Noize.{NoizeConfig}
use vwarp.Config.{AtomicNoizeConfig, UnifiedNoizeConfig}
use vwarp.Noize.Zero.{zero_noize}
use vwarp.Config.Presets.Zero.{zero_atomic, preset}

abbrev pub heavy_atomic : AtomicNoizeConfig
heavy_atomic = record zero_atomic {
  i1 = codes "<b 0xc200><t><r 32><p 64>";
  i2 = codes "<r 16>";
  i3 = codes "<r 24>";
  jc = pos 8;
  jmin = pos 60;
  jmax = pos 120;
  jc_after_i1 = pos 2;
  jc_before_hs = pos 3;
  jc_after_hs = pos 3;
  junk_interval = pos 15000000;
  allow_zero_size = false;
  handshake_delay = pos 25000000;
}

abbrev pub heavy_noize : NoizeConfig
heavy_noize = record zero_noize {
  i1 = codes "<b 0d0a0d0a><t><r 32><p 64>";
  i2 = codes "<r 16>";
  i3 = codes "<r 24>";
  jc = pos 6;
  jmin = pos 64;
  jmax = pos 128;
  jc_before_hs = pos 3;
  jc_after_i1 = pos 1;
  jc_during_hs = pos 1;
  jc_after_hs = pos 1;
  junk_interval = pos 20000000;
  junk_random = true;
  fragment_initial = true;
  fragment_size = pos 256;
  fragment_delay = pos 5000000;
  padding_min = pos 32;
  padding_max = pos 128;
  random_padding = true;
  handshake_delay = pos 50000000;
  random_delay = true;
  delay_min = pos 5000000;
  delay_max = pos 25000000;
  mimic_protocol = codes "https";
}

-- `createHeavyPreset`.
unfoldable pub heavy_preset : List ℕ → UnifiedNoizeConfig
heavy_preset now =
    preset now (codes "Heavy") (codes "Heavy obfuscation, higher latency, strong DPI evasion")
      (codes "heavy") heavy_atomic heavy_noize

abbrev pub stealth_atomic : AtomicNoizeConfig
stealth_atomic = record zero_atomic {
  i1 = codes "<b 0xc200><t><r 48><p 128>";
  i2 = codes "<r 32><t>";
  i3 = codes "<r 16><p 32>";
  i4 = codes "<r 24>";
  jc = pos 12;
  jmin = pos 80;
  jmax = pos 200;
  jc_after_i1 = pos 3;
  jc_before_hs = pos 4;
  jc_after_hs = pos 5;
  junk_interval = pos 25000000;
  allow_zero_size = false;
  handshake_delay = pos 50000000;
}

abbrev pub stealth_noize : NoizeConfig
stealth_noize = record zero_noize {
  i1 = codes "<b 0d0a0d0a><t><r 48><p 128>";
  i2 = codes "<r 32><t>";
  i3 = codes "<r 16><p 32>";
  i4 = codes "<r 24>";
  jc = pos 8;
  jmin = pos 100;
  jmax = pos 256;
  jc_before_hs = pos 4;
  jc_after_i1 = pos 1;
  jc_during_hs = pos 2;
  jc_after_hs = pos 1;
  junk_interval = pos 30000000;
  junk_random = true;
  fragment_initial = true;
  fragment_size = pos 200;
  fragment_delay = pos 10000000;
  padding_min = pos 64;
  padding_max = pos 200;
  random_padding = true;
  handshake_delay = pos 100000000;
  random_delay = true;
  delay_min = pos 10000000;
  delay_max = pos 50000000;
  mimic_protocol = codes "dtls";
  sni_fragmentation = true;
  sni_fragment = pos 32;
  use_timestamp = true;
  use_nonce = true;
}

-- `createStealthPreset`.
unfoldable pub stealth_preset : List ℕ → UnifiedNoizeConfig
stealth_preset now =
    preset now (codes "Stealth") (codes "Maximum stealth, advanced protocol mimicry")
      (codes "stealth") stealth_atomic stealth_noize

abbrev pub gfw_atomic : AtomicNoizeConfig
gfw_atomic = record zero_atomic {
  i1 = codes "<b 0x16030100><r 32><t>";
  i2 = codes "<r 16><b 0x140303>";
  jc = pos 6;
  jmin = pos 50;
  jmax = pos 100;
  jc_after_i1 = pos 1;
  jc_before_hs = pos 3;
  jc_after_hs = pos 2;
  junk_interval = pos 20000000;
  allow_zero_size = false;
  handshake_delay = pos 30000000;
}

abbrev pub gfw_noize : NoizeConfig
gfw_noize = record zero_noize {
  i1 = codes "<b 16030100><r 32><t>";
  i2 = codes "<r 16><b 140303>";
  jc = pos 5;
  jmin = pos 64;
  jmax = pos 120;
  jc_before_hs = pos 3;
  jc_after_i1 = pos 1;
  jc_during_hs = pos 1;
  jc_after_hs = pos 0;
  junk_interval = pos 25000000;
  junk_random = true;
  fragment_initial = true;
  fragment_size = pos 300;
  fragment_delay = pos 8000000;
  padding_min = pos 32;
  padding_max = pos 80;
  random_padding = true;
  handshake_delay = pos 40000000;
  random_delay = true;
  delay_min = pos 5000000;
  delay_max = pos 20000000;
  mimic_protocol = codes "https";
  sni_fragmentation = true;
  sni_fragment = pos 16;
  use_timestamp = false;
  use_nonce = true;
  randomize_initial = true;
}

-- `createGFWPreset`.
unfoldable pub gfw_preset : List ℕ → UnifiedNoizeConfig
gfw_preset now =
    preset now (codes "GFW") (codes "Optimized for Great Firewall bypass") (codes "gfw") gfw_atomic
      gfw_noize

abbrev pub firewall_atomic : AtomicNoizeConfig
firewall_atomic = record zero_atomic {
  i1 = codes "<b 0x45000028><r 20>";
  jc = pos 3;
  jmin = pos 30;
  jmax = pos 60;
  jc_after_i1 = pos 1;
  jc_before_hs = pos 1;
  jc_after_hs = pos 1;
  junk_interval = pos 15000000;
  allow_zero_size = false;
  handshake_delay = pos 20000000;
}

abbrev pub firewall_noize : NoizeConfig
firewall_noize = record zero_noize {
  i1 = codes "<b 45000028><r 20>";
  jc = pos 4;
  jmin = pos 32;
  jmax = pos 64;
  jc_before_hs = pos 2;
  jc_after_i1 = pos 1;
  jc_during_hs = pos 1;
  jc_after_hs = pos 0;
  junk_interval = pos 12000000;
  fragment_initial = false;
  padding_min = pos 16;
  padding_max = pos 48;
  handshake_delay = pos 25000000;
  mimic_protocol = codes "stun";
}

-- `createFirewallPreset`.
unfoldable pub firewall_preset : List ℕ → UnifiedNoizeConfig
firewall_preset now =
    preset now (codes "Firewall") (codes "Corporate firewall circumvention") (codes "firewall")
      firewall_atomic firewall_noize
