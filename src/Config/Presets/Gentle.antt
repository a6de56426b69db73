-- ===== src/Config/Presets/Gentle.antt =====
-- config/noize/presets.go: the presets minimal, light and medium.
use vwarp.Prelude.{ℕ, true, false, List, []}
use vwarp.Prelude.Int.{pos}
use vwarp.Text.{codes}
use vwarp.Noize.{NoizeConfig}
use vwarp.Config.{AtomicNoizeConfig, UnifiedNoizeConfig}
use vwarp.Noize.Zero.{zero_noize}
use vwarp.Config.Presets.Zero.{zero_atomic, preset}

abbrev pub minimal_atomic : AtomicNoizeConfig
minimal_atomic = record zero_atomic {
  i1 = [];
  jc = pos 0;
  jmin = pos 0;
  jmax = pos 0;
  jc_after_i1 = pos 0;
  jc_before_hs = pos 0;
  jc_after_hs = pos 0;
  junk_interval = pos 0;
  allow_zero_size = false;
  handshake_delay = pos 0;
}

abbrev pub minimal_noize : NoizeConfig
minimal_noize = record zero_noize {
  jc = pos 0;
  jmin = pos 0;
  jmax = pos 0;
  jc_before_hs = pos 0;
  jc_after_i1 = pos 0;
  jc_during_hs = pos 0;
  jc_after_hs = pos 0;
  junk_interval = pos 0;
  fragment_initial = false;
  fragment_size = pos 0;
  padding_min = pos 0;
  padding_max = pos 0;
  handshake_delay = pos 0;
}

-- `createMinimalPreset`.
unfoldable pub minimal_preset : List ℕ → UnifiedNoizeConfig
minimal_preset now =
    preset now (codes "Minimal") (codes "Minimal obfuscation, maximum performance")
      (codes "minimal") minimal_atomic minimal_noize

abbrev pub light_atomic : AtomicNoizeConfig
light_atomic = record zero_atomic {
  i1 = codes "<b 0c0d0e0f>";
  jc = pos 2;
  jmin = pos 20;
  jmax = pos 50;
  jc_after_i1 = pos 1;
  jc_before_hs = pos 1;
  jc_after_hs = pos 0;
  junk_interval = pos 10000000;
  allow_zero_size = false;
  handshake_delay = pos 5000000;
}

abbrev pub light_noize : NoizeConfig
light_noize = record zero_noize {
  i1 = codes "<b 0d0a0d0a>";
  jc = pos 2;
  jmin = pos 20;
  jmax = pos 50;
  jc_before_hs = pos 2;
  jc_after_i1 = pos 0;
  jc_during_hs = pos 0;
  jc_after_hs = pos 0;
  junk_interval = pos 5000000;
  fragment_initial = false;
  fragment_size = pos 0;
  padding_min = pos 0;
  padding_max = pos 0;
  handshake_delay = pos 10000000;
  mimic_protocol = codes "quic";
}

-- `createLightPreset`.
unfoldable pub light_preset : List ℕ → UnifiedNoizeConfig
light_preset now =
    preset now (codes "Light") (codes "Light obfuscation, good performance, basic DPI evasion")
      (codes "light") light_atomic light_noize

abbrev pub medium_atomic : AtomicNoizeConfig
medium_atomic = record zero_atomic {
  i1 = codes "<b 0xc200><t><r 16>";
  jc = pos 4;
  jmin = pos 40;
  jmax = pos 70;
  jc_after_i1 = pos 1;
  jc_before_hs = pos 2;
  jc_after_hs = pos 1;
  junk_interval = pos 10000000;
  allow_zero_size = false;
  handshake_delay = pos 10000000;
}

abbrev pub medium_noize : NoizeConfig
medium_noize = record zero_noize {
  i1 = codes "<b 0d0a0d0a><t><r 16>";
  jc = pos 3;
  jmin = pos 40;
  jmax = pos 80;
  jc_before_hs = pos 2;
  jc_after_i1 = pos 1;
  jc_during_hs = pos 0;
  jc_after_hs = pos 0;
  junk_interval = pos 10000000;
  fragment_initial = true;
  fragment_size = pos 512;
  fragment_delay = pos 2000000;
  padding_min = pos 16;
  padding_max = pos 32;
  random_padding = true;
  handshake_delay = pos 15000000;
  mimic_protocol = codes "h3";
}

-- `createMediumPreset`.
unfoldable pub medium_preset : List ℕ → UnifiedNoizeConfig
medium_preset now =
    preset now (codes "Medium") (codes "Balanced obfuscation and performance") (codes "medium")
      medium_atomic medium_noize
