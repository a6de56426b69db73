-- ===== src/Config/Presets/Zero.antt =====
-- config/noize/presets.go: what all presets start from.
use vwarp.Prelude.{ℕ, true, false, List, [], some}
use vwarp.Prelude.Int.{pos}
use vwarp.Text.{codes}
use vwarp.Noize.{NoizeConfig}
use vwarp.Config.{AtomicNoizeConfig, UnifiedNoizeConfig}

-- The zero value of `AtomicNoizeConfig`.
abbrev pub zero_atomic : AtomicNoizeConfig
zero_atomic = record {
  i1 = [];
  i2 = [];
  i3 = [];
  i4 = [];
  i5 = [];
  s1 = pos 0;
  s2 = pos 0;
  jc = pos 0;
  jmin = pos 0;
  jmax = pos 0;
  jc_after_i1 = pos 0;
  jc_before_hs = pos 0;
  jc_after_hs = pos 0;
  junk_interval = pos 0;
  allow_zero_size = false;
  handshake_delay = pos 0;
}

-- `NewUnifiedConfig`, with the metadata and the two parts that every preset sets.
unfoldable pub preset :
    List ℕ → List ℕ → List ℕ → List ℕ → AtomicNoizeConfig → NoizeConfig → UnifiedNoizeConfig
preset now title description id atomic noize = record {
  version = codes "1.0";
  wire_guard = some (record { enabled = true; preset = id; atomic_noize = some atomic });
  masque = some (record { enabled = true; preset = id; config = some noize });
  metadata =
      some (record { name = title; description = description; author = []; created_at = now });
}
