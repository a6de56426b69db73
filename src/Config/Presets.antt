-- ===== src/Config/Presets.antt =====
-- config/noize/presets.go: the built-in presets. A preset is a function of the time at which it is
-- created, which its metadata has in printed form. Durations are in nanoseconds. The copy by way of
-- JSON that `GetPreset` makes is equal to what it copies, and is left out.
pub mod Zero
pub mod Gentle
pub mod Strong
pub mod Rejected
use vwarp.Prelude.{
  ℕ, ◌+◌, Bool, true, false, ◌||◌, ◌&&◌, List, [], ◌∷◌, Option, none, some, ◌==◌, leb, map,
  if◌then◌else◌,
}
use vwarp.Text.{codes, text_eq}
use vwarp.Text.Trim.{trim_front, trim_back}
use vwarp.Adapter.{to_lower}
use vwarp.Config.{UnifiedNoizeConfig}
use vwarp.Config.Presets.Gentle.{minimal_preset, light_preset, medium_preset}
use vwarp.Config.Presets.Strong.{heavy_preset, stealth_preset, gfw_preset, firewall_preset}

-- `builtinPresets`.
unfoldable pub builtin_presets : List ℕ → List (List ℕ × UnifiedNoizeConfig)
builtin_presets now =
    (codes "minimal", minimal_preset now)
    ∷ (codes "light", light_preset now)
    ∷ (codes "medium", medium_preset now)
    ∷ (codes "heavy", heavy_preset now)
    ∷ (codes "stealth", stealth_preset now)
    ∷ (codes "gfw", gfw_preset now)
    ∷ (codes "firewall", firewall_preset now)
    ∷ []

unfoldable pub find_preset : List ℕ → List (List ℕ × UnifiedNoizeConfig) → Option UnifiedNoizeConfig
find_preset name [] = none
find_preset name ((n, c) ∷ rest) = if text_eq n name then some c else find_preset name rest

-- `GetPreset`.
unfoldable pub get_preset : List ℕ → List ℕ → Option UnifiedNoizeConfig
get_preset now name = find_preset (map to_lower (trim_back (trim_front name))) (builtin_presets now)
