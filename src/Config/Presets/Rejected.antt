-- ===== src/Config/Presets/Rejected.antt =====
-- About config/noize/presets.go and the two validators: every preset names itself beside a custom
-- configuration, which both validators refuse.
use vwarp.Prelude.{ℕ, Bool, true, false, List, [], ◌∷◌, Option, some, ◌≡◌, refl, map, if◌then◌else◌}
use mathlib.Core.Path.{subst}
use native.Mathlib.Omega.{arith}
use mathlib.Core.Option.{some-injective}
use vwarp.Text.{text_eq}
use vwarp.Adapter.{to_lower}
use vwarp.Config.{UnifiedNoizeConfig, validate, validate_config, AtomicNoizeConfig}
use vwarp.Noize.{NoizeConfig}
use vwarp.Noize.Validator.{ConfigError, both_preset_and_config}
use vwarp.Text.Trim.{trim_front, trim_back}
use vwarp.Config.Presets.{get_preset, find_preset, builtin_presets}
use vwarp.Config.Presets.Zero.{preset}

IsRejected : UnifiedNoizeConfig → Type 0
IsRejected c =
    ((validate c).1 ≡ some both_preset_and_config)
    × ((validate_config c).1 ≡ some both_preset_and_config)

AllRejected : List (List ℕ × UnifiedNoizeConfig) → Type 0
AllRejected [] = Unit
AllRejected ((n, c) ∷ l) = IsRejected c × AllRejected l

preset-IsRejected :
    (now title description : List ℕ)
    → (c : ℕ) → (id : List ℕ) → (atomic : AtomicNoizeConfig) → (noize : NoizeConfig)
    → IsRejected (preset now title description (c ∷ id) atomic noize)
unfolding IsRejected validate validate_config preset vwarp.Noize.Validator.first_error text_eq
    vwarp.Config.wire_guard_enabled vwarp.Config.validate_wire_guard_config
preset-IsRejected now title description c id atomic noize = (refl, refl)

found-IsRejected :
    (b : Bool)
    → (d : UnifiedNoizeConfig) → (rest : Option UnifiedNoizeConfig) → (c : UnifiedNoizeConfig)
    → IsRejected d
    → (rest ≡ some c → IsRejected c)
    → (if b then some d else rest) ≡ some c
    → IsRejected c
found-IsRejected true d rest c first later h = subst IsRejected (some-injective _ _ h) first
found-IsRejected false d rest c first later h = later h

find_preset-IsRejected :
    (name : List ℕ)
    → (l : List (List ℕ × UnifiedNoizeConfig)) → AllRejected l
    → (c : UnifiedNoizeConfig) → find_preset name l ≡ some c
    → IsRejected c
unfolding AllRejected find_preset
find_preset-IsRejected name [] all c h = ground arith
find_preset-IsRejected name ((n, d) ∷ l) all c h =
    found-IsRejected (text_eq n name) d (find_preset name l) c all.0
      (find_preset-IsRejected name l all.1 c) h

presets-AllRejected : (now : List ℕ) → AllRejected (builtin_presets now)
unfolding AllRejected builtin_presets vwarp.Config.Presets.Gentle.minimal_preset
    vwarp.Config.Presets.Gentle.light_preset vwarp.Config.Presets.Gentle.medium_preset
    vwarp.Config.Presets.Strong.heavy_preset vwarp.Config.Presets.Strong.stealth_preset
    vwarp.Config.Presets.Strong.gfw_preset vwarp.Config.Presets.Strong.firewall_preset
presets-AllRejected now = search preset-IsRejected

-- Every configuration that `GetPreset` returns, for any name and any time, is refused by `Validate`
-- and by `ValidateConfig`, which both say that it has a preset name and a custom configuration.
pub preset_rejected :
    (now name : List ℕ)
    → (c : UnifiedNoizeConfig) → get_preset now name ≡ some c
    → ((validate c).1 ≡ some both_preset_and_config)
      × ((validate_config c).1 ≡ some both_preset_and_config)
unfolding get_preset IsRejected
preset_rejected now name c h =
    find_preset-IsRejected (map to_lower (trim_back (trim_front name))) (builtin_presets now)
      (presets-AllRejected now) c h
