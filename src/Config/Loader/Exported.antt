-- ===== src/Config/Loader/Exported.antt =====
-- A preset that is saved to a file, as in config/noize/loader.go.
use mathlib.Core.Path.{subst}
use mathlib.Core.Option.{some-injective}
use vwarp.Prelude.{ℕ, List, Option, none, some, ◌≡◌, Option-cases, inl, inr, arith}
use vwarp.Config.{UnifiedNoizeConfig, ConfigMetadata, validate}
use vwarp.Config.Presets.{get_preset}
use vwarp.Config.Presets.Rejected.{preset_rejected}
use vwarp.Config.Loader.{load_from_file, exported}
use vwarp.Noize.Validator.{ConfigError, both_preset_and_config}

load-refused :
    (read : List ℕ → Option UnifiedNoizeConfig)
    → (path : List ℕ) → (c : UnifiedNoizeConfig) → (e : ConfigError) → read path ≡ some c
    → (validate c).1 ≡ some e
    → load_from_file read path ≡ none
unfolding load_from_file vwarp.Config.Loader.accepted
load-refused read path c e there refused = rw (there, refused)

-- Of a configuration that is some other one with new metadata, `Validate` says the same.
relabelled-refused :
    (d c : UnifiedNoizeConfig)
    → (m : Option ConfigMetadata) → (e : ConfigError) → some (record d { metadata = m }) ≡ some c
    → (validate d).1 ≡ some e
    → (validate c).1 ≡ some e
unfolding validate vwarp.Config.with_version
relabelled-refused d c m e same refused =
    subst (λ x. (validate x).1 ≡ some e) (some-injective _ _ same) refused

-- When the content of a file is what exporting a preset has saved there, for any preset name and any
-- time, loading the file fails.
pub exported_unloadable :
    (read : List ℕ → Option UnifiedNoizeConfig)
    → (path now name : List ℕ) → (c : UnifiedNoizeConfig) → exported now name ≡ some c
    → read path ≡ some c
    → load_from_file read path ≡ none
unfolding exported
exported_unloadable read path now name c is_exported there =
    elim (Option-cases (get_preset now name)) [
      | inl missing ↦ ground (arith, rw missing at is_exported)
      | inr (d, h) ↦ load-refused read path c both_preset_and_config there (
          relabelled-refused d c _ both_preset_and_config (rw h at is_exported)
            (preset_rejected now name d h).0)
    ]
