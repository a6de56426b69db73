-- ===== src/Config/Examples.antt =====
-- Config/Presets, Config/Loader and the validators at concrete configurations.
use vwarp.Prelude.{ℕ, zero, Bool, true, false, List, [], ◌∷◌, Option, none, some, ◌≡◌, refl, arith}
use vwarp.Prelude.Int.{ℤ, pos}
use vwarp.Text.{codes}
use vwarp.Noize.{NoizeConfig}
use vwarp.Noize.Packet.{add_padding}
use vwarp.Noize.Validator.{both_preset_and_config, jc_total, validate_noize_config}
use vwarp.Config.{UnifiedNoizeConfig, validate, validate_config}
use vwarp.Config.Presets.{get_preset}
use vwarp.Noize.Zero.{zero_noize}
use vwarp.Config.Presets.Strong.{gfw_preset}
use vwarp.Config.Presets.Rejected.{preset_rejected}
use vwarp.Config.Loader.{exported, merge_noize_config, save_dir}
use vwarp.Config.Loader.Unchecked.{merge_panics}

abbrev now : List ℕ
now = codes "2025-01-01"

abbrev name : List ℕ
name = codes " GFW"

gfw_there : get_preset now name ≡ some (gfw_preset now)
unfolding get_preset vwarp.Text.Trim.trim_front vwarp.Text.Trim.trim_back
    vwarp.Config.Presets.find_preset vwarp.Config.Presets.builtin_presets vwarp.Text.text_eq
    vwarp.Text.Trim.is_space vwarp.Adapter.to_lower
gfw_there = refl

preset_rejected_example :
    ((validate (gfw_preset now)).1 ≡ some both_preset_and_config)
    × ((validate_config (gfw_preset now)).1 ≡ some both_preset_and_config)
preset_rejected_example = preset_rejected now name (gfw_preset now) gfw_there

-- The file `vwarp.json` has a directory to create only behind a separator.
save_dir_panics : save_dir (codes "vwarp.json") ≡ none
unfolding save_dir
save_dir_panics = refl

save_dir_parent : save_dir (codes "out/vwarp.json") ≡ some (codes "out")
unfolding save_dir
save_dir_parent = refl

abbrev wide : NoizeConfig
wide = record zero_noize { padding_min = pos 20; padding_max = pos 80; random_padding = true }

abbrev narrow : NoizeConfig
narrow = record zero_noize { padding_max = pos 10; random_padding = true }

wide-valid : validate_noize_config wide ≡ none
unfolding validate_noize_config vwarp.Noize.Validator.first_error vwarp.Noize.Validator.junk_guards
    vwarp.Noize.Validator.wrap64 vwarp.Prelude.Int.◌+ℤ◌ vwarp.Noize.Validator.size_guards
    vwarp.Noize.Validator.timing_guards vwarp.Noize.Validator.form_guards vwarp.Text.text_eq
    vwarp.Noize.Validator.signature_guard
wide-valid = refl

narrow-valid : validate_noize_config narrow ≡ none
unfolding validate_noize_config vwarp.Noize.Validator.first_error vwarp.Noize.Validator.junk_guards
    vwarp.Noize.Validator.wrap64 vwarp.Prelude.Int.◌+ℤ◌ vwarp.Noize.Validator.size_guards
    vwarp.Noize.Validator.timing_guards vwarp.Noize.Validator.form_guards vwarp.Text.text_eq
    vwarp.Noize.Validator.signature_guard
narrow-valid = refl

abbrev packet : List ℕ
packet = 192 ∷ 1 ∷ 2 ∷ 3 ∷ 4 ∷ 5 ∷ 6 ∷ 7 ∷ 8 ∷ 9 ∷ 10 ∷ 11 ∷ 12 ∷ 13 ∷ 14 ∷ 15 ∷ 16 ∷ []

merge_panics_example : add_padding (merge_noize_config wide narrow) 3 (λ i. i) packet ≡ none
merge_panics_example =
    merge_panics wide narrow 20 9 wide-valid narrow-valid refl refl refl refl (omega arith) 3
      (λ i. i) packet (omega arith)

abbrev saved : UnifiedNoizeConfig
saved = record (gfw_preset now) {
  metadata = some (record {
    name = codes "GFW";
    description = codes "Exported  GFW preset for customization";
    author = [];
    created_at = now;
  });
}

saved-exported : exported now name ≡ some saved
unfolding exported get_preset vwarp.Config.Presets.find_preset vwarp.Config.Presets.builtin_presets
    vwarp.Text.text_eq vwarp.Text.Trim.trim_back vwarp.Text.Trim.trim_front vwarp.Text.Trim.is_space
    vwarp.Adapter.to_lower gfw_preset vwarp.Config.Presets.Zero.preset
saved-exported = refl
