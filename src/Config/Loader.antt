-- ===== src/Config/Loader.antt =====
-- config/noize/loader.go: merging a configuration over another one. `deepCopy` is equal to what it
-- copies (its texts are valid UTF-8) and is left out; a field that is merged in place is a new record
-- here. Reading the file is a parameter.
pub mod Laws
pub mod Unchecked
pub mod Exported
use vwarp.Prelude.{
  ℕ, ◌+◌, Bool, true, false, ◌||◌, List, [], ◌∷◌, ◌++◌, Option, none, some, ◌==◌, ◌>>=◌,
  if◌then◌else◌, take, length,
}
use mathlib.Core.Option
use vwarp.Prelude.Int.{ℤ, pos}
use vwarp.Text.{codes, text_eq}
use vwarp.Noize.{NoizeConfig, Loss}
use vwarp.Noize.Validator.{ConfigError}
use vwarp.Config.{
  AtomicNoizeConfig, ConfigMetadata, WireGuardNoize, MasqueNoize, UnifiedNoizeConfig, is_nonzero,
  validate,
}
use vwarp.Config.Presets.{get_preset}
use vwarp.Noize.Zero.{zero_noize}
use vwarp.Config.Presets.Zero.{zero_atomic}

-- An overriding number, text, list or loss counts when it is not the zero value.
unfoldable pub or_number : ℤ → ℤ → ℤ
unfolding is_nonzero
or_number base override = if is_nonzero override then override else base

unfoldable pub or_text : List ℕ → List ℕ → List ℕ
or_text base [] = base
or_text base (c ∷ s) = c ∷ s

unfoldable pub or_list : List (List ℕ) → List (List ℕ) → List (List ℕ)
or_list base [] = base
or_list base (x ∷ l) = x ∷ l

unfoldable pub or_loss : Loss → Loss → Loss
or_loss base override = if override.is_none then base else override

-- `mergeMetadata`.
unfoldable pub merge_metadata : ConfigMetadata → ConfigMetadata → ConfigMetadata
merge_metadata b o = record {
  name = or_text b.name o.name;
  description = or_text b.description o.description;
  author = or_text b.author o.author;
  created_at = or_text b.created_at o.created_at;
}

-- `mergeAtomicNoizeConfig`.
unfoldable pub merge_atomic_noize_config : AtomicNoizeConfig → AtomicNoizeConfig → AtomicNoizeConfig
merge_atomic_noize_config b o = record {
  i1 = or_text b.i1 o.i1;
  i2 = or_text b.i2 o.i2;
  i3 = or_text b.i3 o.i3;
  i4 = or_text b.i4 o.i4;
  i5 = or_text b.i5 o.i5;
  s1 = or_number b.s1 o.s1;
  s2 = or_number b.s2 o.s2;
  jc = or_number b.jc o.jc;
  jmin = or_number b.jmin o.jmin;
  jmax = or_number b.jmax o.jmax;
  jc_after_i1 = or_number b.jc_after_i1 o.jc_after_i1;
  jc_before_hs = or_number b.jc_before_hs o.jc_before_hs;
  jc_after_hs = or_number b.jc_after_hs o.jc_after_hs;
  junk_interval = or_number b.junk_interval o.junk_interval;
  allow_zero_size = o.allow_zero_size;
  handshake_delay = or_number b.handshake_delay o.handshake_delay;
}

-- `mergeNoizeConfig`.
unfoldable pub merge_noize_config : NoizeConfig → NoizeConfig → NoizeConfig
merge_noize_config b o = record {
  i1 = or_text b.i1 o.i1;
  i2 = or_text b.i2 o.i2;
  i3 = or_text b.i3 o.i3;
  i4 = or_text b.i4 o.i4;
  i5 = or_text b.i5 o.i5;
  fragment_size = or_number b.fragment_size o.fragment_size;
  fragment_initial = o.fragment_initial;
  fragment_delay = or_number b.fragment_delay o.fragment_delay;
  padding_min = or_number b.padding_min o.padding_min;
  padding_max = or_number b.padding_max o.padding_max;
  random_padding = o.random_padding;
  jc = or_number b.jc o.jc;
  jmin = or_number b.jmin o.jmin;
  jmax = or_number b.jmax o.jmax;
  jc_before_hs = or_number b.jc_before_hs o.jc_before_hs;
  jc_after_i1 = or_number b.jc_after_i1 o.jc_after_i1;
  jc_during_hs = or_number b.jc_during_hs o.jc_during_hs;
  jc_after_hs = or_number b.jc_after_hs o.jc_after_hs;
  junk_interval = or_number b.junk_interval o.junk_interval;
  junk_random = o.junk_random;
  mimic_protocol = or_text b.mimic_protocol o.mimic_protocol;
  custom_wrapper = o.custom_wrapper;
  handshake_delay = or_number b.handshake_delay o.handshake_delay;
  packet_delay = or_number b.packet_delay o.packet_delay;
  random_delay = o.random_delay;
  delay_min = or_number b.delay_min o.delay_min;
  delay_max = or_number b.delay_max o.delay_max;
  sni_fragmentation = o.sni_fragmentation;
  sni_fragment = or_number b.sni_fragment o.sni_fragment;
  fake_alpn = or_list b.fake_alpn o.fake_alpn;
  reversed_order = o.reversed_order;
  duplicate_packets = o.duplicate_packets;
  allow_zero_size = o.allow_zero_size;
  use_timestamp = o.use_timestamp;
  use_nonce = o.use_nonce;
  randomize_initial = o.randomize_initial;
  fake_loss = or_loss b.fake_loss o.fake_loss;
}

-- An optional part: nothing overrides, or it is merged over the part there is, or over a zero value.
unfoldable pub merge_part {ℓ} : {A : Type ℓ} → (A → A → A) → A → Option A → Option A → Option A
merge_part merge zero_value base none = base
merge_part merge zero_value none (some o) = some (merge zero_value o)
merge_part merge zero_value (some b) (some o) = some (merge b o)

-- `mergeWireGuardConfig` and `mergeMASQUEConfig`.
unfoldable pub merge_wire_guard_config : WireGuardNoize → WireGuardNoize → WireGuardNoize
merge_wire_guard_config b o = record {
  enabled = o.enabled;
  preset = or_text b.preset o.preset;
  atomic_noize = merge_part merge_atomic_noize_config zero_atomic b.atomic_noize o.atomic_noize;
}

unfoldable pub merge_masque_config : MasqueNoize → MasqueNoize → MasqueNoize
merge_masque_config b o = record {
  enabled = o.enabled;
  preset = or_text b.preset o.preset;
  config = merge_part merge_noize_config zero_noize b.config o.config;
}

-- `MergeConfigs`.
unfoldable pub merge_configs : UnifiedNoizeConfig → UnifiedNoizeConfig → UnifiedNoizeConfig
merge_configs b o = record {
  version = b.version;
  wire_guard =
      merge_part merge_wire_guard_config
        (record { enabled = false; preset = []; atomic_noize = none }) b.wire_guard o.wire_guard;
  masque =
      merge_part merge_masque_config (record { enabled = false; preset = []; config = none })
        b.masque o.masque;
  metadata =
      merge_part merge_metadata
        (record { name = []; description = []; author = []; created_at = [] }) b.metadata
        o.metadata;
}

-- `LoadFromFile`, where `read` is the parsed content of a file, and `LoadMixed`.
accepted : UnifiedNoizeConfig × Option ConfigError → Option UnifiedNoizeConfig
accepted (c, none) = some c
accepted (c, some e) = none

unfoldable pub load_from_file :
    (List ℕ → Option UnifiedNoizeConfig) → List ℕ → Option UnifiedNoizeConfig
unfolding accepted
load_from_file read path = do config ← read path; accepted (validate config)

unfoldable pub load_mixed :
    (List ℕ → Option UnifiedNoizeConfig) → List ℕ → List ℕ → List ℕ → Option UnifiedNoizeConfig
load_mixed read now preset_name config_path = do
  base ← get_preset now preset_name
  if text_eq config_path []
      then some base
      else Option.map (merge_configs base) (load_from_file read config_path)

-- What `ExportPresetToFile` saves: the preset with another description.
described : List ℕ → Option ConfigMetadata → ConfigMetadata
described text none = record { name = []; description = text; author = []; created_at = [] }
described text (some m) = record m { description = text }

unfoldable pub exported : List ℕ → List ℕ → Option UnifiedNoizeConfig
unfolding described
exported now name =
    Option.map {A = UnifiedNoizeConfig} {B = UnifiedNoizeConfig}
      (λ c. record c {
        metadata =
            some (
              described (codes "Exported " ++ name ++ codes " preset for customization")
                c.metadata);
      })
      (get_preset now name)

-- The directory that `SaveToFile` creates: the path itself when it ends in a separator, and else what
-- stands in front of its last one; `none` is the panic of the slice when there is none.
is_separator : ℕ → Bool
is_separator c = (c == 47) || (c == 92)

before_last : List ℕ → Option (List ℕ)
unfolding is_separator
before_last [] = none
before_last (c ∷ s) = elim (before_last s) [
  | none ↦ if is_separator c then some [] else none
  | some dir ↦ some (c ∷ dir)
]

ends_in_separator : List ℕ → Bool
unfolding is_separator
ends_in_separator [] = false
ends_in_separator (c ∷ []) = is_separator c
ends_in_separator (c ∷ d ∷ s) = ends_in_separator (d ∷ s)

unfoldable pub save_dir : List ℕ → Option (List ℕ)
unfolding before_last ends_in_separator
save_dir path = if ends_in_separator path then some path else before_last path
