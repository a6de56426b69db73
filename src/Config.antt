-- ===== src/Config.antt =====
-- config/noize/config.go and the rest of config/noize/validator.go: a configuration for both kinds of
-- obfuscation, and its two validators.
pub mod Presets
pub mod Loader
mod Examples
use vwarp.Prelude.{
  ℕ, Bool, true, false, ◌&&◌, ◌||◌, not, List, [], ◌∷◌, ◌++◌, Option, none, some, map,
  if◌then◌else◌,
}
use vwarp.Prelude.Int.{ℤ, pos, negsuc, ◌+ℤ◌, ltb_ℤ}
use vwarp.Text.{codes, text_eq}
use vwarp.Noize.{NoizeConfig}
use vwarp.Noize.Validator.{
  ConfigError, first_error, negative, wrap64, is_valid_preset, signature_guard,
  validate_noize_config, jc_range, jmin_negative, jmax_below_jmin, jmax_too_big,
  jc_after_i1_negative, jc_before_hs_negative, jc_after_hs_negative, jc_total,
  junk_interval_negative, junk_interval_too_long, handshake_delay_negative,
  handshake_delay_too_long, s1_not_zero, s2_not_zero, no_protocol, both_preset_and_config,
  invalid_preset, fragment_size_negative,
}

-- `AtomicNoizeConfig` of wireguard/preflightbind/preflight_bind.go.
pub record AtomicNoizeConfig : Type 0 where
  pub i1 : List ℕ
  pub i2 : List ℕ
  pub i3 : List ℕ
  pub i4 : List ℕ
  pub i5 : List ℕ
  pub s1 : ℤ
  pub s2 : ℤ
  pub jc : ℤ
  pub jmin : ℤ
  pub jmax : ℤ
  pub jc_after_i1 : ℤ
  pub jc_before_hs : ℤ
  pub jc_after_hs : ℤ
  pub junk_interval : ℤ
  pub allow_zero_size : Bool
  pub handshake_delay : ℤ

pub record ConfigMetadata : Type 0 where
  pub name : List ℕ
  pub description : List ℕ
  pub author : List ℕ
  pub created_at : List ℕ

pub record WireGuardNoize : Type 0 where
  pub enabled : Bool
  pub preset : List ℕ
  pub atomic_noize : Option AtomicNoizeConfig

pub record MasqueNoize : Type 0 where
  pub enabled : Bool
  pub preset : List ℕ
  pub config : Option NoizeConfig

-- `none` is a nil pointer.
pub record UnifiedNoizeConfig : Type 0 where
  pub version : List ℕ
  pub wire_guard : Option WireGuardNoize
  pub masque : Option MasqueNoize
  pub metadata : Option ConfigMetadata

is_some {ℓ} : {A : Type ℓ} → Option A → Bool
is_some none = false
is_some (some x) = true

-- The check of a field that may be nil.
check {ℓ} : {A : Type ℓ} → Option A → (A → Option ConfigError) → Option ConfigError
check none f = none
check (some x) f = f x

-- A check behind another one.
infixr 20 ◌then_check◌
◌then_check◌ : Option ConfigError → Option ConfigError → Option ConfigError
none then_check e = e
some e then_check e' = some e

is_nonzero : ℤ → Bool
is_nonzero a = ltb_ℤ a (pos 0) || ltb_ℤ (pos 0) a

-- `ValidateAtomicNoizeConfig`.
unfoldable pub validate_atomic_noize_config : AtomicNoizeConfig → Option ConfigError
unfolding is_nonzero
validate_atomic_noize_config c = first_error (
    (negative c.jc || ltb_ℤ (pos 128) c.jc, jc_range)
    ∷ (negative c.jmin, jmin_negative)
    ∷ (ltb_ℤ c.jmax c.jmin, jmax_below_jmin)
    ∷ (ltb_ℤ (pos 1400) c.jmax, jmax_too_big)
    ∷ (negative c.jc_after_i1, jc_after_i1_negative)
    ∷ (negative c.jc_before_hs, jc_before_hs_negative)
    ∷ (negative c.jc_after_hs, jc_after_hs_negative)
    ∷ (ltb_ℤ c.jc (wrap64 (c.jc_after_i1 +ℤ c.jc_before_hs +ℤ c.jc_after_hs)), jc_total)
    ∷ (negative c.junk_interval, junk_interval_negative)
    ∷ (ltb_ℤ (pos 5000000000) c.junk_interval, junk_interval_too_long)
    ∷ (negative c.handshake_delay, handshake_delay_negative)
    ∷ (ltb_ℤ (pos 10000000000) c.handshake_delay, handshake_delay_too_long)
    ∷ (map signature_guard (c.i1 ∷ c.i2 ∷ c.i3 ∷ c.i4 ∷ c.i5 ∷ [])
        ++ ((is_nonzero c.s1, s1_not_zero) ∷ (is_nonzero c.s2, s2_not_zero) ∷ [])))

-- What both parts of a configuration check about a preset beside a custom configuration.
preset_guards {ℓ} : {A : Type ℓ} → List ℕ → Option A → List (Bool × ConfigError)
preset_guards preset custom =
    (not (text_eq preset []) && is_some custom, both_preset_and_config)
    ∷ (not (text_eq preset []) && not (is_valid_preset preset), invalid_preset)
    ∷ []

unfoldable pub validate_wire_guard_config : WireGuardNoize → Option ConfigError
unfolding preset_guards is_some check ◌then_check◌
validate_wire_guard_config c =
    first_error (preset_guards c.preset c.atomic_noize)
    then_check check c.atomic_noize validate_atomic_noize_config

unfoldable pub validate_masque_config : MasqueNoize → Option ConfigError
unfolding preset_guards is_some check ◌then_check◌
validate_masque_config c =
    first_error (preset_guards c.preset c.config) then_check check c.config validate_noize_config

-- `IsWireGuardEnabled` and `IsMASQUEEnabled`.
unfoldable pub wire_guard_enabled : Option WireGuardNoize → Bool
wire_guard_enabled none = false
wire_guard_enabled (some w) = w.enabled

unfoldable pub masque_enabled : Option MasqueNoize → Bool
masque_enabled none = false
masque_enabled (some m) = m.enabled

-- An empty version becomes "1.0", whatever the validation says.
unfoldable pub with_version : UnifiedNoizeConfig → UnifiedNoizeConfig
with_version c = if text_eq c.version [] then record c { version = codes "1.0" } else c

-- `ValidateConfig` of a configuration that is not nil.
unfoldable pub validate_config : UnifiedNoizeConfig → UnifiedNoizeConfig × Option ConfigError
unfolding check ◌then_check◌
validate_config c = (
  with_version c,
  first_error
        ((not (wire_guard_enabled c.wire_guard) && not (masque_enabled c.masque), no_protocol) ∷ [])
      then_check (if wire_guard_enabled c.wire_guard
          then check c.wire_guard validate_wire_guard_config
          else none)
      then_check (if masque_enabled c.masque then check c.masque validate_masque_config else none),
)

-- `validateAtomicNoizeConfig` and `validateMASQUEConfig` of config.go.
unfoldable pub validate_atomic_simply : AtomicNoizeConfig → Option ConfigError
validate_atomic_simply c = first_error (
    (negative c.jc || ltb_ℤ (pos 128) c.jc, jc_range)
    ∷ (negative c.jmin || ltb_ℤ c.jmax c.jmin, jmax_below_jmin)
    ∷ (
      negative c.jc_after_i1 || negative c.jc_before_hs || negative c.jc_after_hs,
      jc_after_i1_negative,
    )
    ∷ (ltb_ℤ c.jc (wrap64 (c.jc_after_i1 +ℤ c.jc_before_hs +ℤ c.jc_after_hs)), jc_total)
    ∷ [])

unfoldable pub validate_masque_simply : NoizeConfig → Option ConfigError
validate_masque_simply c = first_error (
    (negative c.jc || ltb_ℤ (pos 20) c.jc, jc_range)
    ∷ (negative c.jmin || ltb_ℤ c.jmax c.jmin, jmax_below_jmin)
    ∷ (negative c.fragment_size, fragment_size_negative)
    ∷ [])

-- `Validate` of config.go, for each of the two parts.
wire_guard_part : WireGuardNoize → Option ConfigError
wire_guard_part w =
    if w.enabled
    then first_error
        ((not (text_eq w.preset []) && is_some w.atomic_noize, both_preset_and_config) ∷ [])
      then_check check w.atomic_noize validate_atomic_simply
    else none

masque_part : MasqueNoize → Option ConfigError
masque_part m =
    if m.enabled
    then first_error ((not (text_eq m.preset []) && is_some m.config, both_preset_and_config) ∷ [])
      then_check check m.config validate_masque_simply
    else none

unfoldable pub validate : UnifiedNoizeConfig → UnifiedNoizeConfig × Option ConfigError
unfolding wire_guard_part masque_part check is_some ◌then_check◌
validate c =
    (with_version c, check c.wire_guard wire_guard_part then_check check c.masque masque_part)
