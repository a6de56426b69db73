-- ===== src/App/Options.antt =====
-- The options of `RunWarp`, and what app/app.go makes of them before it calls anything.
pub mod Endpoint
use vwarp.Prelude.{
  ℕ, Bool, true, false, List, [], ◌∷◌, Option, none, some, if◌then◌else◌, not, ◌&&◌,
}
use vwarp.Text.{codes, text_eq}
use vwarp.Text.HostPort.{join_host_port, split_host_port}
use vwarp.Noize.{NoizeConfig}
use vwarp.Noize.Conn.Presets.{
  default_config, light_obfuscation_config, firewall_bypass_config, heavy_obfuscation_config,
  stealth_obfuscation_config, gfw_bypass_config, minimal_obfuscation_config,
}
use vwarp.App.{AppError}
use vwarp.Config.{
  AtomicNoizeConfig, UnifiedNoizeConfig, MasqueNoize, WireGuardNoize, wire_guard_enabled,
  masque_enabled,
}

-- `WarpOptions`. `none` is a nil pointer; `psiphon` is the country; of the options of a scan only
-- whether there are any.
pub record WarpOptions : Type 0 where
  pub bind : List ℕ
  pub endpoint : List ℕ
  pub dns_addr : List ℕ
  pub psiphon : Option (List ℕ)
  pub gool : Bool
  pub masque : Bool
  pub masque_preferred : Bool
  pub masque_noize : Bool
  pub masque_noize_preset : List ℕ
  pub masque_noize_config : List ℕ
  pub scan : Bool
  pub fw_mark : ℕ
  pub wireguard_config : List ℕ
  pub reserved : List ℕ
  pub test_url : List ℕ
  pub atomic_noize_config : Option AtomicNoizeConfig
  pub unified_noize_config : Option UnifiedNoizeConfig
  pub proxy_address : List ℕ

unfoldable pub unified_wire_guard : Option UnifiedNoizeConfig → Option WireGuardNoize
unified_wire_guard none = none
unified_wire_guard (some c) = c.wire_guard

unfoldable pub atomic_part : Option WireGuardNoize → Option AtomicNoizeConfig
atomic_part none = none
atomic_part (some w) = w.atomic_noize

-- `getAtomicNoizeConfig`.
unfoldable pub get_atomic_noize_config : WarpOptions → Option AtomicNoizeConfig
get_atomic_noize_config opts =
    if wire_guard_enabled (unified_wire_guard opts.unified_noize_config)
    then atomic_part (unified_wire_guard opts.unified_noize_config)
    else opts.atomic_noize_config

-- `getMASQUEPresetConfig`.
unfoldable pub get_masque_preset_config : List ℕ → Option NoizeConfig
get_masque_preset_config preset =
    if text_eq preset (codes "minimal")
    then some minimal_obfuscation_config
    else if text_eq preset (codes "light")
    then some light_obfuscation_config
    else if text_eq preset (codes "medium")
    then some default_config
    else if text_eq preset (codes "heavy")
    then some heavy_obfuscation_config
    else if text_eq preset (codes "stealth")
    then some stealth_obfuscation_config
    else if text_eq preset (codes "gfw")
    then some gfw_bypass_config
    else if text_eq preset (codes "firewall")
    then some firewall_bypass_config
    else if text_eq preset (codes "none")
    then none
    else some default_config

unfoldable pub unified_masque : Option UnifiedNoizeConfig → Option MasqueNoize
unified_masque none = none
unified_masque (some c) = c.masque

-- The branches of the unified configuration: its own configuration, its preset, or nothing.
unfoldable pub unified_noize : Option MasqueNoize → Option NoizeConfig
unified_noize none = none
unified_noize (some m) = elim m.config [
  | some c ↦ some c
  | none ↦ if text_eq m.preset [] then none else get_masque_preset_config m.preset
]

-- The preset of the older options, "medium" if there is none.
unfoldable pub legacy_preset : WarpOptions → Option NoizeConfig
legacy_preset opts =
    get_masque_preset_config
      (if text_eq opts.masque_noize_preset [] then codes "medium" else opts.masque_noize_preset)

-- The host of an endpoint with port 443; an endpoint that cannot be split is taken for a host.
unfoldable pub with_masque_port : List ℕ → Option (List ℕ × List ℕ) → List ℕ
with_masque_port endpoint none = join_host_port endpoint (codes "443")
with_masque_port endpoint (some (host, port)) = join_host_port host (codes "443")

unfoldable pub masque_endpoint : List ℕ → List ℕ
masque_endpoint endpoint = with_masque_port endpoint (split_host_port endpoint)

abbrev pub fallback_dns : List (List ℕ)
fallback_dns = codes "8.8.8.8" ∷ codes "8.8.4.4" ∷ codes "1.0.0.1" ∷ codes "9.9.9.9" ∷ []

unfoldable pub others : List ℕ → List (List ℕ) → List (List ℕ)
others addr [] = []
others addr (a ∷ addrs) = let rest = others addr addrs in if text_eq a addr then rest else a ∷ rest

-- The servers of the MASQUE mode, as texts; the four literals are addresses in printed form.
unfoldable pub dns_servers : List ℕ → List (List ℕ)
dns_servers dns_addr = dns_addr ∷ others dns_addr fallback_dns

-- The checks in front of `RunWarp`, in their order.
is_given {ℓ} : {A : Type ℓ} → Option A → Bool
is_given none = false
is_given (some a) = true

no_text : Option (List ℕ) → Bool
no_text none = false
no_text (some text) = text_eq text []

unfoldable pub mode_check : Option (List ℕ) → Bool → Bool → Option AppError
unfolding is_given no_text
mode_check psiphon masque gool =
    if is_given psiphon && gool
    then some AppError.psiphon_and_gool
    else if masque && gool
    then some AppError.masque_and_gool
    else if masque && is_given psiphon
    then some AppError.masque_and_psiphon
    else if no_text psiphon
    then some AppError.no_country
    else none

unfoldable pub mode_error : WarpOptions → Option AppError
mode_error opts = mode_check opts.psiphon opts.masque opts.gool
