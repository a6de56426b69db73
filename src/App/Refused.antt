-- ===== src/App/Refused.antt =====
-- The combinations of modes that `RunWarp` of app/app.go refuses.
use vwarp.Prelude.{
  ℕ, ◌+◌, ◌≤◌, ◌≡◌, refl, ap, ◌⊎◌, inl, inr, Bool, true, false, ◌∙◌, List, [], Option, none, some,
  arith,
}
use vwarp.Text.{text_eq, text_eq_iff}
use vwarp.App.{err, AppError, Log, Outside, lift}
use vwarp.App.Options.{WarpOptions, mode_error, mode_check}
use vwarp.App.Modes.{refuse_or, run_warp}

bit : Bool → ℕ
bit true = 1
bit false = 0

country_bit : Option (List ℕ) → ℕ
country_bit none = 0
country_bit (some country) = 1

-- How many of the three modes are switched on.
unfoldable pub modes : WarpOptions → ℕ
unfolding bit country_bit
modes opts = bit opts.masque + bit opts.gool + country_bit opts.psiphon

two_modes :
    (psiphon : Option (List ℕ)) (masque gool : Bool)
    → 2 ≤ bit masque + bit gool + country_bit psiphon
    → (e : AppError) × (mode_check psiphon masque gool ≡ some e)
unfolding mode_check bit country_bit
two_modes none true true h = (_, refl)
two_modes none true false h = absurd (omega arith)
two_modes none false true h = absurd (omega arith)
two_modes none false false h = absurd (omega arith)
two_modes (some country) true true h = (_, refl)
two_modes (some country) true false h = (_, refl)
two_modes (some country) false true h = (_, refl)
two_modes (some country) false false h = absurd (omega arith)

no_country : (masque gool : Bool) → (e : AppError) × (mode_check (some []) masque gool ≡ some e)
unfolding mode_check text_eq
no_country true true = (_, refl)
no_country true false = (_, refl)
no_country false true = (_, refl)
no_country false false = (_, refl)

refused :
    (o : Outside) (opts : WarpOptions) (l : Log)
    → text_eq opts.wireguard_config [] ≡ true
    → (e : AppError) × (mode_check opts.psiphon opts.masque opts.gool ≡ some e)
    → (e : AppError) × (run_warp o opts l ≡ (err e, l))
unfolding run_warp mode_error refuse_or lift
refused o opts l file (e, h) = (e, simp (file, h))

-- A run without a configuration file, with two of the modes MASQUE, warp-in-warp and Psiphon or with an
-- empty country for Psiphon, ends with an error before it has made any call.
pub run_warp-refused :
    (o : Outside) (opts : WarpOptions) (l : Log)
    → opts.wireguard_config ≡ []
    → (2 ≤ modes opts) ⊎ (opts.psiphon ≡ some [])
    → (e : AppError) × (run_warp o opts l ≡ (err e, l))
unfolding modes
run_warp-refused o opts l file (inl h) =
    refused o opts l ((text_eq_iff opts.wireguard_config []).1 file)
      (two_modes opts.psiphon opts.masque opts.gool h)
run_warp-refused o opts l file (inr h) =
    let (e, none_given) = no_country opts.masque opts.gool in
    refused o opts l ((text_eq_iff opts.wireguard_config []).1 file)
      (e, ap (λ c. mode_check c opts.masque opts.gool) h ∙ none_given)
