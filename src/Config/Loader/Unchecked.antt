-- ===== src/Config/Loader/Unchecked.antt =====
-- What merging two valid configurations may give, in config/noize/loader.go: the limits of one field
-- may come from both of them.
use vwarp.Prelude.{ℕ, suc, ◌<◌, ◌≤◌, true, List, length, none, ◌≡◌, arith, ◌∙◌, ap}
use vwarp.Prelude.Int.{ℤ, pos}
use vwarp.Noize.{NoizeConfig}
use vwarp.Noize.Packet.{add_padding}
use vwarp.Noize.Packet.Crossed.{add_padding-crossed}
use vwarp.Noize.Validator.{validate_noize_config}
use vwarp.Config.Loader.{merge_noize_config, or_number}

or_number-set : (b : ℤ) (n : ℕ) → or_number b (pos (suc n)) ≡ pos (suc n)
unfolding or_number vwarp.Config.is_nonzero
or_number-set b n = ground arith

-- Two configurations that `ValidateNoizeConfig` accepts may have a merge that makes `addPadding` panic
-- on every packet of 16 bytes or more, for every random draw: the override sets a positive
-- `PaddingMax` and random padding and no `PaddingMin`, and the base has a larger `PaddingMin`.
pub merge_panics :
    (base override : NoizeConfig)
    → (lo hi : ℕ) → validate_noize_config base ≡ none
    → validate_noize_config override ≡ none
    → base.padding_min ≡ pos lo
    → override.padding_min ≡ pos 0
    → override.padding_max ≡ pos (suc hi)
    → override.random_padding ≡ true
    → suc hi < lo
    → (draw : ℕ) → (noise : ℕ → ℕ) → (packet : List ℕ) → 16 ≤ length packet
    → add_padding (merge_noize_config base override) draw noise packet ≡ none
unfolding merge_noize_config or_number vwarp.Config.is_nonzero
merge_panics base override lo hi valid valid' low unset top drawn crossed draw noise packet long =
    add_padding-crossed (merge_noize_config base override) draw noise packet lo hi
      (ap (or_number base.padding_min) unset ∙ low)
      (ap (or_number base.padding_max) top ∙ or_number-set base.padding_max hi) drawn crossed long
