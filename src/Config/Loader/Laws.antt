-- ===== src/Config/Loader/Laws.antt =====
-- The laws of `mergeNoizeConfig` in config/noize/loader.go.
use vwarp.Prelude.{ℕ, List, [], ◌∷◌, ◌≡◌, refl, arith}
use vwarp.Prelude.Int.{ℤ}
use vwarp.Noize.{NoizeConfig, Loss}
use vwarp.Config.Loader.{merge_noize_config, or_number, or_text, or_list, or_loss}

or_number_assoc : (a b c : ℤ) → or_number (or_number a b) c ≡ or_number a (or_number b c)
unfolding or_number vwarp.Config.is_nonzero
or_number_assoc a b c = ground arith

or_text_assoc : (a b c : List ℕ) → or_text (or_text a b) c ≡ or_text a (or_text b c)
unfolding or_text
or_text_assoc a [] [] = refl
or_text_assoc a (x ∷ b) [] = refl
or_text_assoc a b (x ∷ c) = refl

or_list_assoc : (a b c : List (List ℕ)) → or_list (or_list a b) c ≡ or_list a (or_list b c)
unfolding or_list
or_list_assoc a [] [] = refl
or_list_assoc a (x ∷ b) [] = refl
or_list_assoc a b (x ∷ c) = refl

or_loss_assoc : (a b c : Loss) → or_loss (or_loss a b) c ≡ or_loss a (or_loss b c)
unfolding or_loss
or_loss_assoc a b c = ground arith

-- Merging one configuration after another gives the same as merging them over each other first: the
-- last of them that sets a field decides it.
merge_noize_config_assoc :
    (a b c : NoizeConfig)
    → merge_noize_config (merge_noize_config a b) c ≡ merge_noize_config a (merge_noize_config b c)
unfolding merge_noize_config
merge_noize_config_assoc a b c = simp (or_number_assoc, or_text_assoc, or_list_assoc, or_loss_assoc)
