-- ===== src/Adapter/Errors.antt =====
-- The texts that `isConnectionError` of app/masque_tun_adapter.go looks for.
use vwarp.Prelude.{ℕ, ◌≡◌, refl, false, List, [], ◌∷◌, map, arith, ◌==◌}
use vwarp.Text.{codes, contains, has_prefix}
use vwarp.Adapter.{to_lower, any_pattern, is_connection_error}

to_lower-to_lower : (c : ℕ) → to_lower (to_lower c) ≡ to_lower c
unfolding to_lower
to_lower-to_lower c = ground arith

map-to_lower : (text : List ℕ) → map to_lower (map to_lower text) ≡ map to_lower text
map-to_lower [] = refl
map-to_lower (c ∷ text) = rw (to_lower-to_lower c, map-to_lower text)

no_upper_e : (c : ℕ) → (to_lower c == 69) ≡ false
unfolding to_lower
no_upper_e c = ground arith

no_eof : (text : List ℕ) → contains (map to_lower text) (codes "EOF") ≡ false
unfolding contains has_prefix
no_eof [] = refl
no_eof (c ∷ text) = rw (no_upper_e c, contains) (no_eof text)

-- For every text: the case of its letters does not matter to `isConnectionError`, and the pattern "EOF"
-- is not found in it, since the text is put into lower case and the pattern is not.
pub is_connection_error-case :
    (text : List ℕ)
    → (is_connection_error (map to_lower text) ≡ is_connection_error text)
      × (contains (map to_lower text) (codes "EOF") ≡ false)
unfolding is_connection_error
is_connection_error-case text = (rw (map-to_lower text), no_eof text)

eof_is_none : is_connection_error (codes "EOF") ≡ false
unfolding is_connection_error any_pattern contains has_prefix to_lower
eof_is_none = refl
