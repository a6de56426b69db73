-- ===== src/App/Masque/Attempts.antt =====
-- The attempts of `runWarpWithMasque` of app/app.go at an adapter.
use vwarp.Prelude.{ℕ, suc, ◌+◌, ◌*◌, ◌≤◌, ◌≡◌, List, [], ◌∷◌, Option}
use vwarp.Noize.{NoizeConfig}
use vwarp.App.{Call, Result, ok, err, panicked, Log, Outside}

-- How often a run has tried to create an adapter.
unfoldable pub adapters : Log → ℕ
adapters [] = 0
adapters (Call.new_adapter endpoint noize ∷ l) = suc (adapters l)
adapters (c ∷ l) = adapters l

module _ (o : Outside) (endpoint : List ℕ) (noize : Option NoizeConfig) where
  -- The log behind an attempt that fails, and the pause.
  paused : ℕ → Log → Log
  paused attempt l = Call.sleep (attempt * 2) ∷ Call.new_adapter endpoint noize ∷ l

-- The attempts of a call that started with `before` of them and may make `most` more.
unfoldable pub Tried : ℕ → ℕ → Result (Unit {0}) × Log → Type 0
Tried before most (ok u, l) = (suc before ≤ adapters l) × (adapters l ≤ most + before)
Tried before most (err e, l) = adapters l ≡ most + before
Tried before most (panicked, l) = ⊥
