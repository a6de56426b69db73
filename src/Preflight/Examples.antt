-- ===== src/Preflight/Examples.antt =====
-- Runs of wireguard/preflightbind/preflight_bind.go.
use vwarp.Prelude.{
  ℕ, ◌%◌, ◌≤◌, ◌≡◌, refl, ◌⊎◌, true, false, List, [], ◌∷◌, ◌++◌, none, some, replicate, length,
  arith,
}
use vwarp.Prelude.Int.{pos}
use vwarp.Config.{AtomicNoizeConfig}
use vwarp.Config.Presets.Zero.{zero_atomic}
use vwarp.Text.{codes, text_eq}
use vwarp.Preflight.{
  Bind, Sending, preflights, maybe_preflight, any_initiation, too_early, record_sent,
  handshake_initiation,
}
use vwarp.Preflight.Sequence.{FullBind, PreflightDraws, send}
use vwarp.Preflight.Sizes.{IsSized}
use vwarp.Preflight.Sent.{ConfigIsSized, LaterIs, front_limit, send-Sent}
use vwarp.Preflight.Rate.{Spaced, preflights-Spaced}

abbrev noise : ℕ → ℕ
noise i = i % 256

abbrev payload : List ℕ
payload = 0xc0 ∷ replicate 19 7

abbrev bind : Bind
bind = record { interval = 1000; last_sent = λ a. none }

abbrev initiation : ℕ → Sending
initiation now = record {
  now = now;
  dst = codes "162.159.192.1";
  bufs = (1 ∷ replicate 147 0) ∷ [];
}

abbrev sendings : List Sending
sendings = initiation 5000 ∷ initiation 5500 ∷ initiation 6000 ∷ []

preflights-Spaced_example : Spaced 1000 none (preflights (codes "162.159.192.1") bind sendings)
preflights-Spaced_example = preflights-Spaced sendings bind (codes "162.159.192.1")

second_is_skipped : preflights (codes "162.159.192.1") bind sendings ≡ 5000 ∷ 6000 ∷ []
unfolding preflights maybe_preflight any_initiation too_early record_sent handshake_initiation
    text_eq
second_is_skipped = refl

abbrev atomic : AtomicNoizeConfig
atomic = record zero_atomic { jmin = pos 40; jmax = pos 70; jc_before_hs = pos 2; jc = pos 4 }

abbrev full_bind : FullBind
full_bind = record {
  limits = bind;
  post_handshake_sent = λ a. false;
  payload = [];
  config = some atomic;
}

abbrev preflight_draws : PreflightDraws
preflight_draws = record {
  initiator = noise;
  responder = noise;
  size = λ i. i;
  bytes = λ i. noise;
  signature = λ i. record { unix = 1; unix_nano = 1; noise = λ j. noise };
}

send-Sent_example :
    (b' : FullBind) × (front : List (List ℕ)) × (later : ℕ) × (send full_bind preflight_draws
        (initiation 5000)
      ≡ some (b', front ++ (initiation 5000).bufs, later))
    × (length front ≤ front_limit (some atomic))
    × ((any_initiation (initiation 5000).bufs ≡ true) ⊎ (front ≡ []))
    × LaterIs full_bind (initiation 5000) (b'.post_handshake_sent, later)
unfolding ConfigIsSized IsSized
send-Sent_example =
    send-Sent full_bind preflight_draws (initiation 5000) (40, 70, refl, refl, omega arith)
