-- ===== src/Preflight/Rate.antt =====
-- The rate limit of wireguard/preflightbind/preflight_bind.go.
use vwarp.Prelude.{
  ℕ, ◌+◌, ◌≤◌, ◌≡◌, ap, ◌∙◌, false, Bool-cases, inl, inr, List, [], ◌∷◌, Option, none, some, arith,
}
use vwarp.Text.{text_eq, text_eq_iff}
use vwarp.Preflight.{
  Bind, Sending, any_initiation, too_early, record_sent, maybe_preflight, preflights,
}

-- Each time lies at least `gap` behind the one before.
abbrev pub Spaced : ℕ → Option ℕ → List ℕ → Type 0
Spaced gap last [] = Unit
Spaced gap none (t ∷ ts) = Spaced gap (some t) ts
Spaced gap (some last) (t ∷ ts) = (last + gap ≤ t) × Spaced gap (some t) ts

late :
    (gap t : ℕ) (last : Option ℕ) (ts : List ℕ)
    → too_early last t gap ≡ false
    → Spaced gap (some t) ts
    → Spaced gap last (t ∷ ts)
unfolding too_early
late gap t none ts h all = all
late gap t (some last) ts h all = (ground arith, all)

-- For any calls of `Send` and every destination: the calls that carry a handshake initiation to it and
-- get past the rate limit lie at least the interval of the bind apart, and the first one at least the
-- interval behind the time that is recorded, if one is.
pub preflights-Spaced :
    (ps : List Sending) (b : Bind) (a : List ℕ)
    → Spaced b.interval (b.last_sent a) (preflights a b ps)
unfolding preflights maybe_preflight record_sent
preflights-Spaced [] b a = tt
preflights-Spaced (p ∷ ps) b a = elim (Bool-cases (any_initiation p.bufs)) [
  | inr e ↦ rw e (preflights-Spaced ps b a)
  | inl e ↦ (elim (Bool-cases (too_early (b.last_sent p.dst) p.now b.interval)) [
    | inl k ↦ rw (e, k) (preflights-Spaced ps b a)
    | inr k ↦ (elim (Bool-cases (text_eq a p.dst)) [
      | inl t ↦
          (let rest = preflights-Spaced ps (record_sent p.dst p.now b) a in
            let same : too_early (b.last_sent a) p.now b.interval ≡ false =
              ap (λ d. too_early (b.last_sent d) p.now b.interval) ((text_eq_iff a p.dst).0 t)
              ∙ k in
            rw (e, k, t) (late b.interval p.now (b.last_sent a) _ same (rw t at rest)))
      | inr t ↦
          (let rest = preflights-Spaced ps (record_sent p.dst p.now b) a in
            rw (e, k, t) (rw t at rest))
    ])
  ])
]
