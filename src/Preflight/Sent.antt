-- ===== src/Preflight/Sent.antt =====
-- What `Send` of wireguard/preflightbind/preflight_bind.go hands to the inner bind.
use mathlib.Core.Path.{subst}
use vwarp.Prelude.{
  ℕ, ◌+◌, ◌≤◌, ◌≡◌, refl, ap, ◌⊎◌, inl, inr, Bool, true, false, List, [], ◌∷◌, ◌++◌, Option, none,
  some, length, length-append, ◌>>=◌, if◌then◌else◌, arith,
}
use vwarp.Prelude.Int.{pos_part}
use vwarp.Text.{text_eq_iff}
use vwarp.Noize.Cps.{Draws}
use vwarp.Config.{AtomicNoizeConfig}
use vwarp.Preflight.{Bind, Sending, maybe_preflight, any_initiation, too_early, record_sent}
use vwarp.Preflight.Cps.{parse_signature}
use vwarp.Preflight.Junk.{any_request, remaining_junk, maybe_send_post_handshake_junk}
use vwarp.Preflight.Sequence.{
  FullBind, PreflightDraws, framed, readable, signature, preflight_packets, preflight_if, send,
}
use vwarp.Preflight.Sizes.{IsSized, junk_from-some}

length-framed :
    (draws : PreflightDraws) (i1 payload : List ℕ) → length (framed draws i1 payload) ≤ 1
unfolding framed
length-framed draws [] payload = omega arith
length-framed draws (c ∷ i1) [] = omega arith
length-framed draws (c ∷ i1) (b ∷ payload) = omega arith

length-readable : (o : Option (List ℕ)) → length (readable o) ≤ 1
unfolding readable
length-readable none = omega arith
length-readable (some []) = omega arith
length-readable (some (b ∷ packet)) = omega arith

length-signature : (draws : Draws) (cps : List ℕ) → length (signature draws cps) ≤ 1
unfolding signature
length-signature draws [] = omega arith
length-signature draws (c ∷ cps) = length-readable (parse_signature draws (c ∷ cps))

six :
    (a b c d e f g : List (List ℕ))
    → length a ≤ 1
    → length d ≤ 1
    → length e ≤ 1
    → length f ≤ 1
    → length g ≤ 1
    → length (a ++ (b ++ (c ++ (d ++ (e ++ (f ++ g)))))) ≤ 5 + length b + length c
six a b c d e f g ha hd he hf hg = omega (
  arith,
  length-append a (b ++ (c ++ (d ++ (e ++ (f ++ g))))),
  length-append b (c ++ (d ++ (e ++ (f ++ g)))),
  length-append c (d ++ (e ++ (f ++ g))),
  length-append d (e ++ (f ++ g)),
  length-append e (f ++ g),
  length-append f g,
)

abbrev sequence :
    PreflightDraws → AtomicNoizeConfig → List ℕ → List (List ℕ) → List (List ℕ) → List (List ℕ)
sequence draws c payload after before =
    framed draws c.i1 payload
    ++ (after
        ++ (before
            ++ (signature (draws.signature 1) c.i2
                ++ (signature (draws.signature 2) c.i3
                    ++ (signature (draws.signature 3) c.i4
                        ++ signature (draws.signature 4) c.i5)))))

preflight_packets-some :
    (c : AtomicNoizeConfig) (payload : List ℕ) (draws : PreflightDraws)
    → IsSized c
    → (ps : List (List ℕ)) × (preflight_packets c payload draws ≡ some ps)
      × (length ps ≤ 5 + pos_part c.jc_after_i1 + pos_part c.jc_before_hs)
unfolding preflight_packets
preflight_packets-some c payload draws h =
    let (after, is_after, size) = junk_from-some c draws 0 (pos_part c.jc_after_i1) h in
    let (before, is_before, size') =
      junk_from-some c draws (pos_part c.jc_after_i1) (pos_part c.jc_before_hs) h in
    (
      sequence draws c payload after before,
      rw (is_after, is_before) refl,
      subst (λ n. length (sequence draws c payload after before) ≤ 5 + n + pos_part c.jc_before_hs)
          size
          (subst (λ n. length (sequence draws c payload after before) ≤ 5 + length after + n) size'
            (six (framed draws c.i1 payload) after before (signature (draws.signature 1) c.i2)
              (signature (draws.signature 2) c.i3) (signature (draws.signature 3) c.i4)
              (signature (draws.signature 4) c.i5) (length-framed draws c.i1 payload)
              (length-signature (draws.signature 1) c.i2)
              (length-signature (draws.signature 2) c.i3)
              (length-signature (draws.signature 3) c.i4)
              (length-signature (draws.signature 4) c.i5))),
    )

-- The packets that a bind may send before those that it is given.
unfoldable pub front_limit : Option AtomicNoizeConfig → ℕ
front_limit none = 0
front_limit (some c) = 5 + pos_part c.jc_after_i1 + pos_part c.jc_before_hs

unfoldable pub ConfigIsSized : Option AtomicNoizeConfig → Type 0
ConfigIsSized none = Unit
ConfigIsSized (some c) = IsSized c

preflight_if-some :
    (run : Bool) (config : Option AtomicNoizeConfig) (payload : List ℕ) (draws : PreflightDraws)
    → ConfigIsSized config
    → (ps : List (List ℕ)) × (preflight_if run config payload draws ≡ some ps)
      × (length ps ≤ front_limit config)
      × ((run ≡ true) ⊎ (ps ≡ []))
unfolding preflight_if front_limit ConfigIsSized
preflight_if-some false config payload draws h = ([], refl, omega arith, inr refl)
preflight_if-some true none payload draws h = ([], refl, omega arith, inl refl)
preflight_if-some true (some c) payload draws h =
    let (ps, e, size) = preflight_packets-some c payload draws h in (ps, e, size, inl refl)

abbrev limited : Bool → Bind → Sending → Bind × Bool
limited seen b p =
    if seen
    then (if too_early (b.last_sent p.dst) p.now b.interval
        then (b, false)
        else (record_sent p.dst p.now b, true))
    else (b, false)

limited-seen : (seen : Bool) (b : Bind) (p : Sending) → (limited seen b p).1 ≡ true → seen ≡ true
limited-seen true b p e = refl
limited-seen false b p e = e

-- A call gets past the rate limit only with a handshake initiation.
run-initiation :
    (b : Bind) (p : Sending) → (maybe_preflight b p).1 ≡ true → any_initiation p.bufs ≡ true
unfolding maybe_preflight
run-initiation b p h = limited-seen (any_initiation p.bufs) b p h

abbrev sent : FullBind → PreflightDraws → Sending → List (List ℕ) → FullBind × List (List ℕ) × ℕ
sent b draws p front =
    let (limits, run) = maybe_preflight b.limits p in
    let (post_sent, later) = maybe_send_post_handshake_junk b.config b.post_handshake_sent p in
    (record b { limits = limits; post_handshake_sent = post_sent }, front ++ p.bufs, later)

-- The junk packets that the goroutine of one call may send.
unfoldable pub junk_limit : Option AtomicNoizeConfig → ℕ
junk_limit none = 0
junk_limit (some c) = remaining_junk c

-- What a call leaves to its goroutine: nothing, or, for the first handshake initiation to a destination
-- and never again, no more than the junk that is left.
unfoldable pub LaterIs : FullBind → Sending → (List ℕ → Bool) × ℕ → Type 0
LaterIs b p (post_sent, later) =
    (later ≤ junk_limit b.config)
    × ((later ≡ 0)
        ⊎ ((any_request p.bufs ≡ true)
            × (b.post_handshake_sent p.dst ≡ false)
            × (post_sent p.dst ≡ true)))

junk-LaterIs :
    (b : FullBind) (p : Sending)
    → LaterIs b p (maybe_send_post_handshake_junk b.config b.post_handshake_sent p)
unfolding maybe_send_post_handshake_junk LaterIs junk_limit
junk-LaterIs b p = by_config b.config
  where
    by_config :
        (config : Option AtomicNoizeConfig)
        → LaterIs
            (record b { config = config })
            p
            (maybe_send_post_handshake_junk config b.post_handshake_sent p)
    by_config none = (omega arith, inl refl)
    by_config (some c) = ground (arith, (text_eq_iff p.dst p.dst).1 refl)

-- If the limits of a configuration are not negative and in order, then for all that is drawn: `Send`
-- itself does not panic. What it hands over itself, before it returns, are at most 5 packets and the two
-- counts of junk, and these only if one of the packets that it was given is a handshake initiation, and
-- then those that it was given, unchanged and last. A goroutine that it starts may hand over junk
-- packets at any time beside these: none, or, only if one of the given packets starts with a byte 1 and
-- the destination has had no such junk, after which it is marked, at most Jc - JcBeforeHS of them.
pub send-Sent :
    (b : FullBind) (draws : PreflightDraws) (p : Sending)
    → ConfigIsSized b.config
    → (b' : FullBind) × (front : List (List ℕ)) × (later : ℕ) × (send b draws p
        ≡ some (b', front ++ p.bufs, later))
      × (length front ≤ front_limit b.config)
      × ((any_initiation p.bufs ≡ true) ⊎ (front ≡ []))
      × LaterIs b p (b'.post_handshake_sent, later)
unfolding send
send-Sent b draws p h =
    let (front, e, size, cause) =
      preflight_if-some (maybe_preflight b.limits p).1 b.config b.payload draws h in
    (
      (sent b draws p front).0,
      front,
      (sent b draws p front).2,
      ap (λ f. f >>= λ packets. some (sent b draws p packets)) e,
      size,
      caused front cause,
      junk-LaterIs b p,
    )
  where
    caused :
        (front : List (List ℕ))
        → ((maybe_preflight b.limits p).1 ≡ true) ⊎ (front ≡ [])
        → (any_initiation p.bufs ≡ true) ⊎ (front ≡ [])
    caused front (inl run) = inl (run-initiation b.limits p run)
    caused front (inr none_sent) = inr none_sent
