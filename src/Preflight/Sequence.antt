-- ===== src/Preflight/Sequence.antt =====
-- wireguard/preflightbind/preflight_bind.go: the two ways to make a bind, the packets that it sends before
-- a handshake initiation, and `Send`. Errors of the inner bind are ignored, as they are there, and the
-- pauses are left out.
use vwarp.Prelude.{ℕ, zero, suc, Bool, true, false, List, [], ◌∷◌, ◌++◌, Option, none, some, ◌>>=◌}
use vwarp.Prelude.Int.{pos_part}
use vwarp.Noize.Cps.{Draws, hex_decode}
use vwarp.Config.{AtomicNoizeConfig}
use vwarp.Preflight.{Bind, Sending, maybe_preflight, wrap_in_ikev2_header}
use vwarp.Preflight.Cps.{parse_signature, without_0x}
use vwarp.Preflight.Junk.{generate_junk_packet, maybe_send_post_handshake_junk}

-- `Bind` with all its fields; `limits` are those of the rate limit.
pub record FullBind : Type 0 where
  pub limits : Bind
  pub post_handshake_sent : List ℕ → Bool
  pub payload : List ℕ
  pub config : Option AtomicNoizeConfig

abbrev pub never_sent : ℕ → Bind
never_sent interval = record { interval = interval; last_sent = λ a. none }

-- `New`; `none` is an error.
unfoldable pub new : List ℕ → ℕ → Option FullBind
new hex_payload interval = do
  p ← hex_decode (without_0x hex_payload)
  some (record {
    limits = never_sent interval;
    post_handshake_sent = λ a. false;
    payload = p;
    config = none;
  })

-- The payload of a configuration: that of I1, or none.
unfoldable pub payload_of : Draws → Option AtomicNoizeConfig → Option (List ℕ)
payload_of draws none = some []
payload_of draws (some c) = parse_signature draws c.i1

-- `NewWithAtomicNoize`.
unfoldable pub new_with_atomic_noize : Draws → Option AtomicNoizeConfig → ℕ → Option FullBind
new_with_atomic_noize draws config interval = do
  p ← payload_of draws config
  some (record {
    limits = never_sent interval;
    post_handshake_sent = λ a. false;
    payload = p;
    config = config;
  })

-- What a preflight draws: the bytes of the two SPIs, the size and the bytes of the i-th junk packet, and
-- the values for the i-th signature.
pub record PreflightDraws : Type 0 where
  pub initiator : ℕ → ℕ
  pub responder : ℕ → ℕ
  pub size : ℕ → ℕ
  pub bytes : ℕ → ℕ → ℕ
  pub signature : ℕ → Draws

-- `n` junk packets, the first of which is the i-th; `none` is a panic.
unfoldable pub junk_from : AtomicNoizeConfig → PreflightDraws → ℕ → ℕ → Option (List (List ℕ))
junk_from c draws i zero = some []
junk_from c draws i (suc n) = do
  junk ← generate_junk_packet c (draws.size i) (draws.bytes i)
  rest ← junk_from c draws (suc i) n
  some (junk ∷ rest)

-- The first packet: I1 in its frame, where there is one. An I1 whose tags give no bytes leaves no payload.
unfoldable pub framed : PreflightDraws → List ℕ → List ℕ → List (List ℕ)
framed draws [] payload = []
framed draws (c ∷ i1) [] = []
framed draws (c ∷ i1) (b ∷ payload) =
    wrap_in_ikev2_header draws.initiator draws.responder (b ∷ payload) ∷ []

unfoldable pub readable : Option (List ℕ) → List (List ℕ)
readable none = []
readable (some []) = []
readable (some (b ∷ packet)) = (b ∷ packet) ∷ []

unfoldable pub signature : Draws → List ℕ → List (List ℕ)
signature draws [] = []
signature draws (c ∷ cps) = readable (parse_signature draws (c ∷ cps))

-- `executeAtomicNoizePreflightUsingSameSocket`.
unfoldable pub preflight_packets :
    AtomicNoizeConfig → List ℕ → PreflightDraws → Option (List (List ℕ))
preflight_packets c payload draws = do
  after ← junk_from c draws 0 (pos_part c.jc_after_i1)
  before ← junk_from c draws (pos_part c.jc_after_i1) (pos_part c.jc_before_hs)
  some (
      framed draws c.i1 payload
      ++ (after
          ++ (before
              ++ (signature (draws.signature 1) c.i2
                  ++ (signature (draws.signature 2) c.i3
                      ++ (signature (draws.signature 3) c.i4
                          ++ signature (draws.signature 4) c.i5))))))

unfoldable pub preflight_if :
    Bool → Option AtomicNoizeConfig → List ℕ → PreflightDraws → Option (List (List ℕ))
preflight_if false config payload draws = some []
preflight_if true none payload draws = some []
preflight_if true (some c) payload draws = preflight_packets c payload draws

-- `Send`: the state, the packets that it hands to the inner bind itself, in this order, before it returns,
-- and how many junk packets the goroutine hands over that it starts before the last of these calls. The
-- goroutine runs beside them: its packets may come before, between or after those of `p.bufs`, and the
-- model orders them in no way.
unfoldable pub send : FullBind → PreflightDraws → Sending → Option (FullBind × List (List ℕ) × ℕ)
send b draws p = do
  let (limits, run) = maybe_preflight b.limits p
  let (post_sent, later) = maybe_send_post_handshake_junk b.config b.post_handshake_sent p
  front ← preflight_if run b.config b.payload draws
  some (record b { limits = limits; post_handshake_sent = post_sent }, front ++ p.bufs, later)
