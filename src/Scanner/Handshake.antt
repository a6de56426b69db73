-- ===== src/Scanner/Handshake.antt =====
-- What the WARP ping of ipscanner/ping/warp.go sends, and which answers it accepts.
use native.Mathlib.Nat.{mod-lt}
use vwarp.Prelude.{
  ℕ, zero, suc, ◌-◌, ◌^◌, ◌≤◌, ◌<◌, ◌≡◌, ◌∙◌, refl, sym, ap, Bool, true, false, List, [], ◌∷◌, ◌++◌,
  none, some, arith, length, take, drop, replicate, get_or, length-append, length-replicate, ltb,
  ◌==◌, if◌then◌else◌, length-take,
}
use vwarp.Text.Bytes.{take-length}
use vwarp.Noize.{random_bytes, length-random_bytes}
use vwarp.Preflight.{handshake_initiation}
use vwarp.Scanner.Ping.{
  Crypto, Link, random_int, random_packets, sent_before, packet_count, unsealed, initiation,
  uint32_to_bytes, little_endian, accepted, prepare, check_response, answer, exchange, connected,
  initiate_handshake,
}

-- The connection works, and the context lives on.
pub record IsUp (link : Link) : Type 0 where
  pub dialed : link.dialed ≡ true
  pub alive : (i : ℕ) → link.cancelled i ≡ false
  pub written : (i : ℕ) → link.written i ≡ true

-- Random packets of 40 to 99 bytes.
abbrev pub AllRandom : List (List ℕ) → Type 0
AllRandom [] = Unit
AllRandom (p ∷ packets) = (40 ≤ length p) × (length p < 100) × AllRandom packets

if_true {ℓ} : {A : Type ℓ} {b : Bool} {x : A} (y : A) → b ≡ true → (if b then x else y) ≡ x
if_true {b = b} {x = x} y e = rw e refl

random_int-within :
    (lo hi draw : ℕ) → lo < hi → (lo ≤ random_int lo hi draw) × (random_int lo hi draw < hi)
unfolding random_int
random_int-within lo hi draw h =
    let some_room : ltb (hi - lo) 1 ≡ false = ground arith in
    let below = mod-lt draw {m = hi - lo} (omega arith) in rw some_room (omega arith, omega arith)

module _ (link : Link) (up : IsUp link) where
  random_packets-AllRandom :
      (left i : ℕ)
      → (packets : List (List ℕ)) × (random_packets link left i ≡ (packets, true))
        × (length packets ≡ left)
        × AllRandom packets
  unfolding random_packets sent_before
  random_packets-AllRandom zero i = ([], refl, refl, tt)
  random_packets-AllRandom (suc left) i =
      let (packets, sent, count, all) = random_packets-AllRandom left (suc i) in
      let size = random_int-within 40 100 (link.size i) (omega arith) in
      let long = length-random_bytes (link.noise i) (random_int 40 100 (link.size i)) in
      (
        random_bytes (link.noise i) (random_int 40 100 (link.size i)) ∷ packets,
        rw (up.alive i, up.written i, sent) refl,
        ap suc count,
        (omega (arith, long, size.0), omega (arith, long, size.1), all),
      )

-- A response of a WireGuard peer: its type, the two indices, the Noise message and the MACs.
abbrev pub response_of : ℕ → ℕ → List ℕ → List ℕ → List ℕ
response_of sender receiver body macs =
    2 ∷ 0 ∷ 0 ∷ 0 ∷ (uint32_to_bytes sender ++ (uint32_to_bytes receiver ++ (body ++ macs)))

little_endian-bytes : (n : ℕ) → n < 2 ^ 32 → little_endian (uint32_to_bytes n) ≡ n
unfolding little_endian uint32_to_bytes
little_endian-bytes n h = omega arith

take-all : (n : ℕ) (xs : List ℕ) → length xs ≤ n → take n xs ≡ xs
take-all zero [] h = refl
take-all zero (x ∷ xs) h = absurd (omega arith)
take-all (suc n) [] h = refl
take-all (suc n) (x ∷ xs) h = ap (λ l. x ∷ l) (take-all n xs (omega arith))

front : (body macs : List ℕ) → length body ≡ 48 → take 48 (body ++ macs) ≡ body
front body macs h = ap (λ n. take n (body ++ macs)) (sym h) ∙ take-length body macs

module _ {S : Type 0} (lib : Crypto S) where
  whole :
      (sender receiver : ℕ) (body macs : List ℕ)
      → length body ≡ 48
      → length macs ≡ 32
      → take 92 (response_of sender receiver body macs) ≡ response_of sender receiver body macs
  unfolding uint32_to_bytes
  whole sender receiver body macs h k =
      take-all 92 (response_of sender receiver body macs) (omega (arith, length-append body macs))

  long_enough :
      (sender receiver : ℕ) (body macs : List ℕ)
      → length body ≡ 48
      → ltb (length (response_of sender receiver body macs)) 60 ≡ false
  unfolding uint32_to_bytes
  long_enough sender receiver body macs h = ground (arith, length-append body macs)

  index_of :
      (sender receiver : ℕ) (body macs : List ℕ)
      → receiver < 2 ^ 32
      → little_endian (take 4 (drop 8 (response_of sender receiver body macs))) ≡ receiver
  unfolding uint32_to_bytes little_endian
  index_of sender receiver body macs h = omega arith

  body_of :
      (sender receiver : ℕ) (body macs : List ℕ)
      → length body ≡ 48
      → take 48 (drop 12 (response_of sender receiver body macs)) ≡ body
  unfolding uint32_to_bytes
  body_of sender receiver body macs h = front body macs h

  checked :
      (state : S) (response body : List ℕ) (receiver rtt : ℕ)
      → ltb (length response) 60 ≡ false
      → get_or response 0 0 ≡ 2
      → little_endian (take 4 (drop 8 response)) ≡ receiver
      → take 48 (drop 12 response) ≡ body
      → check_response lib state response rtt
        ≡ (if receiver == 28 then accepted (lib.read_message state body) rtt else none)
  unfolding check_response
  checked state response body receiver rtt long kind index at_body =
      rw (long, kind, index, at_body) (ground arith)

  answer-peer :
      (state : S) (sender receiver : ℕ) (body macs : List ℕ) (rtt : ℕ)
      → receiver < 2 ^ 32
      → length body ≡ 48
      → length macs ≡ 32
      → answer lib state (some (response_of sender receiver body macs)) rtt
        ≡ (if receiver == 28 then accepted (lib.read_message state body) rtt else none)
  unfolding answer
  answer-peer state sender receiver body macs rtt small h k =
      ap (λ r. check_response lib state r rtt) (whole sender receiver body macs h k)
      ∙ checked state (response_of sender receiver body macs) body receiver rtt
          (long_enough sender receiver body macs h) refl (index_of sender receiver body macs small)
          (body_of sender receiver body macs h)

  initiation-frame :
      (message mac : List ℕ)
      → length message ≡ 108
      → 16 ≤ length mac
      → (length (initiation message mac) ≡ 148)
        × (handshake_initiation (initiation message mac) ≡ true)
  unfolding initiation unsealed uint32_to_bytes handshake_initiation
  initiation-frame message mac h k =
      let parts = length-append message (take 16 mac ++ replicate 16 0) in
      let parts' = length-append (take 16 mac) (replicate 16 0) in
      let front = length-take 16 mac in
      let zeros = length-replicate {A = ℕ} 16 0 in
      (omega (arith, parts, parts', front, zeros), ground (arith, parts, parts', front, zeros))

  -- When the connection works and the handshake is prepared, with a message of 108 bytes and a MAC of at
  -- least 16, and the answer is a response of a WireGuard peer: the ping sends 8 to 14 random packets of
  -- 40 to 99 bytes and then one packet of 148 bytes, which the preflight takes for a handshake
  -- initiation; and it has a time exactly if the response is for index 28 and the Noise library accepts
  -- it with an empty payload.
  pub initiate_handshake-peer :
      (link : Link) (state : S) (message mac private_key peer_public_key preshared_key : List ℕ)
      → (sender receiver : ℕ) (body macs : List ℕ) → IsUp link
      → prepare lib link private_key peer_public_key preshared_key
        ≡ some (initiation message mac, state)
      → length message ≡ 108
      → 16 ≤ length mac
      → link.response ≡ some (response_of sender receiver body macs)
      → receiver < 2 ^ 32
      → length body ≡ 48
      → length macs ≡ 32
      → (packets : List (List ℕ)) × (initiate_handshake lib link private_key peer_public_key
            preshared_key
          ≡ record {
            sent = packets ++ (initiation message mac ∷ []);
            rtt = if receiver == 28 then accepted (lib.read_message state body) link.rtt else none;
          })
        × (8 ≤ length packets)
        × (length packets < 15)
        × AllRandom packets
        × (length (initiation message mac) ≡ 148)
        × (handshake_initiation (initiation message mac) ≡ true)
  unfolding initiate_handshake connected exchange packet_count
  initiate_handshake-peer link state message mac private_key peer_public_key preshared_key sender
        receiver body macs up ready h k response small h' k' =
      let count = random_int-within 8 15 link.count (omega arith) in
      let (packets, written, long, all) =
        random_packets-AllRandom link up (random_int 8 15 link.count) 0 in
      let frame = initiation-frame message mac h k in
      let time = answer-peer state sender receiver body macs link.rtt small h' k' in
      (
        packets,
        ap (connected lib link) ready
            ∙ if_true _ up.dialed
            ∙ ap (exchange lib link (initiation message mac, state)) written
            ∙ if_true _ (up.written (random_int 8 15 link.count))
            ∙ ap
                (λ r. record {
                  sent = packets ++ (initiation message mac ∷ []);
                  rtt = answer lib state r link.rtt;
                })
                response
            ∙ ap (λ t. record { sent = packets ++ (initiation message mac ∷ []); rtt = t }) time,
        omega (arith, long, count.0),
        omega (arith, long, count.1),
        all,
        frame.0,
        frame.1,
      )
