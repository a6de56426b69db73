-- ===== src/Preflight/Frame.antt =====
-- The IKEv2 frame of wireguard/preflightbind/preflight_bind.go.
use vwarp.Prelude.{
  ℕ, zero, suc, ◌-◌, ◌≤◌, ◌+◌, ◌*◌, ◌^◌, ◌<◌, ◌≡◌, refl, List, [], ◌∷◌, ◌++◌, length, length-append,
  length-take, drop, arith,
}
use vwarp.Proxy.Ip.{put_uint16, uint16}
use vwarp.Noize.{random_bytes, length-random_bytes}
use vwarp.Preflight.{put_uint32, initiator_spi, wrap_in_ikev2_header}

abbrev pub uint32 : List ℕ → ℕ
uint32 (a ∷ b ∷ c ∷ d ∷ rest) = a * 2 ^ 24 + b * 2 ^ 16 + c * 2 ^ 8 + d
uint32 _ = 0

length-initiator_spi : (noise : ℕ → ℕ) (payload : List ℕ) → length (initiator_spi noise payload) ≡ 8
unfolding initiator_spi
length-initiator_spi noise payload =
    ground (arith, length-take 8 payload, length-random_bytes noise 8)

drop_past : (k : ℕ) (xs ys : List ℕ) → length xs ≤ k → drop k (xs ++ ys) ≡ drop (k - length xs) ys
drop_past k [] ys h = let same : k - 0 ≡ k = omega arith in rw same refl
drop_past zero (x ∷ xs) ys h = absurd (omega arith)
drop_past (suc k) (x ∷ xs) ys h =
    let same : suc k - suc (length xs) ≡ k - length xs = omega arith in
    rw same (drop_past k xs ys (omega arith))

-- Behind the two SPIs.
behind :
    (k : ℕ) (xs ys zs : List ℕ)
    → length xs ≡ 8
    → length ys ≡ 8
    → 16 ≤ k
    → drop k (xs ++ (ys ++ zs)) ≡ drop (k - 16) zs
behind k xs ys zs h h' n =
    let same : k - 8 - 8 ≡ k - 16 = omega arith in
    rw (drop_past k xs (ys ++ zs) (omega arith), h)
      (rw (drop_past (k - 8) ys zs (omega arith), h') (rw same refl))

-- For a payload of at least one and less than 2^16 - 24 bytes: the frame is 52 bytes longer than the
-- payload, which stands unchanged at its end; the length field of the IKEv2 header (bytes 24 to 27)
-- gives the length of the frame, and that of the security association (bytes 30 and 31) is 28 less.
pub wrap_in_ikev2_header-frame :
    (noise noise' : ℕ → ℕ) (b : ℕ) (rest : List ℕ)
    → 24 + length (b ∷ rest) < 2 ^ 16
    → (length (wrap_in_ikev2_header noise noise' (b ∷ rest)) ≡ 52 + length (b ∷ rest))
      × (drop 52 (wrap_in_ikev2_header noise noise' (b ∷ rest)) ≡ b ∷ rest)
      × (uint32 (drop 24 (wrap_in_ikev2_header noise noise' (b ∷ rest)))
          ≡ length (wrap_in_ikev2_header noise noise' (b ∷ rest)))
      × (uint16 (drop 30 (wrap_in_ikev2_header noise noise' (b ∷ rest))) + 28
          ≡ length (wrap_in_ikev2_header noise noise' (b ∷ rest)))
unfolding wrap_in_ikev2_header put_uint32 put_uint16 uint16
wrap_in_ikev2_header-frame noise noise' b rest h =
    let i = length-initiator_spi noise (b ∷ rest) in
    let r = length-random_bytes noise' 8 in
    let long : length (wrap_in_ikev2_header noise noise' (b ∷ rest)) ≡ 52 + length (b ∷ rest) =
      omega (
        arith,
        i,
        r,
        length-append (initiator_spi noise (b ∷ rest)) _,
        length-append (random_bytes noise' 8) _,
      ) in
    (
      long,
      behind 52 (initiator_spi noise (b ∷ rest)) (random_bytes noise' 8) _ i r (omega arith),
      rw
          (
            long,
            behind 24 (initiator_spi noise (b ∷ rest)) (random_bytes noise' 8) _ i r (omega arith),
          )
          (omega arith),
      rw
          (
            long,
            behind 30 (initiator_spi noise (b ∷ rest)) (random_bytes noise' 8) _ i r (omega arith),
          )
          (omega arith),
    )
