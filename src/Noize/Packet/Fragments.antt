-- ===== src/Noize/Packet/Fragments.antt =====
-- The fragments of masque/noize/noize.go.
use mathlib.Core.List.{flatten}
use vwarp.Prelude.{
  ℕ, zero, suc, ◌≤◌, ◌<◌, ◌≡◌, refl, ap, ◌∙◌, true, false, List, [], ◌∷◌, ◌++◌, length, length-drop,
  length-take, take, drop, take-append-drop, arith, leb,
}
use vwarp.Prelude.Int.{pos}
use vwarp.Noize.Packet.{fragments_from, fragment_initial_packet}

abbrev pub AllAtMost : ℕ → List (List ℕ) → Type 0
AllAtMost n [] = Unit
AllAtMost n (f ∷ fs) = (1 ≤ length f) × (length f ≤ n) × AllAtMost n fs

fragments_from-flatten :
    (fuel n : ℕ) (left : List ℕ)
    → length left ≤ fuel
    → (flatten (fragments_from fuel (suc n) left) ≡ left)
      × AllAtMost (suc n) (fragments_from fuel (suc n) left)
unfolding fragments_from flatten
fragments_from-flatten zero n [] h = (refl, tt)
fragments_from-flatten zero n (b ∷ left) h = absurd (omega arith)
fragments_from-flatten (suc fuel) n [] h = (refl, tt)
fragments_from-flatten (suc fuel) n (b ∷ left) h =
    let (whole, small) =
      fragments_from-flatten fuel n (drop n left) (omega (arith, length-drop n left)) in
    (
      ap (λ l. take (suc n) (b ∷ left) ++ l) whole ∙ take-append-drop (suc n) (b ∷ left),
      (omega arith, omega (arith, length-take n left), small),
    )

-- With a connection and a fragment size that is positive and below the packet's length: the fragment
-- that is returned has exactly that size, the fragments that are sent have at least one byte and at
-- most that size, and one after the other they are the packet.
pub fragment_initial_packet-flatten :
    (n : ℕ) (packet : List ℕ)
    → suc n < length packet
    → (flatten (
          (fragment_initial_packet (pos (suc n)) true packet).0
          ∷ (fragment_initial_packet (pos (suc n)) true packet).1)
        ≡ packet)
      × (length (fragment_initial_packet (pos (suc n)) true packet).0 ≡ suc n)
      × AllAtMost (suc n) (fragment_initial_packet (pos (suc n)) true packet).1
unfolding fragment_initial_packet flatten
fragment_initial_packet-flatten n packet h =
    let long : leb (length packet) (suc n) ≡ false = ground arith in
    let (whole, small) =
      fragments_from-flatten (length packet) n (drop (suc n) packet)
        (omega (arith, length-drop (suc n) packet)) in
    rw long (
      ap (λ l. take (suc n) packet ++ l) whole ∙ take-append-drop (suc n) packet,
      omega (arith, length-take (suc n) packet),
      small,
    )
