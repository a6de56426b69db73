-- ===== src/Engine/Counts.antt =====
-- Counting the results that items of the pipeline of ipscanner/engine/engine.go lead to, as a view of
-- its lists that forgets their order.
use vwarp.Prelude.{
  ℕ, zero, suc, ◌+◌, ◌≤◌, ◌≡◌, refl, Bool, false, List, [], ◌∷◌, ◌++◌, Option, none, some, arith,
  if◌then◌else◌, ◌>>=◌, ap, ◌∙◌, sym, ◌&&◌, not,
}
use vwarp.Queue.{IpInfo}
use vwarp.Engine.{keep_first, pull, delivered, filtered}

-- The results with the property `p` that items lead to by `f`.
unfoldable pub hit : (IpInfo → Bool) → Option IpInfo → ℕ
hit p none = 0
hit p (some r) = if p r then 1 else 0

unfoldable pub tally : (IpInfo → Bool) → (IpInfo → Option IpInfo) → List IpInfo → ℕ
tally p f [] = 0
tally p f (x ∷ l) = hit p (f x) + tally p f l

pub tally-append :
    (p : IpInfo → Bool)
    → (f : IpInfo → Option IpInfo) → (l m : List IpInfo)
    → tally p f (l ++ m) ≡ tally p f l + tally p f m
unfolding tally
tally-append p f [] m = ground arith
tally-append p f (x ∷ l) m = ground (arith, tally-append p f l m)

-- The tally of an item that was pulled out of a list and of the others; of the list, if none was.
unfoldable pub tally_pulled :
    (IpInfo → Bool) → (IpInfo → Option IpInfo) → Option (IpInfo × List IpInfo) → ℕ → ℕ
tally_pulled p f none total = total
tally_pulled p f (some (x, rest)) total = hit p (f x) + tally p f rest

keep_first-tally :
    (p : IpInfo → Bool)
    → (f : IpInfo → Option IpInfo) → (x : IpInfo) → (o : Option (IpInfo × List IpInfo))
    → (total : ℕ)
    → tally_pulled p f (keep_first x o) (hit p (f x) + total)
      ≡ hit p (f x) + tally_pulled p f o total
unfolding keep_first tally tally_pulled
keep_first-tally p f x none total = refl
keep_first-tally p f x (some (z, r)) total = omega arith

pub pull-tally :
    (p : IpInfo → Bool)
    → (f : IpInfo → Option IpInfo) → (n : ℕ) → (l : List IpInfo)
    → tally_pulled p f (pull n l) (tally p f l) ≡ tally p f l
unfolding pull tally tally_pulled
pull-tally p f n [] = refl
pull-tally p f zero (y ∷ l) = refl
pull-tally p f (suc n) (y ∷ l) =
    keep_first-tally p f y (pull n l) (tally p f l) ∙ ap (λ t. hit p (f y) + t) (pull-tally p f n l)

-- No result is made up, and none is lost unless the context is cancelled.
unfoldable pub Balanced : Bool → ℕ → ℕ → Type 0
Balanced cancelled now before = (now ≤ before) × (cancelled ≡ false → now ≡ before)

pub same-Balanced : (cancelled : Bool) (n : ℕ) → Balanced cancelled n n
unfolding Balanced
same-Balanced cancelled n = (omega arith, λ h. refl)

pub delivered-Balanced :
    (p : IpInfo → Bool)
    → (f g : IpInfo → Option IpInfo) → (capacity : ℕ) → (cancelled kept : Bool)
    → (r : Option IpInfo) → (busy rest out : List IpInfo)
    → tally p (λ x. f x >>= g) busy ≡ hit p (r >>= g) + tally p (λ x. f x >>= g) rest
    → Balanced cancelled
        (tally p (λ x. f x >>= g) (delivered capacity (cancelled && not kept) r busy rest out).0
          + tally p g (delivered capacity (cancelled && not kept) r busy rest out).1)
        (tally p (λ x. f x >>= g) busy + tally p g out)
unfolding Balanced delivered tally hit
delivered-Balanced p f g capacity cancelled kept none busy rest out h = ground arith
delivered-Balanced p f g capacity cancelled kept (some r) busy rest out h =
    ground (arith, tally-append p g out (r ∷ []))

pub filtered-Balanced :
    (p : IpInfo → Bool)
    → (f g : IpInfo → Option IpInfo) → (capacity : ℕ) → (cancelled kept : Bool)
    → (o : Option (IpInfo × List IpInfo)) → (busy out : List IpInfo)
    → tally_pulled p (λ x. f x >>= g) o (tally p (λ x. f x >>= g) busy)
      ≡ tally p (λ x. f x >>= g) busy
    → Balanced cancelled
        (tally p (λ x. f x >>= g) (filtered f capacity (cancelled && not kept) o busy out).0
          + tally p g (filtered f capacity (cancelled && not kept) o busy out).1)
        (tally p (λ x. f x >>= g) busy + tally p g out)
unfolding filtered tally_pulled
filtered-Balanced p f g capacity cancelled kept none busy out h =
    same-Balanced cancelled (tally p (λ x. f x >>= g) busy + tally p g out)
filtered-Balanced p f g capacity cancelled kept (some (x, rest)) busy out h =
    delivered-Balanced p f g capacity cancelled kept (f x) busy rest out (sym h)
