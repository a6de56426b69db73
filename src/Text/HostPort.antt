-- ===== src/Text/HostPort.antt =====
-- Go's `net.JoinHostPort` and `net.SplitHostPort`.
use vwarp.Prelude.{
  ℕ, suc, ◌≡◌, refl, ap, ◌∙◌, inl, inr, Bool-cases, Bool, true, false, ◌&&◌, List, [], ◌∷◌, ◌++◌,
  Option, none, some, arith, length, length-append, take, drop, ◌==◌, if◌then◌else◌,
}
use vwarp.Text.Bytes.{
  has_byte, index_byte, last_index_byte, last_index_byte-last, last_index_byte-none,
  index_byte-first, take-length, drop-suc-length, has_byte-append,
}
use mathlib.Core.List.{append_assoc}

-- `net.JoinHostPort`: a host with a colon in it goes into brackets.
unfoldable pub join_host_port : List ℕ → List ℕ → List ℕ
join_host_port host port =
    if has_byte host b':' then b'[' ∷ (host ++ (b']' ∷ b':' ∷ port)) else host ++ (b':' ∷ port)

-- The brackets may stand only where a bracketed host has them: none in `hostport[j:]` opens, none
-- in `hostport[k:]` closes.
no_stray : List ℕ → ℕ → ℕ → Bool
no_stray s j k =
    if has_byte (drop j s) b'[' then false else if has_byte (drop k s) b']' then false else true

-- `i` is the place of the last colon, `end` that of the first closing bracket.
split_bracketed : List ℕ → ℕ → Option ℕ → Option (List ℕ × List ℕ)
split_bracketed s i none = none
split_bracketed s i (some end) =
    if suc end == i && no_stray s 1 (suc end)
    then some (drop 1 (take end s), drop (suc i) s)
    else none

split_plain : List ℕ → ℕ → Option (List ℕ × List ℕ)
split_plain s i =
    if has_byte (take i s) b':'
    then none
    else if no_stray s 0 0
    then some (take i s, drop (suc i) s)
    else none

split_at : List ℕ → Option ℕ → Option (List ℕ × List ℕ)
split_at s none = none
split_at [] (some i) = none
split_at (c ∷ s) (some i) =
    if c == b'[' then split_bracketed (c ∷ s) i (index_byte (c ∷ s) b']') else split_plain (c ∷ s) i

-- `net.SplitHostPort`; `none` is its error.
unfoldable pub split_host_port : List ℕ → Option (List ℕ × List ℕ)
unfolding split_at split_bracketed split_plain no_stray
split_host_port s = split_at s (last_index_byte s b':')

-- A text without a colon has no port.
pub split_host_port-none : (s : List ℕ) → has_byte s b':' ≡ false → split_host_port s ≡ none
unfolding split_host_port
split_host_port-none s h = rw (last_index_byte-none s b':' h)

-- A part that can stand on either side of the colon.
pub record IsPart (s : List ℕ) : Type 0 where
  pub no_open : has_byte s b'[' ≡ false
  pub no_close : has_byte s b']' ≡ false

module _ (port : List ℕ) (p : IsPart port) (q : has_byte port b':' ≡ false) where
  no_stray-plain : (host : List ℕ) → IsPart host → no_stray (host ++ (b':' ∷ port)) 0 0 ≡ true
  unfolding no_stray
  no_stray-plain host h =
      ground
        (arith, has_byte-append host (b':' ∷ port) b'[', has_byte-append host (b':' ∷ port) b']')

  split_plain-join :
      (host : List ℕ)
      → IsPart host
      → has_byte host b':' ≡ false
      → split_plain (host ++ (b':' ∷ port)) (length host) ≡ some (host, port)
  unfolding split_plain
  split_plain-join host h e =
      rw (take-length host (b':' ∷ port), e, no_stray-plain host h, drop-suc-length host b':' port)

  split_at-plain :
      (host : List ℕ)
      → IsPart host
      → split_at (host ++ (b':' ∷ port)) (some (length host))
        ≡ split_plain (host ++ (b':' ∷ port)) (length host)
  unfolding split_at
  split_at-plain [] h = refl
  split_at-plain (x ∷ xs) h = ground (arith, h.no_open)

  split_bracketed-join :
      (host : List ℕ)
      → IsPart host
      → split_bracketed
          (b'[' ∷ (host ++ (b']' ∷ b':' ∷ port)))
          (suc (suc (length host)))
          (some (suc (length host)))
        ≡ some (host, port)
  unfolding split_bracketed no_stray
  split_bracketed-join host h = ground (
    arith,
    has_byte-append host (b']' ∷ b':' ∷ port) b'[',
    drop-suc-length host b']' (b':' ∷ port),
    take-length host (b']' ∷ b':' ∷ port),
    drop-suc-suc host,
  )
    where
      drop-suc-suc :
          (xs : List ℕ) → drop (suc (suc (length xs))) (xs ++ (b']' ∷ b':' ∷ port)) ≡ port
      drop-suc-suc [] = refl
      drop-suc-suc (x ∷ xs) = drop-suc-suc xs

  last_colon :
      (host : List ℕ)
      → last_index_byte (b'[' ∷ (host ++ (b']' ∷ b':' ∷ port))) b':'
        ≡ some (suc (suc (length host)))
  last_colon host = rw (← append_assoc (b'[' ∷ host) (b']' ∷ []) (b':' ∷ port)) (
      rw (last_index_byte-last ((b'[' ∷ host) ++ (b']' ∷ [])) port b':' q)
        (ap some (length-append (b'[' ∷ host) (b']' ∷ []) ∙ omega arith)))

  -- Splitting a joined pair gives the pair back, for a host and a port with no brackets in them and
  -- no colon in the port. The host may hold colons.
  pub split-join :
      (host : List ℕ) → IsPart host → split_host_port (join_host_port host port) ≡ some (host, port)
  unfolding split_host_port join_host_port
  split-join host h = elim (Bool-cases (has_byte host b':')) [
    | inl colon ↦ rw (colon, last_colon host) (bracketed host h)
    | inr plain ↦
        rw (plain, last_index_byte-last host port b':' q)
          (split_at-plain host h ∙ split_plain-join host h plain)
  ]
    where
      bracketed :
          (host : List ℕ)
          → IsPart host
          → split_at (b'[' ∷ (host ++ (b']' ∷ b':' ∷ port))) (some (suc (suc (length host))))
            ≡ some (host, port)
      bracketed host h =
          rw (index_byte-first (b'[' ∷ host) (b':' ∷ port) b']' h.no_close)
            (split_bracketed-join host h)
