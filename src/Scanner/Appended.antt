-- ===== src/Scanner/Appended.antt =====
-- What `addEndpoint` of ipscanner/scanner.go appends.
use mathlib.Core.List.{append-nil, append_assoc}
use mathlib.Core.Path.{subst}
use vwarp.Prelude.{
  ℕ, ◌≡◌, ◌∙◌, refl, ap, sym, true, inl, inr, Bool-cases, List, [], ◌∷◌, ◌++◌, Option, none, some,
}
use vwarp.Text.Bytes.{has_byte}
use vwarp.Text.Decimal.{parse_uint16}
use vwarp.Text.Hex.{split}
use vwarp.Text.HostPort.{split_host_port}
use vwarp.WireScan.{trimmed}
use vwarp.Queue.{AddrPort}
use vwarp.Scanner.{ScannerOptions, Net}
use vwarp.Scanner.Endpoint.{
  family_enabled, add_custom, add_resolved, add_looked_up, default_port, add_host, add_addr,
  add_parsed, add_single, add_parts, add_endpoint,
}

-- An endpoint that netip read, an address that netip read with the default port, or an address of a
-- name, of an enabled family.
pub data Given (net : Net) (o : ScannerOptions) (ep : AddrPort) : Type 0 where
  literal : (t : List ℕ) → net.parse_addr_port t ≡ some ep → Given net o ep
  bare : (t : List ℕ) → net.parse_addr t ≡ some ep.addr → ep.port ≡ default_port o → Given net o ep
  resolved :
      (t : List ℕ) (before after : List (List ℕ))
      → net.lookup_ip t ≡ some (before ++ (ep.addr ∷ after))
      → family_enabled o ep.addr ≡ true
      → Given net o ep

abbrev pub AllGiven : Net → ScannerOptions → List AddrPort → Type 0
AllGiven net o [] = Unit
AllGiven net o (ep ∷ eps) = Given net o ep × AllGiven net o eps

abbrev pub appended : ScannerOptions → List AddrPort → ScannerOptions
appended o eps = record o { custom_endpoints = o.custom_endpoints ++ eps }

Added : Net → ScannerOptions → ScannerOptions → Type 0
Added net o o' = (eps : List AddrPort) × (o' ≡ appended o eps) × AllGiven net o eps

module _ (net : Net) where
  same-Given :
      (o : ScannerOptions) (eps : List AddrPort) (ep : AddrPort)
      → Given net (appended o eps) ep
      → Given net o ep
  unfolding family_enabled default_port
  same-Given o eps ep (literal t e) = literal t e
  same-Given o eps ep (bare t e e') = bare t e e'
  same-Given o eps ep (resolved t xs ys e e') = resolved t xs ys e e'

  AllGiven-append :
      (o : ScannerOptions) (before xs ys : List AddrPort)
      → AllGiven net o xs
      → AllGiven net (appended o before) ys
      → AllGiven net o (xs ++ ys)
  AllGiven-append o before [] [] h k = tt
  AllGiven-append o before [] (y ∷ ys) h (k, l) =
      (same-Given o before y k, AllGiven-append o before [] ys h l)
  AllGiven-append o before (x ∷ xs) ys (g, h) k = (g, AllGiven-append o before xs ys h k)

  nothing : (o : ScannerOptions) → Added net o o
  unfolding Added
  nothing o = ([], rw (append-nil o.custom_endpoints) refl, tt)

  then_from :
      (o : ScannerOptions) (xs : List AddrPort) (o'' : ScannerOptions)
      → AllGiven net o xs
      → Added net (appended o xs) o''
      → Added net o o''
  unfolding Added
  then_from o xs o'' h (ys, e, k) = (
    xs ++ ys,
    e ∙ rw (append_assoc o.custom_endpoints xs ys) refl,
    AllGiven-append o xs xs ys h k,
  )

  chain : (o o' o'' : ScannerOptions) → Added net o o' → Added net o' o'' → Added net o o''
  unfolding Added
  chain o o' o'' (xs, e, h) more = then_from o xs o'' h (subst (λ x. Added net x o'') e more)

  single :
      (o : ScannerOptions) (ep : AddrPort) → Given net o ep → Added net o (appended o (ep ∷ []))
  unfolding Added
  single o ep g = (ep ∷ [], refl, (g, tt))

  add_resolved-Added :
      (t : List ℕ) (before ips : List (List ℕ)) (port : ℕ) (o : ScannerOptions)
      → net.lookup_ip t ≡ some (before ++ ips)
      → Added net o (add_resolved ips port o)
  unfolding add_resolved add_custom
  add_resolved-Added t before [] port o e = nothing o
  add_resolved-Added t before (ip ∷ ips) port o e =
      let later = e ∙ ap some (sym (append_assoc before (ip ∷ []) ips)) in
      elim (Bool-cases (family_enabled o ip)) [
        | inl on ↦ rw on (
            chain o (appended o (record { addr = ip; port = port } ∷ [])) _
              (single o (record { addr = ip; port = port }) (resolved t before ips e on))
              (add_resolved-Added t (before ++ (ip ∷ [])) ips port _ later))
        | inr off ↦ rw off (add_resolved-Added t (before ++ (ip ∷ [])) ips port o later)
      ]

  add_looked_up-Added :
      (t : List ℕ) (port : Option ℕ) (o : ScannerOptions)
      → Added net o (add_looked_up (net.lookup_ip t) port o)
  unfolding add_looked_up
  add_looked_up-Added t port o = by_answer (net.lookup_ip t) port refl
    where
      by_answer :
          (r : Option (List (List ℕ))) (port : Option ℕ)
          → net.lookup_ip t ≡ r
          → Added net o (add_looked_up r port o)
      by_answer none port e = nothing o
      by_answer (some ips) none e = nothing o
      by_answer (some ips) (some port) e = add_resolved-Added t [] ips port o e

  add_host-Added :
      (t : List ℕ) (split : Option (List ℕ × List ℕ)) (o : ScannerOptions)
      → Added net o (add_host net t split o)
  unfolding add_host
  add_host-Added t none o = add_looked_up-Added t (some (default_port o)) o
  add_host-Added t (some (host, port)) o = add_looked_up-Added host (parse_uint16 port) o

  add_addr-Added :
      (t : List ℕ) (r : Option (List ℕ)) (o : ScannerOptions)
      → net.parse_addr t ≡ r
      → Added net o (add_addr net t r o)
  unfolding add_addr add_custom
  add_addr-Added t none o e = add_host-Added t (split_host_port t) o
  add_addr-Added t (some addr) o e =
      single o (record { addr = addr; port = default_port o }) (bare t e refl)

  add_parsed-Added :
      (t : List ℕ) (r : Option AddrPort) (o : ScannerOptions)
      → net.parse_addr_port t ≡ r
      → Added net o (add_parsed net t r o)
  unfolding add_parsed
  add_parsed-Added t none o e = add_addr-Added t (net.parse_addr t) o refl
  add_parsed-Added t (some ep) o e = single o ep (literal t e)

  add_single-Added : (t : List ℕ) (o : ScannerOptions) → Added net o (add_single net t o)
  unfolding add_single
  add_single-Added t o = add_parsed-Added t (net.parse_addr_port t) o refl

  next_part :
      (text : List ℕ) (parts : List (List ℕ)) (o : ScannerOptions)
      → ((o' : ScannerOptions) → Added net o' (add_parts net parts o'))
      → Added net o (elim text [
        | [] ↦ add_parts net parts o
        | c ∷ rest ↦ add_parts net parts (add_single net (c ∷ rest) o)
      ])
  next_part [] parts o later = later o
  next_part (c ∷ rest) parts o later =
      chain o _ _ (add_single-Added (c ∷ rest) o) (later (add_single net (c ∷ rest) o))

  add_parts-Added :
      (parts : List (List ℕ)) (o : ScannerOptions) → Added net o (add_parts net parts o)
  unfolding add_parts
  add_parts-Added [] o = nothing o
  add_parts-Added (part ∷ parts) o =
      next_part (trimmed part) parts o (λ o'. add_parts-Added parts o')

  -- Whatever the text, `addEndpoint` only appends custom endpoints: each is one that netip read, an
  -- address that netip read with the default port, or one of the addresses that a name was resolved to,
  -- of an enabled family.
  pub add_endpoint-Given :
      (t : List ℕ) (o : ScannerOptions)
      → (eps : List AddrPort) × (add_endpoint net t o
          ≡ record o { custom_endpoints = o.custom_endpoints ++ eps })
        × AllGiven net o eps
  unfolding add_endpoint Added
  add_endpoint-Given t o = elim (Bool-cases (has_byte t b',')) [
    | inl e ↦ rw e (add_parts-Added (split b',' t) o)
    | inr e ↦ rw e (add_single-Added t o)
  ]
