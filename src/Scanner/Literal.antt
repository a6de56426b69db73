-- ===== src/Scanner/Literal.antt =====
-- Endpoints that were printed, as wiresocks/scanner.go and ipscanner/scanner.go read them.
use mathlib.Core.List.{append-nil, append_assoc}
use vwarp.Prelude.{
  ℕ, ◌<◌, ◌≡◌, ◌≢◌, ◌∙◌, refl, ap, List, [], ◌∷◌, ◌++◌, map, none, some, inl, inr, Bool-cases,
}
use vwarp.Text.Bytes.{has_byte}
use vwarp.Text.Decimal.{itoa}
use vwarp.Text.Hex.{split}
use vwarp.Text.HostPort.{join_host_port, IsPart}
use vwarp.Queue.{AddrPort}
use vwarp.WireScan.{Target, endpoint, target_of, targets_of}
use vwarp.WireScan.Targets.{target_of-join}
use vwarp.Scanner.{ScannerOptions, Net, apply_options}
use vwarp.Scanner.Endpoint.{add_endpoint, add_single, add_parsed}
use vwarp.Scanner.Scan.{is_some, parsers, target_option, target_options}
use vwarp.Scanner.Lists.{
  IsPlain, IsPlain-itoa, IsPlain-join, no_comma-IsPlain, trimmed-IsPlain, AllPlain,
}

abbrev pub text_of : List ℕ → AddrPort → List ℕ
text_of host ep = join_host_port host (itoa ep.port)

-- A host that netip reads, together with the port, as the endpoint.
pub record IsLiteral (net : Net) (host : List ℕ) (ep : AddrPort) : Type 0 where
  pub part : IsPart host
  pub plain : IsPlain host
  pub small : ep.port < 65536
  pub parsed : net.parse_addr_port (text_of host ep) ≡ some ep
  pub no_prefix : net.parse_prefix (text_of host ep) ≡ none

abbrev pub AllLiteral : Net → List (List ℕ × AddrPort) → Type 0
AllLiteral net [] = Unit
AllLiteral net ((host, ep) ∷ eps) = IsLiteral net host ep × AllLiteral net eps

abbrev pub texts_of : List (List ℕ × AddrPort) → List (List ℕ)
texts_of [] = []
texts_of ((host, ep) ∷ eps) = text_of host ep ∷ texts_of eps

abbrev pub endpoints_of : List (List ℕ × AddrPort) → List AddrPort
endpoints_of [] = []
endpoints_of ((host, ep) ∷ eps) = ep ∷ endpoints_of eps

module _ (net : Net) where
  literal-IsPlain :
      (host : List ℕ) (ep : AddrPort) → IsLiteral net host ep → IsPlain (text_of host ep)
  literal-IsPlain host ep h = IsPlain-join host (itoa ep.port) h.plain (IsPlain-itoa ep.port)

  pub AllLiteral-AllPlain :
      (eps : List (List ℕ × AddrPort)) → AllLiteral net eps → AllPlain (texts_of eps)
  AllLiteral-AllPlain [] h = tt
  AllLiteral-AllPlain ((host, ep) ∷ eps) (h, k) =
      (literal-IsPlain host ep h, AllLiteral-AllPlain eps k)

  target_of-literal :
      (host : List ℕ) (ep : AddrPort)
      → IsLiteral net host ep
      → target_of (parsers net) (text_of host ep) ≡ some (endpoint (text_of host ep))
  target_of-literal host ep h =
      target_of-join (parsers net) host ep.port h.part h.small (ap is_some h.no_prefix)

  targets_of-cons :
      (t : List ℕ) (texts : List (List ℕ)) (x : Target) (xs : List Target)
      → t ≢ []
      → IsPlain t
      → target_of (parsers net) t ≡ some x
      → targets_of (parsers net) texts ≡ some xs
      → targets_of (parsers net) (t ∷ texts) ≡ some (x ∷ xs)
  unfolding targets_of
  targets_of-cons [] texts x xs ne h e e' = absurd (ne refl)
  targets_of-cons (c ∷ t) texts x xs ne h e e' =
      rw (targets_of, trimmed-IsPlain (c ∷ t) h) (rw (e, e') refl)

  pub text_of-ne-nil : (host : List ℕ) (ep : AddrPort) → text_of host ep ≢ []
  unfolding join_host_port
  text_of-ne-nil host ep e = elim (Bool-cases (has_byte host b':')) [
    | inl colon ↦ brackets (rw colon at e)
    | inr plain ↦ behind host _ (rw plain at e)
  ]
    where
      brackets : {s : List ℕ} → (b'[' ∷ s) ≡ [] → ⊥
      brackets e = cc

      behind : (s t : List ℕ) → s ++ (b':' ∷ t) ≡ [] → ⊥
      behind [] t e = cc
      behind (c ∷ s) t e = cc

  pub targets_of-literals :
      (eps : List (List ℕ × AddrPort))
      → AllLiteral net eps
      → targets_of (parsers net) (texts_of eps) ≡ some (map endpoint (texts_of eps))
  targets_of-literals [] h = unfold targets_of in refl
  targets_of-literals ((host, ep) ∷ eps) (h, k) =
      targets_of-cons (text_of host ep) (texts_of eps) _ _ (text_of-ne-nil host ep)
        (literal-IsPlain host ep h) (target_of-literal host ep h) (targets_of-literals eps k)

  -- The endpoint is appended, whatever families are enabled.
  add_endpoint-literal :
      (host : List ℕ) (ep : AddrPort) (o : ScannerOptions)
      → IsLiteral net host ep
      → add_endpoint net (text_of host ep) o
        ≡ record o { custom_endpoints = o.custom_endpoints ++ (ep ∷ []) }
  unfolding add_endpoint add_single add_parsed
  add_endpoint-literal host ep o h =
      rw (no_comma-IsPlain (text_of host ep) (literal-IsPlain host ep h), h.parsed) refl

  pub apply-literals :
      (eps : List (List ℕ × AddrPort)) (o : ScannerOptions)
      → AllLiteral net eps
      → apply_options (map (target_option net) (map endpoint (texts_of eps))) o
        ≡ record o { custom_endpoints = o.custom_endpoints ++ endpoints_of eps }
  unfolding apply_options target_option
  apply-literals [] o h = rw (append-nil o.custom_endpoints) refl
  apply-literals ((host, ep) ∷ eps) o (h, k) =
      rw (apply_options, target_option, add_endpoint-literal host ep o h)
        (apply-literals eps _ k
          ∙ rw (append_assoc o.custom_endpoints (ep ∷ []) (endpoints_of eps)) refl)

  pub target_options-text :
      (t : List ℕ) (texts : List (List ℕ)) (ts : List Target)
      → t ≢ []
      → split b',' t ≡ texts
      → targets_of (parsers net) texts ≡ some ts
      → target_options net t ≡ some (map (target_option net) ts)
  unfolding target_options
  target_options-text [] texts ts ne e e' = absurd (ne refl)
  target_options-text (c ∷ t) texts ts ne e e' = rw (e, e') refl
