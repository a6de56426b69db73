-- ===== src/Engine/Listed.antt =====
-- The candidates that `Run` of ipscanner/engine/engine.go makes of addresses and endpoints.
use mathlib.Core.Path.{subst}
use vwarp.Prelude.{
  ℕ, ◌≡◌, ◌≢◌, ◌∙◌, refl, ap, Bool, true, false, ◌&&◌, ◌||◌, inl, inr, Bool-cases, List, [], ◌∷◌,
  ◌++◌, arith, ◌==◌, ==_iff,
}
use vwarp.Text.{text_eq, text_eq_iff}
use vwarp.Queue.{AddrPort, IpInfo}
use vwarp.Engine.Candidates.{
  has_port, append_if_missing, add_candidate, add_endpoints, any_port, infos_of, all_candidates,
  candidates_of,
}

-- Whether an address and port stand in a list of endpoints, and in the endpoints of candidates.
abbrev pub has_endpoint : List ℕ → ℕ → List AddrPort → Bool
has_endpoint ip port [] = false
has_endpoint ip port (ep ∷ eps) =
    (text_eq ep.addr ip && (ep.port == port)) || has_endpoint ip port eps

abbrev pub tried : List ℕ → ℕ → List IpInfo → Bool
tried ip port [] = false
tried ip port (info ∷ infos) =
    (text_eq info.addr_port.addr ip && (info.addr_port.port == port)) || tried ip port infos

module _ (ip : List ℕ) (port : ℕ) where
  -- In the map of candidates.
  listed : List (List ℕ × List ℕ) → Bool
  listed [] = false
  listed ((addr, ports) ∷ m) = (text_eq addr ip && has_port ports port) || listed m

  tried-append :
      (xs ys : List IpInfo) → tried ip port (xs ++ ys) ≡ (tried ip port xs || tried ip port ys)
  tried-append [] ys = refl
  tried-append (x ∷ xs) ys = ground (arith, tried-append xs ys)

  tried-infos_of :
      (addr ports : List ℕ)
      → tried ip port (infos_of addr ports) ≡ (text_eq addr ip && has_port ports port)
  unfolding infos_of has_port
  tried-infos_of addr [] = ground arith
  tried-infos_of addr (p ∷ ports) = ground (arith, tried-infos_of addr ports)

  has_port-append :
      (ports : List ℕ) (v : ℕ)
      → has_port (ports ++ (v ∷ [])) port ≡ (has_port ports port || (v == port))
  unfolding has_port
  has_port-append [] v = ground arith
  has_port-append (p ∷ ports) v = ground (arith, has_port-append ports v)

  has_port-same :
      (ports : List ℕ) (v : ℕ)
      → has_port ports v ≡ true
      → (v == port) ≡ true
      → has_port ports port ≡ true
  has_port-same ports v h e = subst (λ p. has_port ports p ≡ true) ((==_iff v port).0 e) h

  append_if_missing-has :
      (ports : List ℕ) (v : ℕ)
      → has_port (append_if_missing ports v) port ≡ (has_port ports port || (v == port))
  unfolding append_if_missing
  append_if_missing-has ports v = elim (Bool-cases (has_port ports v)) [
    | inl e ↦ rw e (ground (arith, has_port-same ports v e))
    | inr e ↦ rw e (has_port-append ports v)
  ]

  add_candidate-listed :
      (m : List (List ℕ × List ℕ)) (addr : List ℕ) (v : ℕ)
      → listed (add_candidate m addr v) ≡ (listed m || (text_eq addr ip && (v == port)))
  unfolding listed add_candidate has_port
  add_candidate-listed [] addr v = ground arith
  add_candidate-listed ((a, ports) ∷ m) addr v = elim (Bool-cases (text_eq a addr)) [
    | inl e ↦
        (let same : text_eq a ip ≡ text_eq addr ip =
            ap (λ x. text_eq x ip) ((text_eq_iff a addr).0 e) in
          rw e (rw (append_if_missing-has ports v, same) (ground arith)))
    | inr e ↦ rw e (ground (arith, add_candidate-listed m addr v))
  ]

  add_endpoints-listed :
      (m : List (List ℕ × List ℕ)) (eps : List AddrPort)
      → listed (add_endpoints m eps) ≡ (listed m || has_endpoint ip port eps)
  unfolding add_endpoints
  add_endpoints-listed m [] = ground arith
  add_endpoints-listed m (ep ∷ eps) =
      add_endpoints-listed (add_candidate m ep.addr ep.port) eps
      ∙ rw (add_candidate-listed m ep.addr ep.port) (ground arith)

-- Every address of the map has a port.
AllPorted : List (List ℕ × List ℕ) → Type 0
AllPorted [] = Unit
AllPorted ((addr, ports) ∷ m) = (ports ≢ []) × AllPorted m

append_if_missing-ne-nil : (ports : List ℕ) (v : ℕ) → append_if_missing ports v ≢ []
unfolding append_if_missing has_port
append_if_missing-ne-nil [] v e = cc
append_if_missing-ne-nil (p ∷ ports) v e = ground arith

add_candidate-AllPorted :
    (m : List (List ℕ × List ℕ)) (addr : List ℕ) (v : ℕ)
    → AllPorted m
    → AllPorted (add_candidate m addr v)
unfolding AllPorted add_candidate
add_candidate-AllPorted [] addr v h = ((λ e. cc), tt)
add_candidate-AllPorted ((a, ports) ∷ m) addr v (ne, h) = elim (Bool-cases (text_eq a addr)) [
  | inl e ↦ rw e (append_if_missing-ne-nil ports v, h)
  | inr e ↦ rw e (ne, add_candidate-AllPorted m addr v h)
]

add_endpoints-AllPorted :
    (m : List (List ℕ × List ℕ)) (eps : List AddrPort)
    → AllPorted m
    → AllPorted (add_endpoints m eps)
unfolding add_endpoints
add_endpoints-AllPorted m [] h = h
add_endpoints-AllPorted m (ep ∷ eps) h =
    add_endpoints-AllPorted (add_candidate m ep.addr ep.port) eps
      (add_candidate-AllPorted m ep.addr ep.port h)

module _ (ip : List ℕ) (port : ℕ) where
  all_candidates-tried :
      (m : List (List ℕ × List ℕ))
      → AllPorted m
      → tried ip port (all_candidates m) ≡ listed ip port m
  unfolding AllPorted all_candidates listed
  all_candidates-tried [] h = refl
  all_candidates-tried ((addr, []) ∷ m) (ne, h) = absurd (ne refl)
  all_candidates-tried ((addr, p ∷ ports) ∷ m) (ne, h) =
      tried-append ip port (infos_of addr (p ∷ ports)) (all_candidates m)
      ∙ rw (tried-infos_of ip port addr (p ∷ ports), all_candidates-tried m h) refl

  -- An address is tried with a port exactly if it was generated and the port is 0, or if it is a custom
  -- endpoint with this port.
  pub candidates_of-tried :
      (ips : List (List ℕ)) (eps : List AddrPort)
      → tried ip port (candidates_of ips eps)
        ≡ (has_endpoint ip port (any_port ips) || has_endpoint ip port eps)
  unfolding candidates_of
  candidates_of-tried ips eps =
      all_candidates-tried (add_endpoints (add_endpoints [] (any_port ips)) eps) (
        add_endpoints-AllPorted (add_endpoints [] (any_port ips)) eps
          (add_endpoints-AllPorted [] (any_port ips) (unfold AllPorted in tt)))
      ∙ add_endpoints-listed ip port (add_endpoints [] (any_port ips)) eps
      ∙ rw (add_endpoints-listed ip port [] (any_port ips)) (unfold listed in refl)
