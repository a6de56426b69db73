-- ===== src/WireConfig/Parsed.antt =====
-- What the parser of wiresocks/config.go accepts, and what it makes of it.
use vwarp.Prelude.{
  ℕ, ◌≤◌, ◌<◌, ◌≡◌, refl, ap, Bool, true, false, ◌&&◌, ==_iff, List, [], ◌∷◌, ◌++◌, Option, none,
  some, length, ltb, ◌==◌, arith, if◌then◌else◌,
}
use mathlib.Core.Path.{subst}
use vwarp.Prelude.Int.{ℤ, pos, negsuc}
use vwarp.Text.{codes, text_eq}
use vwarp.Text.Bytes.{has_byte}
use vwarp.Text.Decimal.{atoi, itoa, AllDigits, itoa-AllDigits, atoi-itoa}
use vwarp.Text.Hex.{hex_encode, split, split-none, split-append}
use vwarp.WireConfig.{
  ParseError, Result, ok, err, ◌>>=◌, or_error, Key, Section, Libraries, PeerConfig, encode_decoded,
  encode_base64_to_hex, field, all_of, allowed_prefix, byte_of, three_bytes, parse_reserved,
  no_pre_shared_key, parse_peer, peers_of, parse_peers, text_of,
}

has_comma-digits : (s : List ℕ) → AllDigits s → has_byte s 44 ≡ false
has_comma-digits [] h = refl
has_comma-digits (c ∷ s) (low, high, h) = ground (arith, has_comma-digits s h)

is_random-digits : (s t : List ℕ) → AllDigits s → text_eq (s ++ (44 ∷ t)) (codes "random") ≡ false
unfolding text_eq
is_random-digits [] t h = refl
is_random-digits (c ∷ s) t (low, high, h) =
    let other : (c == 114) ≡ false = ground arith in
    ap (λ b. b && text_eq (s ++ (44 ∷ t)) (codes "andom")) other

byte_of-itoa : (n : ℕ) → n < 256 → byte_of (atoi (itoa n)) ≡ ok n
unfolding byte_of
byte_of-itoa n h =
    let small : ltb 255 n ≡ false = ground arith in rw (atoi-itoa n (omega arith), small)

-- For all bytes a, b and c, whatever the random source gives: "a,b,c" is parsed as these bytes.
pub parse_reserved-itoa :
    (lib : Libraries)
    → (a b c : ℕ) → a < 256
    → b < 256
    → c < 256
    → parse_reserved lib (itoa a ++ (44 ∷ (itoa b ++ (44 ∷ itoa c)))) ≡ ok (a, b, c)
unfolding parse_reserved three_bytes
parse_reserved-itoa lib a b c ha hb hc = rw (
  is_random-digits (itoa a) (itoa b ++ (44 ∷ itoa c)) (itoa-AllDigits a),
  split-append 44 (itoa a) (itoa b ++ (44 ∷ itoa c)) (has_comma-digits (itoa a) (itoa-AllDigits a)),
  split-append 44 (itoa b) (itoa c) (has_comma-digits (itoa b) (itoa-AllDigits b)),
  split-none 44 (itoa c) (has_comma-digits (itoa c) (itoa-AllDigits c)),
  byte_of-itoa a ha,
  byte_of-itoa b hb,
  byte_of-itoa c hc,
)

-- The result, if there is one, has a property.
unfoldable pub Sure : {A : Type 0} → (A → Type 0) → Result A → Type 0
Sure P (ok a) = P a
Sure P (err e) = Unit

bind-Sure :
    {A B : Type 0}
    → (P : A → Type 0) → (Q : B → Type 0) → (m : Result A) → (f : A → Result B) → Sure P m
    → ((a : A) → P a → Sure Q (f a))
    → Sure Q (m >>= f)
unfolding Sure
bind-Sure P Q (ok a) f h k = k a h
bind-Sure P Q (err e) f h k = tt

weaken-Sure :
    {A : Type 0} → (P Q : A → Type 0) → (m : Result A) → ((a : A) → P a → Q a) → Sure P m → Sure Q m
unfolding Sure
weaken-Sure P Q (ok a) f h = f a h
weaken-Sure P Q (err e) f h = tt

-- A part that the property does not depend on.
skip-Sure :
    {A B : Type 0}
    → (Q : B → Type 0) → (m : Result A) → (f : A → Result B) → ((a : A) → Sure Q (f a))
    → Sure Q (m >>= f)
unfolding Sure
skip-Sure Q (ok a) f k = k a
skip-Sure Q (err e) f k = tt

-- A property of what a key gives, that may depend on the key and on whether it is there.
field-Sure :
    {A : Type 0}
    → (P : Option Key → A → Type 0) → (key : Option Key) → (default : A) → (f : Key → Result A)
    → P none default
    → ((k : Key) → Sure (P (some k)) (f k))
    → Sure (P key) (field key default f)
unfolding field Sure
field-Sure P none default f d h = d
field-Sure P (some key) default f d h = h key

-- A text that is 32 decoded bytes in hexadecimal.
abbrev pub IsEncoded : Option (List ℕ) → List ℕ → Type 0
IsEncoded decoded s =
    (bytes : List ℕ) × (decoded ≡ some bytes) × (length bytes ≡ 32) × (s ≡ hex_encode bytes)

-- The key of a peer: the default where the section does not name one, or else the 32 bytes of its text.
unfoldable pub IsKey : Libraries → List ℕ → Option Key → List ℕ → Type 0
IsKey lib default none s = s ≡ default
IsKey lib default (some key) s = IsEncoded (lib.decode_base64 key.text) s

encode_decoded-Sure : (o : Option (List ℕ)) → Sure (IsEncoded o) (encode_decoded o)
unfolding encode_decoded Sure
encode_decoded-Sure none = tt
encode_decoded-Sure (some key) =
    checked (length key == 32) λ h. (key, refl, (==_iff (length key) 32).0 h, refl)
  where
    checked :
        (b : Bool)
        → (b ≡ true → IsEncoded (some key) (hex_encode key))
        → Sure (IsEncoded (some key)) (if b then ok (hex_encode key) else err ParseError.key_length)
    checked true h = h refl
    checked false h = tt

key-Sure :
    (lib : Libraries) (default : List ℕ) (key : Option Key)
    → Sure (IsKey lib default key) (field key default λ k. encode_base64_to_hex lib k.text)
unfolding IsKey encode_base64_to_hex
key-Sure lib default key =
    field-Sure (IsKey lib default) key default _ refl
      λ k. encode_decoded-Sure (lib.decode_base64 k.text)

unfoldable pub AreBytes : ℕ × ℕ × ℕ → Type 0
AreBytes (a, b, c) = (a < 256) × (b < 256) × (c < 256)

byte_of-Sure : (o : Option ℤ) → Sure (λ n. n < 256) (byte_of o)
unfolding byte_of Sure
byte_of-Sure none = tt
byte_of-Sure (some (negsuc n)) = tt
byte_of-Sure (some (pos n)) = ground arith

three_bytes-Sure : (pieces : List (List ℕ)) → Sure AreBytes (three_bytes pieces)
unfolding three_bytes Sure AreBytes
three_bytes-Sure [] = tt
three_bytes-Sure (x ∷ []) = tt
three_bytes-Sure (x ∷ y ∷ []) = tt
three_bytes-Sure (x ∷ y ∷ z ∷ []) =
    bind-Sure (λ n. n < 256) AreBytes _ _ (byte_of-Sure (atoi x))
      λ a ha.
        bind-Sure (λ n. n < 256) AreBytes _ _ (byte_of-Sure (atoi y))
          λ b hb. bind-Sure (λ n. n < 256) AreBytes _ _ (byte_of-Sure (atoi z)) λ c hc. (ha, hb, hc)
three_bytes-Sure (x ∷ y ∷ z ∷ w ∷ pieces) = tt

parse_reserved-Sure :
    (lib : Libraries)
    → Sure AreBytes (or_error ParseError.no_random lib.read_random)
    → (s : List ℕ) → Sure AreBytes (parse_reserved lib s)
unfolding parse_reserved
parse_reserved-Sure lib random s = chosen (text_eq s (codes "random"))
  where
    chosen :
        (b : Bool)
        → Sure AreBytes
            (if b then or_error ParseError.no_random lib.read_random else three_bytes (split 44 s))
    chosen true = random
    chosen false = three_bytes-Sure (split 44 s)

-- A peer has the keys and the endpoint that its section names, and three reserved bytes.
unfoldable pub IsPeer : Libraries → Section → PeerConfig → Type 0
IsPeer lib section peer =
    IsKey lib [] (section (codes "PublicKey")) peer.public_key
    × IsKey lib no_pre_shared_key (section (codes "PreSharedKey")) peer.pre_shared_key
    × (peer.endpoint ≡ text_of (section (codes "Endpoint")))
    × AreBytes peer.reserved

-- One peer for each section, in the same order.
unfoldable pub AllPeers : Libraries → List Section → List PeerConfig → Type 0
AllPeers lib [] [] = Unit
AllPeers lib [] (peer ∷ peers) = ⊥
AllPeers lib (section ∷ sections) [] = ⊥
AllPeers lib (section ∷ sections) (peer ∷ peers) =
    IsPeer lib section peer × AllPeers lib sections peers

endpoint-Sure : (key : Option Key) → Sure (λ s. s ≡ text_of key) (field key [] λ k. ok k.text)
unfolding Sure text_of
endpoint-Sure key = field-Sure (λ k s. s ≡ text_of k) key [] _ refl λ k. refl

parse_peer-Sure :
    (lib : Libraries)
    → Sure AreBytes (or_error ParseError.no_random lib.read_random)
    → (section : Section) → Sure (IsPeer lib section) (parse_peer lib section)
unfolding parse_peer Sure IsPeer AreBytes
parse_peer-Sure lib random section =
    bind-Sure (IsKey lib [] (section (codes "PublicKey"))) Q _ _
      (key-Sure lib [] (section (codes "PublicKey")))
      λ public_key hk.
        bind-Sure (IsKey lib no_pre_shared_key (section (codes "PreSharedKey"))) Q _ _
          (key-Sure lib no_pre_shared_key (section (codes "PreSharedKey")))
          λ pre_shared_key hp.
            skip-Sure Q
              (field (section (codes "PersistentKeepalive")) (pos 0)
                λ key. or_error ParseError.bad_int key.int)
              _
              λ keep_alive.
                skip-Sure Q
                  (field (section (codes "AllowedIPs")) []
                    λ key. all_of (allowed_prefix lib) key.strings)
                  _
                  λ allowed_ips.
                    bind-Sure (λ s. s ≡ text_of (section (codes "Endpoint"))) Q _ _
                      (endpoint-Sure (section (codes "Endpoint")))
                      λ endpoint he.
                        skip-Sure Q
                          (field (section (codes "Trick")) false
                            λ key. or_error ParseError.bad_bool key.bool)
                          _
                          λ trick.
                            bind-Sure AreBytes Q _ _
                              (field-Sure (λ k. AreBytes) (section (codes "Reserved")) (0, 0, 0) _
                                (omega arith, omega arith, omega arith)
                                λ key. parse_reserved-Sure lib random key.text)
                              λ reserved hr. (hk, hp, he, hr)
  where
    Q : PeerConfig → Type 0
    Q = IsPeer lib section

peers_of-Sure :
    (lib : Libraries)
    → Sure AreBytes (or_error ParseError.no_random lib.read_random)
    → (sections : List Section) → Sure (AllPeers lib sections) (peers_of lib sections)
unfolding peers_of AllPeers Sure
peers_of-Sure lib random [] = tt
peers_of-Sure lib random (section ∷ sections) =
    bind-Sure (IsPeer lib section) (AllPeers lib (section ∷ sections)) _ _
      (parse_peer-Sure lib random section)
      λ peer h.
        bind-Sure (AllPeers lib sections) (AllPeers lib (section ∷ sections)) _ _
          (peers_of-Sure lib random sections) λ peers hs. (h, hs)

-- If the peers of a file are accepted, and the random source, where it gives values, gives bytes: there
-- is one peer for each section, in order, and at least one. Its public key is empty if the section names
-- none, and its pre-shared key is 64 zeros if the section names none; else the key's text decodes to 32
-- bytes, and the peer's key is these in hexadecimal. Its endpoint is the section's, and its reserved
-- values are bytes.
pub parse_peers-Peers :
    (lib : Libraries)
    → (sections : List Section) → (peers : List PeerConfig)
    → Sure AreBytes (or_error ParseError.no_random lib.read_random)
    → parse_peers lib sections ≡ ok peers
    → AllPeers lib sections peers × (1 ≤ length sections)
unfolding parse_peers Sure
parse_peers-Peers lib [] peers random h = ground arith
parse_peers-Peers lib (section ∷ sections) peers random h = (
  subst (Sure (AllPeers lib (section ∷ sections))) h
      (peers_of-Sure lib random (section ∷ sections)),
  omega arith,
)
