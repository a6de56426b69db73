-- ===== src/WireConfig.antt =====
-- wiresocks/config.go: the WireGuard configuration, read from the sections and keys of an ini file. The
-- ini, base64 and netip libraries are parameters: what they give for a section, a key or a text.
pub mod Parsed
mod Examples
use vwarp.Prelude.{
  ℕ, zero, suc, Bool, true, false, List, [], ◌∷◌, Option, none, some, length, ltb, ◌==◌, replicate,
  if◌then◌else◌, not,
}
use vwarp.Prelude.Int.{ℤ, pos, negsuc}
use vwarp.Text.{codes, text_eq}
use vwarp.Text.Decimal.{atoi}
use vwarp.Text.Hex.{hex_encode, split}

pub data ParseError : Type 0 where
  bad_base64 key_length one_interface bad_prefix bad_address bad_int bad_bool no_peer : ParseError
  no_random reserved_form : ParseError

pub data Result (A : Type 0) : Type 0 where
  ok : A → Result A
  err : ParseError → Result A

infixl 10 ◌>>=◌
abbrev pub ◌>>=◌ : {A B : Type 0} → Result A → (A → Result B) → Result B
ok a >>= f = f a
err e >>= f = err e

-- `if err != nil` behind a call of a library.
abbrev pub or_error : {A : Type 0} → ParseError → Option A → Result A
or_error e none = err e
or_error e (some a) = ok a

-- A key: its text, the texts that `StringsWithShadows(",")` gives, and `Int` and `Bool`.
pub record Key : Type 0 where
  pub text : List ℕ
  pub strings : List (List ℕ)
  pub int : Option ℤ
  pub bool : Option Bool

-- `GetKey`; a key that is missing is `none`.
abbrev pub Section : Type 0
Section = List ℕ → Option Key

pub record Prefix : Type 0 where
  pub addr : List ℕ
  pub bits : ℕ

-- `base64.StdEncoding.DecodeString`, `netip.ParsePrefix` and `netip.ParseAddr`, and the three bytes of
-- `rand.Read`.
pub record Libraries : Type 0 where
  pub decode_base64 : List ℕ → Option (List ℕ)
  pub parse_prefix : List ℕ → Option Prefix
  pub parse_addr : List ℕ → Option (List ℕ)
  pub read_random : Option (ℕ × ℕ × ℕ)

pub record PeerConfig : Type 0 where
  pub public_key : List ℕ
  pub pre_shared_key : List ℕ
  pub endpoint : List ℕ
  pub keep_alive : ℤ
  pub allowed_ips : List Prefix
  pub trick : Bool
  pub reserved : ℕ × ℕ × ℕ

pub record InterfaceConfig : Type 0 where
  pub private_key : List ℕ
  pub addresses : List (List ℕ)
  pub dns : List (List ℕ)
  pub mtu : ℤ

pub record Configuration : Type 0 where
  pub interface : InterfaceConfig
  pub peers : List PeerConfig

-- `EncodeBase64ToHex`.
unfoldable pub encode_decoded : Option (List ℕ) → Result (List ℕ)
encode_decoded none = err bad_base64
encode_decoded (some key) = if length key == 32 then ok (hex_encode key) else err key_length

unfoldable pub encode_base64_to_hex : Libraries → List ℕ → Result (List ℕ)
encode_base64_to_hex lib key = encode_decoded (lib.decode_base64 key)

-- A value that a key gives, or the value of a peer without it.
unfoldable pub field : {A : Type 0} → Option Key → A → (Key → Result A) → Result A
field none default f = ok default
field (some key) default f = f key

-- A loop over texts that stops at the first one that cannot be read.
unfoldable pub all_of : {A : Type 0} → (List ℕ → Result A) → List (List ℕ) → Result (List A)
all_of f [] = ok []
all_of f (s ∷ strings) = do a ← f s; rest ← all_of f strings; ok (a ∷ rest)

-- `ParseReserved`.
unfoldable pub byte_of : Option ℤ → Result ℕ
byte_of none = err reserved_form
byte_of (some (negsuc n)) = err reserved_form
byte_of (some (pos n)) = if ltb 255 n then err reserved_form else ok n

unfoldable pub three_bytes : List (List ℕ) → Result (ℕ × ℕ × ℕ)
three_bytes (x ∷ y ∷ z ∷ []) = do
  a ← byte_of (atoi x)
  b ← byte_of (atoi y)
  c ← byte_of (atoi z)
  ok (a, b, c)
three_bytes _ = err reserved_form

unfoldable pub parse_reserved : Libraries → List ℕ → Result (ℕ × ℕ × ℕ)
parse_reserved lib s =
    if text_eq s (codes "random")
    then or_error no_random lib.read_random
    else three_bytes (split 44 s)

-- Sixty-four times the digit 0.
abbrev pub no_pre_shared_key : List ℕ
no_pre_shared_key = hex_encode (replicate 32 0)

unfoldable pub allowed_prefix : Libraries → List ℕ → Result Prefix
allowed_prefix lib s = or_error bad_prefix (lib.parse_prefix s)

-- The body of the loop of `ParsePeers`.
unfoldable pub parse_peer : Libraries → Section → Result PeerConfig
parse_peer lib section = do
  public_key ← field (section (codes "PublicKey")) [] λ key. encode_base64_to_hex lib key.text
  pre_shared_key ←
      field (section (codes "PreSharedKey")) no_pre_shared_key
        λ key. encode_base64_to_hex lib key.text
  keep_alive ← field (section (codes "PersistentKeepalive")) (pos 0) λ key. or_error bad_int key.int
  allowed_ips ←
      field (section (codes "AllowedIPs")) [] λ key. all_of (allowed_prefix lib) key.strings
  endpoint ← field (section (codes "Endpoint")) [] λ key. ok key.text
  trick ← field (section (codes "Trick")) false λ key. or_error bad_bool key.bool
  reserved ← field (section (codes "Reserved")) (0, 0, 0) λ key. parse_reserved lib key.text
  ok (record {
    public_key = public_key;
    pre_shared_key = pre_shared_key;
    endpoint = endpoint;
    keep_alive = keep_alive;
    allowed_ips = allowed_ips;
    trick = trick;
    reserved = reserved;
  })

unfoldable pub peers_of : Libraries → List Section → Result (List PeerConfig)
peers_of lib [] = ok []
peers_of lib (section ∷ sections) = do
  peer ← parse_peer lib section
  rest ← peers_of lib sections
  ok (peer ∷ rest)

-- `ParsePeers`, on the sections of that name.
unfoldable pub parse_peers : Libraries → List Section → Result (List PeerConfig)
parse_peers lib [] = err no_peer
parse_peers lib (section ∷ sections) = peers_of lib (section ∷ sections)

-- The texts of a key; `Key` of a section makes a key that is missing, and it is empty.
unfoldable pub strings_of : Option Key → List (List ℕ)
strings_of none = []
strings_of (some key) = key.strings

unfoldable pub text_of : Option Key → List ℕ
text_of none = []
text_of (some key) = key.text

unfoldable pub prefix_addr : Libraries → List ℕ → Result (List ℕ)
prefix_addr lib s = allowed_prefix lib s >>= λ prefix. ok prefix.addr

-- `ParseInterface`, on the sections of that name.
unfoldable pub parse_interface : Libraries → List Section → Result InterfaceConfig
parse_interface lib (section ∷ []) = do
  addresses ← all_of (prefix_addr lib) (strings_of (section (codes "Address")))
  private_key ← encode_base64_to_hex lib (text_of (section (codes "PrivateKey")))
  dns ←
      field (section (codes "DNS")) []
        λ key. all_of (λ s. or_error bad_address (lib.parse_addr s)) key.strings
  mtu ← field (section (codes "MTU")) (pos 0) λ key. or_error bad_int key.int
  ok (record { private_key = private_key; addresses = addresses; dns = dns; mtu = mtu })
parse_interface lib _ = err one_interface

-- `ParseConfig`, behind the loading of the file.
unfoldable pub parse_config : Libraries → List Section → List Section → Result Configuration
parse_config lib interfaces sections = do
  interface ← parse_interface lib interfaces
  peers ← parse_peers lib sections
  ok (record { interface = interface; peers = peers })
