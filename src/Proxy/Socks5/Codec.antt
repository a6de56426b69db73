-- ===== src/Proxy/Socks5/Codec.antt =====
-- The address form of proxy/pkg/socks5/common.go: what `writeAddr` writes, `readAddr` reads.
use mathlib.Core.List.{append_assoc, append-nil}
use vwarp.Prelude.{
  ℕ, suc, ◌%◌, ◌^◌, ◌≤◌, ◌<◌, ◌≡◌, ◌⊎◌, inl, inr, refl, List, [], ◌∷◌, ◌++◌, Option, none, some,
  Option-cases, length, arith, ltb, ◌==◌, if◌then◌else◌, false,
}
use vwarp.Wire.{Conn, ok, err, read_byte, write, Error, ◌>>◌}
use vwarp.Wire.Laws.{fed, read_full-append, write_ok, IsEnd}
use vwarp.Wire.Reader.{IsReader, reader_rules, cut_short}
use vwarp.Proxy.{Address}
use vwarp.Proxy.Ip.{to4, put_uint16, uint16, length-to4, to4-none, to16-long}
use vwarp.Proxy.Socks5.{
  read_addr, read_addr_type, read_ip, read_fqdn, read_port, write_addr, write_host, write_ip,
  write_ip16, write_port, ipv4_address, fqdn_address, ipv6_address,
}

-- An address that the protocol can carry: a port of 16 bits, and an IP of 4 or 16 bytes with no name
-- or a name of 1 to 255 bytes.
abbrev pub IsHost : Option (List ℕ) → List ℕ → Type 0
IsHost (some ip) name = ((length ip ≡ 4) ⊎ (length ip ≡ 16)) × (name ≡ [])
IsHost none name = (1 ≤ length name) × (length name ≤ 255)

abbrev pub IsAddress : Address → Type 0
IsAddress a = (a.port < 2 ^ 16) × IsHost a.ip a.name

-- An IPv4 address in its 16-byte form is sent, and comes back, in 4 bytes.
abbrev pub shortest : List ℕ → Option (List ℕ) → List ℕ
shortest ip (some ip4) = ip4
shortest ip none = ip

abbrev pub canonical_ip : Option (List ℕ) → Option (List ℕ)
canonical_ip none = none
canonical_ip (some ip) = some (shortest ip (to4 ip))

abbrev pub canonical : Address → Address
canonical a = record a { ip = canonical_ip a.ip }

-- The bytes on the wire, as RFC 1928 lays them out.
abbrev pub ip_form : List ℕ → List ℕ
ip_form ip = (if length ip == 4 then ipv4_address else ipv6_address) ∷ ip

abbrev pub host_form : Option (List ℕ) → List ℕ → List ℕ
host_form (some ip) name = ip_form (shortest ip (to4 ip))
host_form none name = fqdn_address ∷ length name ∷ name

abbrev pub address_form : Address → List ℕ
address_form a = host_form a.ip a.name ++ put_uint16 a.port

pub uint16-put : (n : ℕ) → n < 2 ^ 16 → uint16 (put_uint16 n) ≡ n
unfolding uint16 put_uint16
uint16-put n h = omega arith

read_port_form :
    (name : List ℕ) (ip : Option (List ℕ)) (port : ℕ) (rest : List ℕ) (c : Conn)
    → port < 2 ^ 16
    → read_port name ip (fed (put_uint16 port ++ rest) c)
      ≡ (ok (record { name = name; ip = ip; port = port }), fed rest c)
unfolding read_port
read_port_form name ip port rest c h =
    rw (read_full-append 2 (put_uint16 port) rest c (unfold put_uint16 in refl))
      (rw (uint16-put port h))

read_ip_form :
    (n : ℕ) (ip : List ℕ) (port : ℕ) (rest : List ℕ) (c : Conn)
    → length ip ≡ n
    → port < 2 ^ 16
    → read_ip n (fed (ip ++ put_uint16 port ++ rest) c)
      ≡ (ok (record { name = []; ip = some ip; port = port }), fed rest c)
unfolding read_ip
read_ip_form n ip port rest c e h = rw append_assoc (
    rw (read_full-append n ip (put_uint16 port ++ rest) c e)
      (read_port_form [] (some ip) port rest c h))

-- An IP on the wire, told by its length.
read_addr-ip :
    (ip : List ℕ) (port : ℕ) (rest : List ℕ) (c : Conn)
    → (length ip ≡ 4) ⊎ (length ip ≡ 16)
    → port < 2 ^ 16
    → read_addr (fed ((ip_form ip ++ put_uint16 port) ++ rest) c)
      ≡ (ok (record { name = []; ip = some ip; port = port }), fed rest c)
unfolding read_addr read_byte
read_addr-ip ip port rest c (inl e) h = rw e (read_ip_form 4 ip port rest c e h)
read_addr-ip ip port rest c (inr e) h = rw e (read_ip_form 16 ip port rest c e h)

read_addr-name :
    (name : List ℕ) (port : ℕ) (rest : List ℕ) (c : Conn)
    → port < 2 ^ 16
    → read_addr (fed ((host_form none name ++ put_uint16 port) ++ rest) c)
      ≡ (ok (record { name = name; ip = none; port = port }), fed rest c)
unfolding read_addr read_fqdn read_byte
read_addr-name name port rest c h = rw append_assoc (
    rw (read_full-append (length name) name (put_uint16 port ++ rest) c refl)
      (read_port_form name none port rest c h))

pub shortest-length :
    (ip : List ℕ)
    → (length ip ≡ 4) ⊎ (length ip ≡ 16)
    → (length (shortest ip (to4 ip)) ≡ 4) ⊎ (length (shortest ip (to4 ip)) ≡ 16)
shortest-length ip h = elim (Option-cases (to4 ip)) [
  | inl e ↦ rw e h
  | inr (ip4, e) ↦ rw e (inl (length-to4 ip ip4 e))
]

-- Reading a wire form gives the address, and leaves what follows it.
pub read_addr_form :
    (a : Address) (rest : List ℕ) (c : Conn)
    → IsAddress a
    → read_addr (fed (address_form a ++ rest) c) ≡ (ok (canonical a), fed rest c)
read_addr_form a rest c (port_fits, host) = by_host a.ip a.name host
  where
    by_host :
        (ip : Option (List ℕ)) (name : List ℕ)
        → IsHost ip name
        → read_addr (fed ((host_form ip name ++ put_uint16 a.port) ++ rest) c)
          ≡ (ok (record { name = name; ip = canonical_ip ip; port = a.port }), fed rest c)
    by_host none name h = read_addr-name name a.port rest c port_fits
    by_host (some ip) name (long, nameless) =
        rw nameless
          (read_addr-ip (shortest ip (to4 ip)) a.port rest c (shortest-length ip long) port_fits)

-- The connection after a run of writes that all succeed.
abbrev pub sent : List ℕ → ℕ → Conn → Conn
sent bytes k c = record c { output = c.output ++ bytes; writes_left = k }

write_two :
    (xs ys : List ℕ) (c : Conn) (k : ℕ)
    → c.writes_left ≡ suc (suc k)
    → (write xs >> write ys) c ≡ (ok tt, sent (xs ++ ys) k c)
write_two xs ys c k e =
    rw (write_ok xs c (suc k) e) (rw (write_ok ys (sent xs (suc k) c) k refl) (rw append_assoc))

write_ip_form :
    (ip : List ℕ) (c : Conn) (k : ℕ)
    → (length ip ≡ 4) ⊎ (length ip ≡ 16)
    → c.writes_left ≡ suc (suc k)
    → write_ip (to4 ip) ip c ≡ (ok tt, sent (ip_form (shortest ip (to4 ip))) k c)
unfolding write_ip write_ip16
write_ip_form ip c k long e = elim (Option-cases (to4 ip)) [
  | inl none4 ↦
      let is16 : length ip ≡ 16 = to4-none ip long none4 in
      rw (none4, to16-long ip is16, is16) (write_two (ipv6_address ∷ []) ip c k e)
  | inr (ip4, some4) ↦ rw (some4, length-to4 ip ip4 some4) (write_two (ipv4_address ∷ []) ip4 c k e)
]

write_host_form :
    (ip : Option (List ℕ)) (name : List ℕ) (c : Conn) (k : ℕ)
    → IsHost ip name
    → c.writes_left ≡ suc (suc k)
    → write_host ip name c ≡ (ok tt, sent (host_form ip name) k c)
unfolding write_host
write_host_form (some ip) name c k (long, nameless) e = write_ip_form ip c k long e
write_host_form none [] c k h e = absurd (omega arith)
write_host_form none (b ∷ name) c k h e =
    let n : ℕ = length (b ∷ name) in
    let short : ltb 255 n ≡ false = ground arith in
    let byte : n % 256 ≡ n = omega arith in
    rw (short, byte) (write_two (fqdn_address ∷ n ∷ []) (b ∷ name) c k e)

-- Writing an address puts its wire form behind what was written before.
pub write_addr_form :
    (a : Address) (c : Conn) (k : ℕ)
    → IsAddress a
    → c.writes_left ≡ suc (suc (suc k))
    → write_addr (some a) c ≡ (ok tt, sent (address_form a) k c)
unfolding write_addr write_port
write_addr_form a c k (port_fits, host) e =
    let byte : a.port % 2 ^ 16 ≡ a.port = omega arith in
    rw (write_host_form a.ip a.name c (suc k) host e) (
      rw byte (
        rw (write_ok (put_uint16 a.port) (sent (host_form a.ip a.name) (suc k) c) k refl)
          (rw append_assoc)))

-- For every address that the protocol can carry and every connection on which three writes succeed:
-- `writeAddr` appends some bytes to what was written, and `readAddr` on these bytes, whatever follows
-- them, gives the address back and leaves what follows. An IPv4 address in its 16-byte form comes
-- back in 4 bytes.
pub read_addr-write_addr :
    (a : Address) (rest : List ℕ) (c d : Conn) (k : ℕ)
    → IsAddress a
    → c.writes_left ≡ suc (suc (suc k))
    → (write_addr (some a) c ≡ (ok tt, sent (address_form a) k c))
      × (read_addr (fed (address_form a ++ rest) d) ≡ (ok (canonical a), fed rest d))
read_addr-write_addr a rest c d k h e = (write_addr_form a c k h e, read_addr_form a rest d h)

read_port-IsReader : (name : List ℕ) (ip : Option (List ℕ)) → IsReader (read_port name ip)
unfolding read_port
read_port-IsReader name ip = search reader_rules

read_addr-IsReader : IsReader read_addr
unfolding read_addr read_addr_type read_ip read_fqdn
read_addr-IsReader = search (reader_rules, read_port-IsReader) depth 12

-- On every proper front of the wire form of an address `readAddr` fails with an end-of-input error,
-- having used up the front and written nothing.
pub read_addr_truncated :
    (a : Address) (front : List ℕ) (x : ℕ) (back : List ℕ) (c : Conn)
    → IsAddress a
    → address_form a ≡ front ++ (x ∷ back)
    → (e : Error) × IsEnd e × (read_addr (fed front c) ≡ (err e, fed [] c))
read_addr_truncated a front x back c h e =
    cut_short read_addr (canonical a) front x back c read_addr-IsReader
      (rw (← e) (rw append-nil at (read_addr_form a [] c h)))
