-- ===== src/Lldp.antt =====
-- The LLDP frames of nox/netapps/discovery: `Discovery::create_lldp`, `Discovery::parse_lldp`, the
-- classes `Port` and `Link` of discovery.hh, and `datapathid::from_bytes`.
-- A datapath id is its 64-bit number, a frame its list of bytes. What the code copies in the order
-- of the host (`memcpy(…, &port.port, 4)`) is laid out for a little-endian host.
pub mod RoundTrip
use nox13_interserver.Common.{
  ℕ, ◌+◌, ◌*◌, ◌/◌, ◌%◌, ◌^◌, ◌≡◌, ◌↔◌, Bool, true, false, not, ◌&&◌, Option, none, some, List, [],
  ◌∷◌, ◌++◌, arith, ltb, ◌==◌, if◌then◌else◌, Key, drop, get_or, length,
}

pub record Port : Type 0 where
  pub dpid : ℕ  -- datapathid
  pub port : ℕ  -- uint32_t

-- Port::operator== and Port::operator<
abbrev pub port_eq : Port → Port → Bool
port_eq a b = a.dpid == b.dpid && a.port == b.port

abbrev pub port_lt : Port → Port → Bool
port_lt a b = if a.dpid == b.dpid then ltb a.port b.port else ltb a.dpid b.dpid

pub port_eq_iff : (a b : Port) → (port_eq a b ≡ true) ↔ (a ≡ b)
port_eq_iff a b = ground arith

pub port_lt_irrefl : (a b : Port) → port_lt a b ≡ true → port_eq a b ≡ false
port_lt_irrefl a b h = ground arith

pub port_lt_total : (a b : Port) → port_eq a b ≡ false → port_lt a b ≡ false → port_lt b a ≡ true
port_lt_total a b h g = ground arith

pub port_lt_trans : (a b c : Port) → port_lt a b ≡ true → port_lt b c ≡ true → port_lt a c ≡ true
port_lt_trans a b c h g = ground arith

instance abbrev pub port_key : Key Port
port_key = record {
  same = port_eq;
  before = port_lt;
  same_iff = port_eq_iff;
  before_irrefl = port_lt_irrefl;
  before_total = port_lt_total;
  before_trans = port_lt_trans;
}

pub record Link : Type 0 where
  pub sport : Port
  pub dport : Port

-- Link::operator== and Link::operator<
abbrev pub link_eq : Link → Link → Bool
link_eq a b = port_eq a.sport b.sport && port_eq a.dport b.dport

abbrev pub link_lt : Link → Link → Bool
link_lt a b = if port_eq a.sport b.sport then port_lt a.dport b.dport else port_lt a.sport b.sport

pub link_eq_iff : (a b : Link) → (link_eq a b ≡ true) ↔ (a ≡ b)
link_eq_iff a b = ground arith

pub link_lt_irrefl : (a b : Link) → link_lt a b ≡ true → link_eq a b ≡ false
link_lt_irrefl a b h = ground arith

pub link_lt_total : (a b : Link) → link_eq a b ≡ false → link_lt a b ≡ false → link_lt b a ≡ true
link_lt_total a b h g = ground arith

pub link_lt_trans : (a b c : Link) → link_lt a b ≡ true → link_lt b c ≡ true → link_lt a c ≡ true
link_lt_trans a b c h g = ground arith

instance abbrev pub link_key : Key Link
link_key = record {
  same = link_eq;
  before = link_lt;
  same_iff = link_eq_iff;
  before_irrefl = link_lt_irrefl;
  before_total = link_lt_total;
  before_trans = link_lt_trans;
}

-- The bytes of `as_net()` in memory: the most significant first.
abbrev pub as_net_bytes : ℕ → List ℕ
as_net_bytes id =
    (id / 2 ^ 56 % 256)
    ∷ (id / 2 ^ 48 % 256)
    ∷ (id / 2 ^ 40 % 256)
    ∷ (id / 2 ^ 32 % 256)
    ∷ (id / 2 ^ 24 % 256)
    ∷ (id / 2 ^ 16 % 256)
    ∷ (id / 2 ^ 8 % 256)
    ∷ (id % 256)
    ∷ []

-- datapathid::from_bytes, on the six bytes from offset i.
abbrev pub from_bytes : List ℕ → ℕ → ℕ
from_bytes buf i =
    get_or buf i 0 * 2 ^ 40
    + get_or buf (i + 1) 0 * 2 ^ 32
    + get_or buf (i + 2) 0 * 2 ^ 24
    + get_or buf (i + 3) 0 * 2 ^ 16
    + get_or buf (i + 4) 0 * 2 ^ 8
    + get_or buf (i + 5) 0

-- A uint32_t in memory, and read back.
abbrev pub host32_bytes : ℕ → List ℕ
host32_bytes n = (n % 256) ∷ (n / 2 ^ 8 % 256) ∷ (n / 2 ^ 16 % 256) ∷ (n / 2 ^ 24 % 256) ∷ []

abbrev pub read_host32 : List ℕ → ℕ → ℕ
read_host32 buf i =
    get_or buf i 0
    + get_or buf (i + 1) 0 * 2 ^ 8
    + get_or buf (i + 2) 0 * 2 ^ 16
    + get_or buf (i + 3) 0 * 2 ^ 24

-- "\01\23\20\00\00\01": the escapes of C are octal.
abbrev pub eth_dst : List ℕ
eth_dst = 0o01 ∷ 0o23 ∷ 0o20 ∷ 0o00 ∷ 0o00 ∷ 0o01 ∷ []

-- The six low bytes of the id, the first of them cleared.
abbrev pub eth_src : ℕ → List ℕ
eth_src dpid = 0 ∷ drop 3 (as_net_bytes dpid)

unfoldable pub create_lldp : Port → ℕ → List ℕ
create_lldp p ttl =
    eth_dst
    ++ (eth_src p.dpid
        ++ ((0x88 ∷ 0xcc ∷ [])
            ++ ((0x02 ∷ 0x07 ∷ [])
                ++ ((0x04 ∷ [])
                    ++ (drop 2 (as_net_bytes p.dpid)
                        ++ ((0x04 ∷ 0x05 ∷ [])
                            ++ ((0x02 ∷ [])
                                ++ (host32_bytes p.port
                                    ++ ((0x06 ∷ 0x02 ∷ [])
                                        ++ ((ttl % 256) ∷ (ttl / 256 % 256) ∷ 0 ∷ 0 ∷ []))))))))))

-- memcmp(buf + i, …, n) != 0, for n = 1 and n = 2.
abbrev pub differs1 : List ℕ → ℕ → ℕ → Bool
differs1 buf i a = not (get_or buf i 0 == a)

abbrev pub differs2 : List ℕ → ℕ → ℕ → ℕ → Bool
differs2 buf i a b = not (get_or buf i 0 == a && get_or buf (i + 1) 0 == b)

-- `none` where the code returns false.
unfoldable pub parse_lldp : List ℕ → Option Port
parse_lldp buf =
    if ltb (length buf) 36
    then none
    else if differs2 buf 12 0x88 0xcc
    then none
    else if differs2 buf 14 0x02 0x07
    then none
    else if differs1 buf 16 0x04
    then none
    else if differs2 buf 23 0x04 0x05
    then none
    else if differs1 buf 25 0x02
    then none
    else some (record { dpid = from_bytes buf 17; port = read_host32 buf 26 })
