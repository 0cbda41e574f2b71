-- ===== src/Lldp/RoundTrip.antt =====
-- What `create_lldp` writes `parse_lldp` reads, and what it accepts is of that form.
use nox13_interserver.Common.{
  ℕ, zero, suc, ◌+◌, ◌^◌, ◌<◌, ◌≤◌, ◌≡◌, refl, some, List, [], ◌∷◌, arith, get_or, length, All,
}
use nox13_interserver.Lldp.{Port, create_lldp, parse_lldp}

-- A frame made for a port is parsed back to that port, if its datapath id has 48 bits and its
-- number 32, whatever the time to live.
pub parse_lldp-create_lldp :
    (p : Port) (ttl : ℕ)
    → p.dpid < 2 ^ 48
    → p.port < 2 ^ 32
    → parse_lldp (create_lldp p ttl) ≡ some p
unfolding parse_lldp create_lldp
parse_lldp-create_lldp p ttl hd hp = ground arith

pub length-create_lldp : (p : Port) (ttl : ℕ) → length (create_lldp p ttl) ≡ 36
unfolding create_lldp
length-create_lldp p ttl = refl

get_or-lt : (buf : List ℕ) (i : ℕ) → All (λ b. b < 256) buf → get_or buf i 0 < 256
get_or-lt [] i h = omega arith
get_or-lt (x ∷ xs) zero h = h.0
get_or-lt (x ∷ xs) (suc i) h = get_or-lt xs i h.1

-- A buffer of bytes from which a port is parsed has at least 36 bytes, and the port's datapath id has
-- 48 bits and its number 32.
pub parse_lldp_bounds :
    (buf : List ℕ) (p : Port)
    → All (λ b. b < 256) buf
    → parse_lldp buf ≡ some p
    → (36 ≤ length buf) × (p.dpid < 2 ^ 48) × (p.port < 2 ^ 32)
unfolding parse_lldp
parse_lldp_bounds buf p bytes e = ground (
  arith,
  get_or-lt buf 17 bytes,
  get_or-lt buf 18 bytes,
  get_or-lt buf 19 bytes,
  get_or-lt buf 20 bytes,
  get_or-lt buf 21 bytes,
  get_or-lt buf 22 bytes,
  get_or-lt buf 26 bytes,
  get_or-lt buf 27 bytes,
  get_or-lt buf 28 bytes,
  get_or-lt buf 29 bytes,
)

-- The n bytes of a buffer from offset i.
abbrev pub slice : List ℕ → ℕ → ℕ → List ℕ
slice buf i zero = []
slice buf i (suc n) = get_or buf i 0 ∷ slice buf (i + 1) n

-- Of a buffer of bytes that is accepted, the Ethernet type, the chassis TLV and the port TLV (the
-- 18 bytes from offset 12) are those that `create_lldp` writes for the port that was parsed.
pub create_lldp-parse_lldp :
    (buf : List ℕ) (p : Port) (ttl : ℕ)
    → All (λ b. b < 256) buf
    → parse_lldp buf ≡ some p
    → slice buf 12 18 ≡ slice (create_lldp p ttl) 12 18
unfolding parse_lldp create_lldp
create_lldp-parse_lldp buf p ttl bytes e = ground (
  arith,
  get_or-lt buf 17 bytes,
  get_or-lt buf 18 bytes,
  get_or-lt buf 19 bytes,
  get_or-lt buf 20 bytes,
  get_or-lt buf 21 bytes,
  get_or-lt buf 22 bytes,
  get_or-lt buf 26 bytes,
  get_or-lt buf 27 bytes,
  get_or-lt buf 28 bytes,
  get_or-lt buf 29 bytes,
)
