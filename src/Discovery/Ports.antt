-- ===== src/Discovery/Ports.antt =====
-- The vector of registered ports: membership, no port twice, and what taking one out does.
use mathlib.Core.List.{append_assoc}
use nox13_interserver.Common.{
  ◌+◌, ◌≡◌, refl, sym, ap, ◌∙◌, false, ◌||◌, List, [], ◌∷◌, ◌++◌, arith, length, length-append,
}
use nox13_interserver.Lldp.{Port, port_eq_iff}
use nox13_interserver.Discovery.Defs.{has_port, remove_at}

abbrev pub Unique : List Port → Type 0
Unique [] = Unit {0}
Unique (p ∷ ps) = (has_port p ps ≡ false) × Unique ps

pub has_port-append :
    (q : Port) (xs ys : List Port) → has_port q (xs ++ ys) ≡ (has_port q xs || has_port q ys)
has_port-append q [] ys = refl
has_port-append q (x ∷ xs) ys = ground (arith, has_port-append q xs ys)

pub remove_at-length :
    (ks rest : List Port) (p : Port) → remove_at (length ks) (ks ++ p ∷ rest) ≡ ks ++ rest
remove_at-length [] rest p = refl
remove_at-length (k ∷ ks) rest p = ap (◌∷◌ k) (remove_at-length ks rest p)

pub Unique-remove :
    (ks rest : List Port) (p : Port)
    → Unique (ks ++ p ∷ rest)
    → Unique (ks ++ rest) × (has_port p (ks ++ rest) ≡ false)
Unique-remove [] rest p u = (u.1, u.0)
Unique-remove (k ∷ ks) rest p u = ground (
  arith,
  Unique-remove ks rest p u.1,
  has_port-append k ks (p ∷ rest),
  has_port-append k ks rest,
  port_eq_iff p k,
  port_eq_iff k p,
)

pub Unique-push :
    (ks : List Port) (p : Port) → has_port p ks ≡ false → Unique ks → Unique (ks ++ p ∷ [])
Unique-push [] p h u = (refl, tt)
Unique-push (k ∷ ks) p h u =
    ground
      (arith, Unique-push ks p, has_port-append k ks (p ∷ []), port_eq_iff p k, port_eq_iff k p)

-- Moving the boundary of a split over one port.
pub shift_split :
    (ports ks rest : List Port) (p : Port) → ports ≡ ks ++ p ∷ rest → ports ≡ (ks ++ p ∷ []) ++ rest
shift_split ports ks rest p e = e ∙ sym (append_assoc ks (p ∷ []) rest)

pub length-push : (ks : List Port) (p : Port) → length (ks ++ p ∷ []) ≡ length ks + 1
length-push ks p = length-append ks (p ∷ [])
