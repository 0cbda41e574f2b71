-- ===== src/Discovery/Period.antt =====
-- The period of the LLDP timer.
use Prim.Native.Nat.{max}
use native.Mathlib.Nat.{div-add-mod, mod-lt}
use nox13_interserver.Common.{
  ℕ, zero, suc, ◌+◌, ◌*◌, ◌/◌, ◌%◌, ◌≤◌, ◌<◌, ◌≡◌, refl, arith, ◌==◌, if◌then◌else◌, length,
}
use nox13_interserver.Discovery.Defs.{Discovery, update_timeval, lldp_period}

split_msec : (ms : ℕ) → ms / 1000 * 1000 + ms % 1000 * 1000 / 1000 ≡ ms
split_msec ms = omega arith

share : (a n : ℕ) → 0 < n → (a / n * n ≤ a) × (a < a / n * n + n)
share a n h = grind (arith, div-add-mod a n, mod-lt a h)

-- The bounds of the period ms for n ports.
abbrev pub PeriodBounds : ℕ → ℕ → ℕ → ℕ → Type 0
PeriodBounds n per_port packet_out ms =
    (n ≡ 0 → ms ≡ per_port)
    × (0 < n → packet_out ≤ ms)
    × (0 < n → packet_out < ms → (ms * n ≤ per_port) × (per_port < ms * n + n))

branch_suc : (n a b : ℕ) → (if suc n == 0 then a else b) ≡ b
branch_suc n a b = ground arith

larger : (a b : ℕ) → a < max a b → max a b ≡ b
larger a b h = omega arith

period_bounds :
    (n per_port packet_out : ℕ)
    → PeriodBounds n per_port packet_out
        (if n == 0 then per_port else max packet_out (per_port / n))
period_bounds zero per_port packet_out = (λ e. refl, λ h. elim h [ ], λ h. elim h [ ])
period_bounds (suc n) per_port packet_out =
    let q = per_port / suc n in
    let bounds = share per_port (suc n) (omega arith) in
    rw (branch_suc n per_port (max packet_out q))
      (λ e. absurd (omega arith), λ h. omega arith, λ h g. rw (larger packet_out q g) bounds)

-- The period is a normal `timeval`; with no port it is `per_port`; with n ports it is at least
-- `packet_out`, and, unless it is `packet_out`, a round over all n ports takes at most `per_port`
-- and more than `per_port` less n milliseconds.
pub update_timeval_bounds :
    (s : Discovery)
    → let tv = (update_timeval s).per_port_tv in
      let ms = tv.tv_sec * 1000 + tv.tv_usec / 1000 in
      (tv.tv_usec < 1000000)
      × (tv.tv_usec % 1000 ≡ 0)
      × PeriodBounds (length s.ports) s.per_port s.packet_out ms
unfolding update_timeval lldp_period
update_timeval_bounds s = (
  omega arith,
  omega arith,
  rw (split_msec (lldp_period s)) (period_bounds (length s.ports) s.per_port s.packet_out),
)
