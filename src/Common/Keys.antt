-- ===== src/Common/Keys.antt =====
-- What `std::map` and `std::set` ask of a key: the test `==` and the order `<` of its class.
use Prim.Native.Nat.{ℕ}
use mathlib.Core.Path.{◌≡◌}
use mathlib.Core.Logic.{◌↔◌}
use mathlib.Core.Bool.{Bool, true, false}
use native.Mathlib.Omega.{arith}
use nox13_interserver.Common.Branch.{◌==◌, ltb, ==_iff}

pub record Key {ℓ} (K : Type ℓ) : Type ℓ where
  pub same : K → K → Bool
  pub before : K → K → Bool
  pub same_iff : (a b : K) → (same a b ≡ true) ↔ (a ≡ b)
  pub before_irrefl : (a b : K) → before a b ≡ true → same a b ≡ false
  pub before_total : (a b : K) → same a b ≡ false → before a b ≡ false → before b a ≡ true
  pub before_trans : (a b c : K) → before a b ≡ true → before b c ≡ true → before a c ≡ true

pub ltb_irrefl : (a b : ℕ) → ltb a b ≡ true → (a == b) ≡ false
ltb_irrefl a b h = ground arith

pub ltb_total : (a b : ℕ) → (a == b) ≡ false → ltb a b ≡ false → ltb b a ≡ true
ltb_total a b h g = ground arith

pub ltb_trans : (a b c : ℕ) → ltb a b ≡ true → ltb b c ≡ true → ltb a c ≡ true
ltb_trans a b c h g = ground arith

instance abbrev pub nat_key : Key ℕ
nat_key = record {
  same = ◌==◌;
  before = ltb;
  same_iff = ==_iff;
  before_irrefl = ltb_irrefl;
  before_total = ltb_total;
  before_trans = ltb_trans;
}
