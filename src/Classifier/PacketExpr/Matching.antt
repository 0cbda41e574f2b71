-- ===== src/Classifier/PacketExpr/Matching.antt =====
-- What matches and get_field of a Packet_expr have to do with each other (lib/expr.cc).
use nox13_interserver.Common.{
  ℕ, zero, suc, ◌+◌, ◌<◌, Bool, true, false, not, ◌&&◌, ◌||◌, Option, none, some, List, [], ◌∷◌,
  ◌==◌, ◌≡◌, refl, arith, length, get_elem?, ap, ==_iff, if◌then◌else◌, subst, sym, ◌∙◌, Bool-cases,
  inl, inr,
}
use nox13_interserver.Classifier.{has_bit}
use nox13_interserver.Classifier.Searched.{member, Distinct, is_empty}
use nox13_interserver.Classifier.Linear.{Consistent}
use nox13_interserver.Classifier.PacketExpr.{
  PacketExpr, word_of, field_values, get_field, within, same_bytes, comparisons, all_met, matches,
  packet_fields, one_value, packet_query,
}

-- Where a comparison holds, the values are equal.
abbrev Aligned : List Bool → List ℕ → List ℕ → Type 0
Aligned [] [] [] = Unit
Aligned (b ∷ bs) (x ∷ xs) (y ∷ ys) = (b ≡ true → x ≡ y) × Aligned bs xs ys
Aligned bs xs ys = ⊥

same_bytes-eq : (xs ys : List ℕ) → same_bytes xs ys ≡ true → xs ≡ ys
unfolding same_bytes
same_bytes-eq [] [] h = refl
same_bytes-eq (x ∷ xs) (y ∷ ys) h = ground (arith, same_bytes-eq xs ys)
same_bytes-eq [] (y ∷ ys) h = cc
same_bytes-eq (x ∷ xs) [] h = cc

all_met-value :
    (i k f w : ℕ) (bs : List Bool) (xs ys : List ℕ)
    → Aligned bs xs ys
    → all_met i w bs ≡ true
    → i + k ≡ f
    → has_bit f w ≡ false
    → get_elem? xs k ≡ get_elem? ys k
unfolding all_met
all_met-value i k f w [] [] [] a h e g = refl
all_met-value i zero f w (b ∷ bs) (x ∷ xs) (y ∷ ys) (a, as_) h e g =
    let same : i ≡ f = omega arith in
    let clear = subst (λ f. has_bit f w ≡ false) (sym same) g in ap some (a (ground (arith, clear)))
all_met-value i (suc k) f w (b ∷ bs) (x ∷ xs) (y ∷ ys) (a, as_) h e g =
    all_met-value (i + 1) k f w bs xs ys as_ (ground arith) (omega arith) g
all_met-value i k f w [] [] (y ∷ ys) a h e g = absurd a
all_met-value i k f w [] (x ∷ xs) ys a h e g = absurd a
all_met-value i k f w (b ∷ bs) [] ys a h e g = absurd a
all_met-value i k f w (b ∷ bs) (x ∷ xs) [] a h e g = absurd a

comparisons-Aligned :
    (e t : PacketExpr) → Aligned (comparisons e t) (field_values e) (field_values t)
comparisons-Aligned e t =
    let number = λ (a b : ℕ). (==_iff a b).0 in
    let bytes =
      λ (xs ys : List ℕ) (h : same_bytes xs ys ≡ true). ap word_of (same_bytes-eq xs ys h) in
    (
      number e.ap_src t.ap_src,
      (
        number e.ap_dst t.ap_dst,
        (
          number e.dl_vlan t.dl_vlan,
          (
            number e.dl_vlan_pcp t.dl_vlan_pcp,
            (
              number e.dl_proto t.dl_proto,
              (
                bytes e.dl_src t.dl_src,
                (
                  bytes e.dl_dst t.dl_dst,
                  (
                    number e.nw_src t.nw_src,
                    (
                      number e.nw_dst t.nw_dst,
                      (
                        number e.nw_proto t.nw_proto,
                        (
                          number e.tp_src t.tp_src,
                          (
                            number e.tp_dst t.tp_dst,
                            (number e.group_src t.group_src, (number e.group_dst t.group_dst, tt)),
                          ),
                        ),
                      ),
                    ),
                  ),
                ),
              ),
            ),
          ),
        ),
      ),
    )

and-left : (a b : Bool) → (a && b) ≡ true → a ≡ true
and-left true b h = refl
and-left false b h = cc

not-or : (a b : Bool) → (not a || b) ≡ true → b ≡ false → a ≡ false
not-or true b h g = cc
not-or false b h g = refl

and-right : (a b : Bool) → (a && b) ≡ true → b ≡ true
and-right true b h = h
and-right false b h = cc

some-injective : {a b : ℕ} → some a ≡ some b → a ≡ b
some-injective h = cc

known :
    (b : Bool) (m : Option ℕ) (v : ℕ)
    → (if b then none else m) ≡ some v
    → (b ≡ false) × (m ≡ some v)
known true m v h = cc
known false m v h = (refl, h)

within-bit :
    (n f w others : ℕ)
    → within n w others ≡ true
    → f < n
    → has_bit f others ≡ false
    → has_bit f w ≡ false
unfolding within
within-bit zero f w others h l g = absurd (omega arith)
within-bit (suc n) f w others h l g = elim (Bool-cases (f == n)) [
  | inl e ↦
      let same : f ≡ n = ground arith in
      let clear = subst (λ f. has_bit f others ≡ false) same g in
      subst (λ f. has_bit f w ≡ false) (sym same)
        (not-or (has_bit n w) (has_bit n others) (and-left _ _ h) clear)
  | inr e ↦ within-bit n f w others (and-right _ _ h) (ground arith) g
]

elem-lt : (xs : List ℕ) (i v : ℕ) → get_elem? xs i ≡ some v → i < length xs
elem-lt [] i v h = cc
elem-lt (x ∷ xs) zero v h = omega arith
elem-lt (x ∷ xs) (suc i) v h = omega (arith, elem-lt xs i v h)

-- If a Packet_expr matches another by which it is searched, it has the value of that one in each field
-- in which that one has a value.
pub matches-get_field :
    (e t : PacketExpr) (f v : ℕ)
    → matches e t ≡ true
    → get_field f t ≡ some v
    → get_field f e ≡ some v
unfolding matches get_field
matches-get_field e t f v m h =
    let inside = and-left (within 32 e.wildcards t.wildcards) _ m in
    let met = and-right (within 32 e.wildcards t.wildcards) _ m in
    let (clear, in_t) = known (has_bit f t.wildcards) (get_elem? (field_values t) f) v h in
    let low : f < 14 = elem-lt (field_values t) f v in_t in
    let known_in_e = within-bit 32 f e.wildcards t.wildcards inside (omega (arith, low)) clear in
    let same =
      all_met-value 0 f f t.wildcards (comparisons e t) (field_values e) (field_values t)
        (comparisons-Aligned e t) met (omega arith) clear in
    rw known_in_e (same ∙ in_t)

one_value-Distinct : (m : Option ℕ) → Distinct (one_value m)
one_value-Distinct none = tt
one_value-Distinct (some v) = (refl, tt)

one_value-member :
    (m : Option ℕ) (w : ℕ)
    → ((v : ℕ) → m ≡ some v → w ≡ v)
    → (is_empty (one_value m) || member w (one_value m)) ≡ true
one_value-member none w h = refl
one_value-member (some v) w h = let same : w ≡ v = h v refl in ground arith

-- What the classifier relies on holds of a search by a Packet_expr.
pub packet_query-Consistent : (Action : Type 0) (t : PacketExpr) → Consistent PacketExpr Action t
packet_query-Consistent Action t f = (
  one_value-Distinct (get_field f t),
  λ r w m g.
      one_value-member (get_field f t) w
        (λ v h. some-injective (sym g ∙ matches-get_field r.expr t f v m h)),
)
