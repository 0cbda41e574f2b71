-- ===== src/Classifier/PacketExpr.antt =====
-- Packet_expr, what the rules of the classifier match (include/expr.hh, lib/expr.cc): a value for each
-- field, and the set of the fields that are wildcards. A search by a Packet_expr finds the rules that
-- are not more general than it. Words are read from memory on a little-endian host.
pub mod Matching
use nox13_interserver.Common.{
  ℕ, zero, suc, ◌+◌, ◌*◌, ◌<◌, Bool, true, false, not, ◌&&◌, ◌||◌, Option, none, some, List, [],
  ◌∷◌, ◌==◌, ◌≡◌, refl, arith, length, get_elem?, get_or, ap, ==_iff, if◌then◌else◌, subst, sym,
  ◌∙◌, Bool-cases, inl, inr,
}
use nox13_interserver.Classifier.{SplitFields, has_bit}
use nox13_interserver.Classifier.Traversal.{Query}
use nox13_interserver.Classifier.Searched.{member, Distinct, is_empty}
use nox13_interserver.Classifier.Linear.{Consistent}

pub record PacketExpr : Type 0 where
  pub ap_src : ℕ
  pub ap_dst : ℕ
  pub dl_vlan : ℕ
  pub dl_vlan_pcp : ℕ
  pub dl_proto : ℕ
  pub dl_src : List ℕ
  pub dl_dst : List ℕ
  pub nw_src : ℕ
  pub nw_dst : ℕ
  pub tp_src : ℕ
  pub tp_dst : ℕ
  pub group_src : ℕ
  pub group_dst : ℕ
  pub wildcards : ℕ
  pub nw_proto : ℕ

-- memcpy of four bytes from the third on into a word
abbrev pub word_of : List ℕ → ℕ
word_of bs = get_or bs 2 0 + get_or bs 3 0 * 256 + get_or bs 4 0 * 65536 + get_or bs 5 0 * 16777216

-- The values in the order of the enumeration Expr_field, from AP_SRC to GROUP_DST.
abbrev pub field_values : PacketExpr → List ℕ
field_values e =
    e.ap_src
    ∷ e.ap_dst
    ∷ e.dl_vlan
    ∷ e.dl_vlan_pcp
    ∷ e.dl_proto
    ∷ word_of e.dl_src
    ∷ word_of e.dl_dst
    ∷ e.nw_src
    ∷ e.nw_dst
    ∷ e.nw_proto
    ∷ e.tp_src
    ∷ e.tp_dst
    ∷ e.group_src
    ∷ e.group_dst
    ∷ []

unfoldable pub get_field : ℕ → PacketExpr → Option ℕ
get_field field e = if has_bit field e.wildcards then none else get_elem? (field_values e) field

-- (~path & ~wildcards) != 0, of the lowest bits
unfoldable pub has_clear_bit : ℕ → ℕ → ℕ → Bool
has_clear_bit zero path wildcards = false
has_clear_bit (suc n) path wildcards =
    (not (has_bit n path) && not (has_bit n wildcards)) || has_clear_bit n path wildcards

unfoldable pub splittable : ℕ → PacketExpr → Bool
unfolding has_clear_bit
splittable path e = has_clear_bit 32 path e.wildcards

-- (wildcards | others) == others, of the lowest bits
unfoldable pub within : ℕ → ℕ → ℕ → Bool
within zero wildcards others = true
within (suc n) wildcards others =
    (not (has_bit n wildcards) || has_bit n others) && within n wildcards others

-- memcmp of two arrays gives 0
unfoldable pub same_bytes : List ℕ → List ℕ → Bool
same_bytes [] [] = true
same_bytes (x ∷ xs) (y ∷ ys) = (x == y) && same_bytes xs ys
same_bytes [] (y ∷ ys) = false
same_bytes (x ∷ xs) [] = false

-- The comparisons of the fields, in the same order.
abbrev pub comparisons : PacketExpr → PacketExpr → List Bool
comparisons e t =
    (e.ap_src == t.ap_src)
    ∷ (e.ap_dst == t.ap_dst)
    ∷ (e.dl_vlan == t.dl_vlan)
    ∷ (e.dl_vlan_pcp == t.dl_vlan_pcp)
    ∷ (e.dl_proto == t.dl_proto)
    ∷ same_bytes e.dl_src t.dl_src
    ∷ same_bytes e.dl_dst t.dl_dst
    ∷ (e.nw_src == t.nw_src)
    ∷ (e.nw_dst == t.nw_dst)
    ∷ (e.nw_proto == t.nw_proto)
    ∷ (e.tp_src == t.tp_src)
    ∷ (e.tp_dst == t.tp_dst)
    ∷ (e.group_src == t.group_src)
    ∷ (e.group_dst == t.group_dst)
    ∷ []

-- Each field is a wildcard or compares equal, from field i on.
unfoldable pub all_met : ℕ → ℕ → List Bool → Bool
all_met i wildcards [] = true
all_met i wildcards (b ∷ bs) = (has_bit i wildcards || b) && all_met (i + 1) wildcards bs

unfoldable pub matches : PacketExpr → PacketExpr → Bool
unfolding within all_met same_bytes
matches e to_match =
    within 32 e.wildcards to_match.wildcards
    && all_met 0 to_match.wildcards (comparisons e to_match)

instance abbrev pub packet_fields : SplitFields PacketExpr
packet_fields = record {
  num_fields = 13;
  leaf_threshold = 1;
  get_field = get_field;
  splittable = splittable;
}

abbrev pub one_value : Option ℕ → List ℕ
one_value none = []
one_value (some v) = v ∷ []

-- The value of index 0; get_field of another index fails.
abbrev pub packet_values : ℕ → PacketExpr → List ℕ
packet_values field e = one_value (get_field field e)

instance abbrev pub packet_query : Query PacketExpr PacketExpr
packet_query = record { values = packet_values; matches = λ id e t. matches e t }
