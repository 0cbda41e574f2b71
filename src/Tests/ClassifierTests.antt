-- ===== src/Tests/ClassifierTests.antt =====
-- The classifier on rules for IPv4 and ARP packets, of which one is for TCP.
use nox13_interserver.Common.{ℕ, Option, none, some, List, [], ◌∷◌, ◌≡◌, refl, map}
use nox13_interserver.Classifier.{Rule, add_rule_to_list, remove_rule, remove_from}
use nox13_interserver.Classifier.Building.{build, unbuild, clean}
use nox13_interserver.Classifier.Counts.{all_rules}
use nox13_interserver.Classifier.Placed.{Placed}
use nox13_interserver.Classifier.Rebuilt.{SameRules, build-SameRules}
use nox13_interserver.Classifier.Unbuilt.{IsLeaf, unbuild-SameRules}
use nox13_interserver.Classifier.Cleaned.{clean_kept}
use nox13_interserver.Classifier.Removed.{Lost, remove_from-kept}
use nox13_interserver.Classifier.PacketExpr.{
  PacketExpr, splittable, within, all_met, same_bytes, packet_fields, packet_query, get_field,
  matches,
}
use nox13_interserver.Classifier.Ids.{id_rounds}
use nox13_interserver.Classifier.PacketExpr.Matching.{matches-get_field, packet_query-Consistent}
use nox13_interserver.Classifier.Table.{
  Table, Request, adds, deletes, builds, cleans, new_table, serve, serve_all, search,
}
use nox13_interserver.Classifier.Table.Keyed.{rules_of, Keyed}
use nox13_interserver.Classifier.Table.Kept.{
  IsSearched, serve_all-Inv, new_table-Inv, search-linear, serve_all-search,
}

-- All fields are wildcards.
abbrev anything : PacketExpr
anything = record {
  ap_src = 0;
  ap_dst = 0;
  dl_vlan = 0;
  dl_vlan_pcp = 0;
  dl_proto = 0;
  dl_src = 0 ∷ 0 ∷ 0 ∷ 0 ∷ 0 ∷ 0 ∷ [];
  dl_dst = 0 ∷ 0 ∷ 0 ∷ 0 ∷ 0 ∷ 0 ∷ [];
  nw_src = 0;
  nw_dst = 0;
  tp_src = 0;
  tp_dst = 0;
  group_src = 0;
  group_dst = 0;
  wildcards = 4294967295;
  nw_proto = 0;
}

-- Of the Ethernet type, which is field 4.
abbrev of_type : ℕ → PacketExpr
of_type t = record anything { dl_proto = t; wildcards = 4294967279 }

-- IPv4 of the protocol, which is field 9.
abbrev ip_of : ℕ → PacketExpr
ip_of p = record anything { dl_proto = 2048; nw_proto = p; wildcards = 4294966767 }

abbrev ip_and_arp : List (Request PacketExpr ℕ)
ip_and_arp =
    adds 5 (of_type 2048) 1
    ∷ adds 3 (of_type 2054) 2
    ∷ adds 4 (ip_of 6) 3
    ∷ adds 1 (ip_of 17) 4
    ∷ builds
    ∷ deletes 4
    ∷ cleans
    ∷ []

abbrev ids_of : Option (List (Rule PacketExpr ℕ)) → List ℕ
ids_of none = []
ids_of (some ms) = map (λ m. m.id) ms

-- The rules for IPv4, of which that for TCP has the lesser priority.
ids_found : ids_of (search (of_type 2048) (serve_all ip_and_arp new_table).root) ≡ 3 ∷ 1 ∷ []
unfolding serve search id_rounds add_rule_to_list get_field splittable remove_rule matches
ids_found = refl

abbrev built : Table PacketExpr ℕ
built = serve_all ip_and_arp new_table

built-Placed : Placed built.root
built-Placed = (serve_all-Inv ip_and_arp new_table new_table-Inv).0

serve_all-search_example :
    IsSearched
      (of_type 2048)
      (rules_of (serve_all ip_and_arp new_table).rules)
      (search (of_type 2048) (serve_all ip_and_arp new_table).root)
    × Keyed (serve_all ip_and_arp new_table).rules
serve_all-search_example =
    serve_all-search ip_and_arp (of_type 2048) (packet_query-Consistent ℕ (of_type 2048))

search-linear_example :
    IsSearched (of_type 2048) (all_rules built.root) (search (of_type 2048) built.root)
search-linear_example =
    search-linear (of_type 2048) built.root (packet_query-Consistent ℕ (of_type 2048)) built-Placed

build-SameRules_example : SameRules built.root (build 20 0 built.root)
build-SameRules_example = build-SameRules 20 0 built.root built-Placed

unbuild-SameRules_example : SameRules built.root (unbuild built.root) × IsLeaf (unbuild built.root)
unbuild-SameRules_example = unbuild-SameRules built.root built-Placed

clean_kept_example : SameRules built.root (clean built.root).1
clean_kept_example = clean_kept built.root built-Placed

remove_from-kept_example : Lost 3 built.root (remove_from 3 built.root)
remove_from-kept_example = remove_from-kept 3 built.root built-Placed

matches-get_field_example : get_field 4 (ip_of 6) ≡ some 2048
matches-get_field_example =
    unfold matches get_field within all_met same_bytes in
    matches-get_field (ip_of 6) (of_type 2048) 4 2048 refl refl
