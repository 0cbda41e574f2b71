-- ===== src/Discovery/Removal.antt =====
-- The loops of discovery.cc that delete links: each deletes the links that a test picks from the
-- map, in its order, and posts one removal for each.
use mathlib.Core.List.{append_assoc, append-nil}
use nox13_interserver.Common.{
  ℕ, ◌≡◌, refl, sym, ap, ◌∙◌, Bool, false, ◌||◌, Option, none, some, List, [], ◌∷◌, ◌++◌, map,
  arith, ltb, if◌then◌else◌,
}
use nox13_interserver.Common.Maps.{lookup, erase, lookup-erase, Sorted, erase-Sorted, lookup-After}
use nox13_interserver.Lldp.{Port, Link, link_eq, link_eq_iff, link_key}
use nox13_interserver.Discovery.Defs.{
  Discovery, LinkEvent, remove, Reason, link, link_event, link_delete, touches, delete_links_of,
  expire_links,
}

-- The links deleted one after the other.
pub delete_each : Reason → List Link → Discovery → Discovery
delete_each r [] s = s
delete_each r (l ∷ ls) s = delete_each r ls (link_delete l r s)

pub erase_each : List Link → List (Link × ℕ) → List (Link × ℕ)
erase_each [] m = m
erase_each (l ∷ ls) m = erase_each ls (erase l m)

abbrev pub removals : Reason → List Link → List LinkEvent
removals r ls = map (λ l. link_event l remove r) ls

-- What deleting the listed links does to the state: they leave the map, a removal is posted for
-- each, and nothing else changes.
pub delete_each_lem :
    (r : Reason) (ls : List Link) (s : Discovery)
    → delete_each r ls s
      ≡ record s { links = erase_each ls s.links; posted = s.posted ++ removals r ls }
unfolding delete_each erase_each link_delete
delete_each_lem r [] s = ap (λ e. record s { posted = e }) (sym (append-nil s.posted))
delete_each_lem r (l ∷ ls) s =
    delete_each_lem r ls (link_delete l r s)
    ∙ ap (λ e. record s { links = erase_each ls (erase l s.links); posted = e })
        (append_assoc s.posted (link_event l remove r ∷ []) (removals r ls))

-- The keys of the entries that a test picks, in the order of the map.
pub picked : (Link → ℕ → Bool) → List (Link × ℕ) → List Link
picked test [] = []
picked test ((l, seen) ∷ m) = let rest = picked test m in if test l seen then l ∷ rest else rest

pub delete_links_of_lem :
    (p : Port) (r : Reason) (m : List (Link × ℕ)) (s : Discovery)
    → delete_links_of p r m s ≡ delete_each r (picked (λ l seen. touches p l) m) s
unfolding delete_links_of delete_each picked
delete_links_of_lem p r [] s = refl
delete_links_of_lem p r ((l, seen) ∷ m) s =
    ground (arith, delete_links_of_lem p r m s, delete_links_of_lem p r m (link_delete l r s))

pub expire_links_lem :
    (t : ℕ) (m : List (Link × ℕ)) (s : Discovery)
    → expire_links t m s ≡ delete_each link (picked (λ l seen. ltb seen t) m) s
unfolding expire_links delete_each picked
expire_links_lem t [] s = refl
expire_links_lem t ((l, seen) ∷ m) s =
    ground (arith, expire_links_lem t m s, expire_links_lem t m (link_delete l link s))

pub erase_each-Sorted : (ls : List Link) (m : List (Link × ℕ)) → Sorted m → Sorted (erase_each ls m)
unfolding erase_each
erase_each-Sorted [] m h = h
erase_each-Sorted (l ∷ ls) m h = erase_each-Sorted ls (erase l m) (erase-Sorted l m h)

abbrev pub has_link : Link → List Link → Bool
has_link j [] = false
has_link j (l ∷ ls) = link_eq l j || has_link j ls

pub lookup-erase_each :
    (j : Link) (ls : List Link) (m : List (Link × ℕ))
    → lookup j (erase_each ls m) ≡ (if has_link j ls then none else lookup j m)
unfolding erase_each
lookup-erase_each j [] m = refl
lookup-erase_each j (l ∷ ls) m =
    ground (arith, lookup-erase_each j ls (erase l m), lookup-erase l j m)

-- The entry of a key, unless the test picks it.
abbrev pub spared : (Link → ℕ → Bool) → Link → Option ℕ → Option ℕ
spared test j none = none
spared test j (some seen) = if test j seen then none else some seen

picked_absent :
    (test : Link → ℕ → Bool) (j : Link) (m : List (Link × ℕ))
    → lookup j m ≡ none
    → has_link j (picked test m) ≡ false
unfolding picked lookup
picked_absent test j [] h = refl
picked_absent test j ((l, seen) ∷ m) h = ground (arith, picked_absent test j m)

has_link-picked :
    (test : Link → ℕ → Bool) (j : Link) (m : List (Link × ℕ))
    → Sorted m
    → (if has_link j (picked test m) then none else lookup j m) ≡ spared test j (lookup j m)
unfolding picked lookup
has_link-picked test j [] h = refl
has_link-picked test j ((l, seen) ∷ m) h = ground (
  arith,
  has_link-picked test j m h.1,
  lookup-After l m h.0,
  picked_absent test l m,
  link_eq_iff l j,
)

-- Erasing what a test picks from a sorted map leaves exactly the entries that it does not pick.
pub lookup-erase_each-picked :
    (test : Link → ℕ → Bool) (j : Link) (m : List (Link × ℕ))
    → Sorted m
    → lookup j (erase_each (picked test m) m) ≡ spared test j (lookup j m)
lookup-erase_each-picked test j m h =
    lookup-erase_each j (picked test m) m ∙ has_link-picked test j m h
