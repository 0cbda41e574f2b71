-- ===== src/OpenFlow/Actions/Growth.antt =====
-- The array of `Actions` holds the actions created so far, except where two calls break it.
use nox13_interserver.Common.{
  ℕ, suc, ◌≡◌, ◌≢◌, refl, ap, List, [], ◌∷◌, ◌++◌, map, arith, length, length-append,
}
use nox13_interserver.Common.Outcome.{ok, undefined}
use nox13_interserver.OpenFlow.Actions.{
  Action, Actions, unwritten, pointer, TtlType, copy_ttl_in, copy_ttl_out, dec_nw_ttl, dec_mpls_ttl,
  new_actions, resize, make_room, write_slot, store, append_action, create_copy_ttl,
  create_set_mpls_ttl, follow,
}

-- What the array holds once the listed actions have been created.
unfoldable pub holding : List Action → Actions
holding [] = new_actions
holding (x ∷ xs) = record { act_num = length (x ∷ xs); acts = map pointer (x ∷ xs) }

resize-suc :
    (xs : List Action)
    → resize (suc (length xs)) (map pointer xs) ≡ map pointer xs ++ unwritten ∷ []
resize-suc [] = refl
resize-suc (x ∷ xs) = ap (◌∷◌ (pointer x)) (resize-suc xs)

resize-length : (xs : List Action) → resize (length xs) (map pointer xs) ≡ map pointer xs
resize-length [] = refl
resize-length (x ∷ xs) = ap (◌∷◌ (pointer x)) (resize-length xs)

write_slot-length :
    (xs : List Action) (y : Action)
    → write_slot (map pointer xs ++ unwritten ∷ []) (length xs) y ≡ map pointer (xs ++ y ∷ [])
write_slot-length [] y = refl
write_slot-length (x ∷ xs) y = ap (◌∷◌ (pointer x)) (write_slot-length xs y)

length-map : (xs : List Action) → length (map pointer xs) ≡ length xs
length-map [] = refl
length-map (x ∷ xs) = ap suc (length-map xs)

follow-length :
    (xs : List Action) → follow (map pointer xs ++ unwritten ∷ []) (length xs) ≡ undefined
follow-length [] = refl
follow-length (x ∷ xs) = follow-length xs

-- The array with room for one more.
roomy : List Action → Actions
roomy xs = record { act_num = length xs; acts = map pointer xs ++ unwritten ∷ [] }

make_room-holding : (xs : List Action) → make_room (holding xs) ≡ roomy xs
unfolding make_room holding new_actions roomy
make_room-holding [] = refl
make_room-holding (x ∷ xs) = ground (arith, resize-suc (x ∷ xs))

store-roomy : (y : Action) (xs : List Action) → store y (roomy xs) ≡ ok (holding (xs ++ y ∷ []))
unfolding store roomy holding
store-roomy y [] = refl
store-roomy y (x ∷ xs) = ground (
  arith,
  write_slot-length (x ∷ xs) y,
  length-append (map pointer (x ∷ xs)) (unwritten ∷ []),
  length-append (x ∷ xs) (y ∷ []),
  length-map (x ∷ xs),
)

-- A call that makes room, stores its action and counts it adds that action at the end, and is
-- always defined.
pub append_action-holding :
    (y : Action) (xs : List Action) → append_action y (holding xs) ≡ ok (holding (xs ++ y ∷ []))
unfolding append_action
append_action-holding y xs = rw (make_room-holding xs) (store-roomy y xs)

-- CreateCopyTTL with either of its types is undefined behaviour, whatever was created before: it
-- writes through the pointer of the new action before that pointer is set.
pub create_copy_ttl-undefined :
    (junk type : TtlType) (xs : List Action)
    → type ≢ dec_nw_ttl
    → type ≢ dec_mpls_ttl
    → create_copy_ttl junk type (holding xs) ≡ undefined
unfolding create_copy_ttl roomy
create_copy_ttl-undefined junk copy_ttl_in xs h g = rw (make_room-holding xs, follow-length xs)
create_copy_ttl-undefined junk copy_ttl_out xs h g = rw (make_room-holding xs, follow-length xs)
create_copy_ttl-undefined junk dec_nw_ttl xs h g = absurd (h refl)
create_copy_ttl-undefined junk dec_mpls_ttl xs h g = absurd (g refl)

-- CreateSetMplsTTL is undefined behaviour, whatever was created before: it leaves the array without
-- room for the pointer that it writes.
pub create_set_mpls_ttl-undefined :
    (ttl : ℕ) (xs : List Action) → create_set_mpls_ttl ttl (holding xs) ≡ undefined
unfolding create_set_mpls_ttl store holding new_actions
create_set_mpls_ttl-undefined ttl [] = refl
create_set_mpls_ttl-undefined ttl (x ∷ xs) =
    ground (arith, resize-length (x ∷ xs), length-map (x ∷ xs))
