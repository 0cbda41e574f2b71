-- ===== src/OpenFlow/Actions.antt =====
-- lib/actions.cc: an array of pointers to actions that grows by one at each call, with its memory.
-- `act_num` is a static member in the source; one `Actions` is built at a time.
use nox13_interserver.Common.{
  ℕ, zero, suc, ◌+◌, ◌<◌, ◌≡◌, Bool, true, false, ◌||◌, List, [], ◌∷◌, ◌++◌, String, arith, ltb,
  ◌==◌, if◌then◌else◌, length,
}
use nox13_interserver.Common.Outcome.{Outcome, ok, throws, undefined, ◌>>=◌}
pub mod Growth

-- The ofp_action_type of an action with a body that is no more than its type.
pub data TtlType : Type 0 where
  copy_ttl_in copy_ttl_out dec_nw_ttl dec_mpls_ttl : TtlType

pub data TagType : Type 0 where
  push_vlan push_mpls push_pbb : TagType

-- The value that a set-field action points to: a number of some bytes, or an address.
pub data FieldValue : Type 0 where
  number : ℕ → ℕ → FieldValue
  address : List ℕ → FieldValue

pub data Action : Type 0 where
  output : ℕ → ℕ → Action
  copy_ttl : TtlType → Action
  dec_ttl : TtlType → Action
  push : TagType → ℕ → Action
  pop_vlan : Action
  pop_mpls : ℕ → Action
  set_nw_ttl : ℕ → Action
  set_mpls_ttl : ℕ → Action
  set_queue : ℕ → Action
  group : ℕ → Action
  set_field : String → FieldValue → Action

-- One pointer of the array: not yet written, or the address of an action.
pub data Slot : Type 0 where
  unwritten : Slot
  pointer : Action → Slot

pub record Actions : Type 0 where
  pub act_num : ℕ
  pub acts : List Slot

-- Actions::Actions
unfoldable pub new_actions : Actions
new_actions = record { act_num = 0; acts = unwritten ∷ [] }

-- xrealloc to n pointers.
abbrev pub resize : ℕ → List Slot → List Slot
resize zero slots = []
resize (suc n) [] = unwritten ∷ resize n []
resize (suc n) (s ∷ slots) = s ∷ resize n slots

-- `if (act_num) acts = xrealloc(acts, … * (act_num + 1))`
unfoldable pub make_room : Actions → Actions
make_room a = if a.act_num == 0 then a else record a { acts = resize (a.act_num + 1) a.acts }

abbrev pub write_slot : List Slot → ℕ → Action → List Slot
write_slot [] i x = []
write_slot (s ∷ slots) zero x = pointer x ∷ slots
write_slot (s ∷ slots) (suc i) x = s ∷ write_slot slots i x

-- `acts[act_num] = …; act_num++`: past the end of the array the write is undefined.
unfoldable pub store : Action → Actions → Outcome Actions
store x a =
    if ltb a.act_num (length a.acts)
    then ok (record { act_num = a.act_num + 1; acts = write_slot a.acts a.act_num x })
    else undefined

unfoldable pub append_action : Action → Actions → Outcome Actions
unfolding store make_room
append_action x a = store x (make_room a)

-- CreateOutput(port)
unfoldable pub create_output : ℕ → Actions → Outcome Actions
unfolding append_action
create_output port a = append_action (output port 0) a

-- `acts[act_num]->type = type` before the pointer is written.
abbrev pub follow : List Slot → ℕ → Outcome Action
follow [] i = undefined
follow (unwritten ∷ slots) zero = undefined
follow (pointer x ∷ slots) zero = ok x
follow (s ∷ slots) (suc i) = follow slots i

-- The type of the new action is not set: it stays what the memory held, `junk`.
unfoldable pub create_copy_ttl : TtlType → TtlType → Actions → Outcome Actions
unfolding make_room store
create_copy_ttl junk dec_nw_ttl a = ok a
create_copy_ttl junk dec_mpls_ttl a = ok a
create_copy_ttl junk type a = do
  let b = make_room a
  old ← follow b.acts b.act_num
  store (copy_ttl junk) b

unfoldable pub create_dec_ttl : TtlType → Actions → Outcome Actions
unfolding append_action
create_dec_ttl copy_ttl_in a = ok a
create_dec_ttl copy_ttl_out a = ok a
create_dec_ttl type a = append_action (dec_ttl type) a

unfoldable pub create_push : TagType → ℕ → Actions → Outcome Actions
unfolding append_action
create_push type ethertype a = append_action (push type ethertype) a

unfoldable pub create_pop_vlan : Actions → Outcome Actions
unfolding append_action
create_pop_vlan a = append_action pop_vlan a

unfoldable pub create_pop_mpls : ℕ → Actions → Outcome Actions
unfolding append_action
create_pop_mpls ethertype a = append_action (pop_mpls ethertype) a

unfoldable pub create_set_nw_ttl : ℕ → Actions → Outcome Actions
unfolding append_action
create_set_nw_ttl ttl a = append_action (set_nw_ttl ttl) a

-- xrealloc to act_num pointers, or to one byte where that is 0.
unfoldable pub create_set_mpls_ttl : ℕ → Actions → Outcome Actions
unfolding store
create_set_mpls_ttl ttl a = store (set_mpls_ttl ttl) (record a { acts = resize a.act_num a.acts })

unfoldable pub create_set_queue : ℕ → Actions → Outcome Actions
unfolding append_action
create_set_queue queue a = append_action (set_queue queue) a

unfoldable pub create_group : ℕ → Actions → Outcome Actions
unfolding append_action
create_group id a = append_action (group id) a

unfoldable pub create_set_field : String → FieldValue → Actions → Outcome Actions
unfolding append_action
create_set_field field value a = append_action (set_field field value) a
