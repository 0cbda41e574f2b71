-- ===== src/Interserver/Resolver.antt =====
-- msg_resolver.cc and the factory of interactor.hh. The messages are those of the interactors; the
-- core's send_openflow_msg is a parameter, which gives its result for a datapath and a message.
use text.Mathlib.Text.{◌==◌}
use nox13_interserver.Common.{
  ℕ, Bool, true, false, Option, none, some, List, [], ◌∷◌, ◌++◌, String, if◌then◌else◌,
}
use nox13_interserver.Common.Outcome.{Outcome, ok, throws, undefined, std_exception}
use nox13_interserver.Interserver.Json.{Json}

pub record Interactor (Message : Type 0) : Type 0 where
  pub is_modify : Bool
  pub request_msg_creator : Json → Outcome Message

-- `sent` keeps what was given to send_openflow_msg.
pub record Resolver (Message : Type 0) : Type 0 where
  pub factory : List (String × Interactor Message)
  pub res_ids : List String
  pub temp : Option (Interactor Message)
  pub sent : List (ℕ × Message)

-- The exception of is_modify and resolve_request without an interactor.
abbrev pub must_init {ℓ} : {A : Type ℓ} → Outcome A
must_init = throws (std_exception "Must call init_interactor first!")

module _ {Message : Type 0} where
  abbrev pub empty_resolver : Resolver Message
  empty_resolver = record { factory = []; res_ids = []; temp = none; sent = [] }

  -- _assoc.find(key)
  unfoldable pub find_object :
      String → List (String × Interactor Message) → Option (Interactor Message)
  find_object k [] = none
  find_object k ((j, i) ∷ m) = if j == k then some i else find_object k m

  -- register_object, where `insert` keeps an entry of the key, and push_back of the name.
  unfoldable pub register : String → Interactor Message → Resolver Message → Resolver Message
  unfolding find_object
  register k i r = record r {
    factory = elim (find_object k r.factory) [
      | some old ↦ r.factory
      | none ↦ r.factory ++ (k, i) ∷ []
    ];
    res_ids = r.res_ids ++ k ∷ [];
  }

  -- The body of install, for the classes that it registers.
  unfoldable pub register_all :
      List (String × Interactor Message) → Resolver Message → Resolver Message
  unfolding register
  register_all [] r = r
  register_all ((k, i) ∷ is) r = register_all is (register k i r)

  unfoldable pub init_interactor : String → Resolver Message → Resolver Message × Bool
  unfolding find_object
  init_interactor tp r =
      let made = find_object tp r.factory in
      (record r { temp = made }, elim made [ none ↦ false | some i ↦ true ])

  unfoldable pub resolver_is_modify : Resolver Message → Outcome Bool
  resolver_is_modify r = elim r.temp [ none ↦ must_init | some i ↦ ok i.is_modify ]

  -- The pointer is reset once the message is made; if that throws, it stays.
  unfoldable pub resolve_request :
      (ℕ → Message → ℕ) → ℕ → Json → Resolver Message → Resolver Message × Outcome ℕ
  resolve_request send did args r = elim r.temp [
    | none ↦ (r, must_init)
    | some i ↦ elim (i.request_msg_creator args) [
      | ok msg ↦ (record r { temp = none; sent = r.sent ++ (did, msg) ∷ [] }, ok (send did msg))
      | throws e ↦ (r, throws e)
      | undefined ↦ (r, undefined)
    ]
  ]
