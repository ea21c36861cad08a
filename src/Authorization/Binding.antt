-- ===== src/Authorization/Binding.antt =====
-- The exact binding of a proposal: `_build_binding`, `_CAPABILITY` and `_strictly_after` of
-- src/nunchi/authorization.py.
use nunchi.Authorization.Journal.{append}
use nunchi.Authorization.Proposals.{WakeFacts}
use nunchi.Prelude.{
  String, ℕ, Bool, List, Option, [], leb, ◌||◌, false, some, true, ◌==◌, if◌then◌else◌, ◌*◌, ◌∷◌,
  ◌&&◌, nat_has_eq, none, not, ltb, string_has_eq, ◌+◌,
}
use nunchi.Authorization.Types.{
  World, EventKind, Origin, Contract, Binding, message, authorization_contract,
}
use nunchi.Authorization.Exec.{Exec, ◌>>=◌, ask, pure}
use nunchi.Authorization.Effects.{now}
use Prim.Native.String.{◌++◌ as concat, String, ◌∷◌}
use Prim.Native.Char.{code}

abbrev codes : String → List ℕ
codes String.[] = []
codes (String.◌∷◌ c s) = code c ∷ codes s

abbrev between : ℕ → ℕ → ℕ → Bool
between lo hi c = leb lo c && leb c hi

abbrev is_lower : ℕ → Bool
is_lower c = between b'a' b'z' c

abbrev in_name : ℕ → Bool
in_name c = is_lower c || between b'0' b'9' c || c == b'_' || c == b'.' || c == b'-'

-- The rest of a capability after its first letter: some dot with a name after it.
abbrev dotted : Bool → List ℕ → Bool
dotted seen [] = false
dotted seen (c ∷ []) = in_name c && seen
dotted seen (c ∷ cs) = in_name c && dotted (seen || c == b'.') cs

-- `_CAPABILITY.fullmatch`: [a-z][a-z0-9_.-]*\.[a-z0-9_.-]+
namespaced_codes : List ℕ → Bool
namespaced_codes [] = false
namespaced_codes (c ∷ cs) = is_lower c && dotted false cs

unfoldable pub namespaced : String → Bool
unfolding namespaced_codes
namespaced s = namespaced_codes (codes s)

-- A proposal's resource: exactly the fields `kind` and `id`, with their texts where they are texts,
-- or a document of another shape.
pub data ResourceDoc : Type 0 where
  kind_and_id : Option String → Option String → ResourceDoc
  other_shape : ResourceDoc

pub record ProposalDoc : Type 0 where
  pub origin_event_id : String
  pub capability : String
  pub resource : ResourceDoc
  pub operation : String

pub data Built : Type 0 where
  refused : String → Built
  built : Binding → Built

abbrev checked_text : Option String → Option String
checked_text none = none
checked_text (some t) = if t == "" then none else some t

abbrev is_message : EventKind → Bool
is_message message = true
is_message _ = false

abbrev same_binding : World → WakeFacts → Bool
same_binding w wake =
    wake.room_id == w.room.room_id && wake.continuity_scope_id == w.room.continuity_scope_id

-- The part after the resource's shape: the capability and the operation's digest.
finish_binding : World → ProposalDoc → Origin → String → String → String → Built
finish_binding w p o kind id action_id =
    if not (namespaced p.capability)
    then refused "privileged capability must be namespaced"
    else elim (w.digest p.operation) [
      | none ↦ refused "privileged operation is not canonical JSON"
      | some digest ↦ built (record {
        action_id = concat "action:" action_id;
        stable = record {
          participant_id = w.room.participant_id;
          origin_event_id = p.origin_event_id;
          capability = p.capability;
          scope = record {
            platform = w.room.platform;
            room_id = w.room.room_id;
            continuity_scope_id = w.room.continuity_scope_id;
            participant_id = w.room.participant_id;
            resource = record { kind = kind; id = id };
          };
          action_digest = digest;
        };
        requester = o.author_id;
      })
    ]

check_resource : World → ProposalDoc → Origin → String → ResourceDoc → Built
unfolding finish_binding
check_resource w p o action_id other_shape =
    refused "privileged resource must contain exactly kind and id"
check_resource w p o action_id (kind_and_id kind id) = elim (checked_text kind) [
  | none ↦ refused "privileged resource kind must be non-empty"
  | some k ↦ elim (checked_text id) [
    | none ↦ refused "privileged resource id must be non-empty"
    | some i ↦ finish_binding w p o k i action_id
  ]
]

unfoldable pub binding_from : World → ProposalDoc → WakeFacts → String → Option Origin → Built
unfolding check_resource
binding_from w p wake action_id none =
    refused "privileged origin is not a retained canonical message"
binding_from w p wake action_id (some o) =
    if not (is_message o.kind)
    then refused "privileged origin is not a retained canonical message"
    else if not (wake.participant_id == w.room.participant_id)
    then refused "participant identity changed before authorization"
    else if not (same_binding w wake)
    then refused "room binding changed before authorization"
    else check_resource w p o action_id p.resource

unfoldable pub build_binding : World → ProposalDoc → WakeFacts → Exec Built
unfolding binding_from
build_binding w p wake = do
  origin ← ask (λ n. w.resolve n p.origin_event_id)
  action_id ← ask w.fresh
  pure (binding_from w p wake action_id origin)

-- `_strictly_after`
unfoldable pub strictly_after : World → ℕ → Exec ℕ
strictly_after w reference = do
  moment ← now w
  pure (if ltb reference moment then moment else reference + 1)

unfoldable pub persist_contract : World → Contract → Exec (Unit {0})
persist_contract w k = do t ← now w; append w (authorization_contract k t)

abbrev pub microseconds : ℕ → ℕ
microseconds seconds = seconds * 1000000
