-- ===== src/Schema/Tests.antt =====
-- The migrations on a database that is the list of what has been created, the last first.
use pentagon5_foundation.Prelude.{
  String, ◌≡◌, refl, List, [], ◌∷◌, Result, ok, err, str_eq, eq_refl, arith, if◌then◌else◌,
}
use pentagon5_foundation.Schema.Migrations.{
  Routine, reject_event_mutation, events_append_only, events_reject_truncate, Ddl, IsUndone,
  for_each, upgrade_0001, upgrade_0002, upgrade, downgrade, downgrade-upgrade,
}

unfoldable push : String → List String → Result String (List String)
push name d = ok (name ∷ d)

-- It fails unless what is dropped was created last.
unfoldable pop : String → List String → Result String (List String)
pop name [] = err name
pop name (x ∷ d) = if str_eq x name then ok d else err name

pop-push : (name : String) (d d' : List String) → push name d ≡ ok d' → pop name d' ≡ ok d
unfolding push pop
pop-push name d d' e = ground (arith, e, eq_refl name)

abbrev routine_name : Routine → String
routine_name reject_event_mutation = "function"
routine_name events_append_only = "append only"
routine_name events_reject_truncate = "no truncate"

abbrev stack : Ddl (List String) String
stack = record {
  create_schema = push;
  drop_schema = pop;
  create_all = λ ts. push "all";
  drop_all = λ ts. pop "all";
  create_routine = λ r. push (routine_name r);
  drop_routine = λ r. pop (routine_name r);
  create_table = λ t. push t.name;
  drop_table = λ t. pop t.name;
}

stack-IsUndone : IsUndone stack
stack-IsUndone = record {
  schema = pop-push;
  all = λ ts. pop-push "all";
  routine = λ r. pop-push (routine_name r);
  table = λ t. pop-push t.name;
}

abbrev created : List String
created =
    "session_events" ∷ "websocket_tickets" ∷ "login_grants" ∷ "oidc_flows" ∷ "oidc_identities"
    ∷ "no truncate" ∷ "append only" ∷ "function" ∷ "all" ∷ "audit" ∷ "trading" ∷ "market"
    ∷ "operations" ∷ "workspace" ∷ "personalization" ∷ "identity" ∷ "other" ∷ []

downgrade-upgrade_example : downgrade stack created ≡ ok ("other" ∷ [])
unfolding upgrade upgrade_0001 upgrade_0002 for_each push
downgrade-upgrade_example = downgrade-upgrade stack stack-IsUndone ("other" ∷ []) created refl
