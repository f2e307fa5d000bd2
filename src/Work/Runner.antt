-- ===== src/Work/Runner.antt =====
-- daemon-go/state/work.go: the runner's block of a row's provenance.
use repowire.Prelude.{ℕ, suc, String, Option, none, some}
use repowire.Json
use repowire.Json.{Json, Fields, Items, nil, cons, end, obj, arr, num, str, null}
use repowire.Work.Types.{TrackedWork}

unfoldable pub count : Items → ℕ
count nil = 0
count (cons j rest) = suc (count rest)

unfoldable pub append : Items → Json → Items
append nil j = cons j nil
append (cons i rest) j = cons i (append rest j)

-- `toAnySlice`
abbrev pub items_of : Option Items → Items
items_of none = nil
items_of (some xs) = xs

abbrev pub fields_of : Option Fields → Fields
fields_of none = end
fields_of (some m) = m

-- The comma-ok assertion to a text, with its zero value.
abbrev pub text_of : Option String → String
text_of none = ""
text_of (some s) = s

-- `strOrNil`
abbrev pub text_or_null : Option String → Json
text_or_null none = null
text_or_null (some s) = str s

abbrev pub attempts_of : Fields → Items
attempts_of runner = items_of (Json.as_array (Json.at "attempts" runner))

unfoldable pub with_default : String → Json → Fields → Fields
with_default key j m = elim (Json.at key m) [ none ↦ Json.set key j m | some v ↦ m ]

-- The block of `runnerProvenance`, normalized.
unfoldable pub runner_block : TrackedWork → Fields
unfolding with_default count
runner_block w =
    let runner = fields_of (Json.as_object (Json.at "runner" w.provenance)) in
    with_default "attempts" (arr nil)
      (with_default "attempt_count" (num (count (attempts_of runner))) runner)

-- `runnerProvenance` with its block replaced
unfoldable pub with_runner : Fields → TrackedWork → Fields
with_runner runner w = Json.set "runner" (obj runner) w.provenance

-- `current_attempt_id` of a runner block
abbrev pub current_of : Fields → String
current_of runner = text_of (Json.as_text (Json.at "current_attempt_id" runner))

-- `runnerCurrentAttempt`
unfoldable pub runner_current_attempt : TrackedWork → String
runner_current_attempt w = elim (Json.as_object (Json.at "runner" w.provenance)) [
  | none ↦ ""
  | some runner ↦ current_of runner
]

abbrev pub object_in : String → Option Fields → Option Fields
object_in key none = none
object_in key (some m) = Json.as_object (Json.at key m)

-- `requestDueAt`
unfoldable pub request_due_at : TrackedWork → String
request_due_at w =
    let schedule = object_in "schedule" (object_in "execution" (some w.request)) in
    elim schedule [ none ↦ "" | some m ↦ text_of (Json.as_text (Json.at "due_at" m)) ]
