-- ===== src/Json.antt =====
-- Decoded JSON documents (`map[string]any` and `[]any` of the Go code). A number is one of the
-- counts that the modelled code writes.
use repowire.Prelude.{ℕ, String, Bool, Option, none, some, ◌==◌, if◌then◌else◌}

mutual
  pub data Json : Type 0 where
    null : Json
    bool : Bool → Json
    num : ℕ → Json
    str : String → Json
    arr : Items → Json
    obj : Fields → Json

  pub data Items : Type 0 where
    nil : Items
    cons : Json → Items → Items

  pub data Fields : Type 0 where
    end : Fields
    field : String → Json → Fields → Fields

-- `m[key]`
unfoldable pub at : String → Fields → Option Json
at k end = none
at k (field j v m) = if j == k then some v else at k m

-- `m[key] = v`
unfoldable pub set : String → Json → Fields → Fields
set k v end = field k v end
set k v (field j w m) = if j == k then field k v m else field j w (set k v m)

-- The type assertions `v.(string)`, `v.(map[string]any)` and `v.([]any)` with their comma-ok form.
unfoldable pub as_text : Option Json → Option String
as_text (some (str s)) = some s
as_text _ = none

unfoldable pub as_object : Option Json → Option Fields
as_object (some (obj m)) = some m
as_object _ = none

unfoldable pub as_array : Option Json → Option Items
as_array (some (arr xs)) = some xs
as_array _ = none
