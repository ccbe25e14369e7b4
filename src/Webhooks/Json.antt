-- ===== src/Webhooks/Json.antt =====
-- JSON values, and the checks of zod that the schemas of the webhooks are made of.
use automatebro.Prelude.{ℕ, String, Bool, Option, none, some, List, [], ◌∷◌, str_eq, if◌then◌else◌}

mutual
  pub data Json : Type 0 where
    null : Json
    boolean : Bool → Json
    number : ℕ → Json
    string : String → Json
    array : Items → Json
    object : Fields → Json

  pub data Items : Type 0 where
    nil : Items
    cons : Json → Items → Items

  pub data Fields : Type 0 where
    end : Fields
    field : String → Json → Fields → Fields

-- A schema: what it makes of a value, or `none`.
abbrev pub Schema : Type 0 → Type 0
Schema A = Json → Option A

infixl 5 ◌>>=◌
abbrev pub ◌>>=◌ : {A B : Type 0} → Option A → (A → Option B) → Option B
none >>= f = none
some a >>= f = f a

abbrev pub get : String → Fields → Option Json
get key end = none
get key (field k v rest) = if str_eq k key then some v else get key rest

abbrev pub as_object : Schema Fields
as_object (object fs) = some fs
as_object _ = none

-- `z.string()`
abbrev pub as_string : Schema String
as_string (string s) = some s
as_string _ = none

-- `z.boolean()`
abbrev pub as_boolean : Schema Bool
as_boolean (boolean b) = some b
as_boolean _ = none

-- `.min(1)`
abbrev pub not_empty : String → Option String
not_empty s = if str_eq s "" then none else some s

-- `z.string().min(1)`
abbrev pub as_filled : Schema String
as_filled v = as_string v >>= not_empty

-- `z.literal(s)`
abbrev pub as_literal : String → Schema (Unit {0})
as_literal s v = as_string v >>= λ x. if str_eq x s then some tt else none

-- A key of `z.object` that must be there.
abbrev pub required : {A : Type 0} → Schema A → Option Json → Option A
required s none = none
required s (some v) = s v

-- `.optional()`: a key may be missing, but not be wrong.
abbrev pub optional : {A : Type 0} → Schema A → Option Json → Option (Option A)
optional s none = some none
optional s (some v) = s v >>= λ a. some (some a)

abbrev pub all_items : {A : Type 0} → Schema A → Items → Option (List A)
all_items s nil = some []
all_items s (cons v vs) = let more = all_items s vs in s v >>= λ a. more >>= λ rest. some (a ∷ rest)

-- `z.array(s)`
abbrev pub as_array : {A : Type 0} → Schema A → Schema (List A)
as_array s (array items) = all_items s items
as_array s _ = none
