-- ===== src/Json.antt =====
-- The JSON documents that the programs read, and Python's operations on them. Numbers are whole.
use tiny_agent.Base.{
  ◌<>◌, ◌||◌, occurs, guard, ◌>>=◌, ◌>>◌, ℕ, ◌≡◌, refl, String, Bool, true, false, not, ◌&&◌,
  Option, none, some, List, [], ◌∷◌, if◌then◌else◌, ◌==◌, str_eq, eq_iff, length, Result, ok, err,
  type_error, key_error, attribute_error, arith, ap,
}

mutual
  pub data Json : Type 0 where
    null : Json
    boolean : Bool → Json
    -- n, and - n - 1
    natural negative : ℕ → Json
    text : String → Json
    array : Values → Json
    object : Fields → Json

  pub data Values : Type 0 where
    no_values : Values
    value : Json → Values → Values

  -- Each key once.
  pub data Fields : Type 0 where
    no_fields : Fields
    field : String → Json → Fields → Fields

abbrev pub find : String → Fields → Option Json
find key no_fields = none
find key (field k v rest) = if str_eq key k then some v else find key rest

abbrev pub or_key_error : String → Option Json → Result Json
or_key_error key none = err (key_error key)
or_key_error key (some v) = ok v

-- `document[key]`
unfoldable pub index : Json → String → Result Json
index (object fields) key = or_key_error key (find key fields)
index _ key = err (type_error "indices must be integers or slices")

abbrev pub or_null : Option Json → Json
or_null none = null
or_null (some v) = v

-- `document.get(key)`
unfoldable pub get : Json → String → Result Json
get (object fields) key = ok (or_null (find key fields))
get _ key = err (attribute_error "get")

-- `bool(document)`
unfoldable pub is_true : Json → Bool
is_true null = false
is_true (boolean b) = b
is_true (natural n) = not (n == 0)
is_true (negative n) = true
is_true (text s) = not (str_eq s "")
is_true (array no_values) = false
is_true (array (value v rest)) = true
is_true (object no_fields) = false
is_true (object (field key v rest)) = true

abbrev pub values_list : Values → List Json
values_list no_values = []
values_list (value v rest) = v ∷ values_list rest

abbrev pub values_of : List Json → Values
values_of [] = no_values
values_of (v ∷ vs) = value v (values_of vs)

abbrev pub keys : Fields → List Json
keys no_fields = []
keys (field key v rest) = text key ∷ keys rest

abbrev pub characters : String → List Json
characters String.[] = []
characters (String.◌∷◌ c s) = text (String.◌∷◌ c "") ∷ characters s

-- What `for x in document` goes through.
unfoldable pub elements : Json → Result (List Json)
elements (text s) = ok (characters s)
elements (array values) = ok (values_list values)
elements (object fields) = ok (keys fields)
elements _ = err (type_error "object is not iterable")

-- A whole number, or a boolean that counts as one.
abbrev pub bit : Bool → ℕ
bit true = 1
bit false = 0

-- `left == right`
unfoldable mutual
  pub json_eq : Json → Json → Bool
  json_eq null null = true
  json_eq (boolean a) (boolean b) = bit a == bit b
  json_eq (boolean a) (natural m) = bit a == m
  json_eq (natural n) (boolean b) = n == bit b
  json_eq (natural n) (natural m) = n == m
  json_eq (negative n) (negative m) = n == m
  json_eq (text s) (text t) = str_eq s t
  json_eq (array xs) (array ys) = values_eq xs ys
  json_eq (object f) (object g) = length (keys f) == length (keys g) && fields_in f g
  json_eq _ _ = false

  pub values_eq : Values → Values → Bool
  values_eq no_values no_values = true
  values_eq (value v xs) (value w ys) = json_eq v w && values_eq xs ys
  values_eq _ _ = false

  pub fields_in : Fields → Fields → Bool
  fields_in no_fields g = true
  fields_in (field key v rest) g = elim (find key g) [
    | none ↦ false
    | some w ↦ json_eq v w && fields_in rest g
  ]

-- `prefix + value`
unfoldable pub joined : String → Json → Result String
joined prefix (text name) = ok (prefix <> name)
joined prefix _ = err (type_error "can only concatenate str to str")

-- `document in xs`
unfoldable pub contains_json : Json → List Json → Bool
unfolding json_eq
contains_json v [] = false
contains_json v (w ∷ ws) = json_eq v w || contains_json v ws

-- `part in document`
unfoldable pub has_part : String → Json → Result Bool
unfolding contains_json
has_part part (text s) = ok (occurs part s)
has_part part (array xs) = ok (contains_json (text part) (values_list xs))
has_part part (object kvs) = ok (contains_json (text part) (keys kvs))
has_part part _ = err (type_error "argument is not iterable")

abbrev pub is_hashable : Json → Bool
is_hashable (array xs) = false
is_hashable (object kvs) = false
is_hashable _ = true

unfoldable pub all_hashable : List Json → Bool
all_hashable [] = true
all_hashable (v ∷ vs) = is_hashable v && all_hashable vs

-- `set(document)`
unfoldable pub set_of : Json → Result (List Json)
unfolding elements all_hashable
set_of document = do
  vs ← elements document
  guard (all_hashable vs) (type_error "unhashable type")
  ok vs

unfoldable pub is_subset : List Json → List Json → Bool
unfolding contains_json
is_subset [] ws = true
is_subset (v ∷ vs) ws = contains_json v ws && is_subset vs ws

-- A document that is equal to a text is that text.
pub json_eq-text : (v : Json) (s : String) → json_eq v (text s) ≡ true → v ≡ text s
unfolding json_eq
json_eq-text (text t) s h = ground (arith, eq_iff t s)
json_eq-text null s h = cc
json_eq-text (boolean b) s h = cc
json_eq-text (natural n) s h = cc
json_eq-text (negative n) s h = cc
json_eq-text (array xs) s h = cc
json_eq-text (object f) s h = cc

-- `document.items()`
abbrev pub pairs : Fields → List (String × Json)
pairs no_fields = []
pairs (field key v rest) = (key, v) ∷ pairs rest

unfoldable pub items_of : Json → Result (List (String × Json))
items_of (object found) = ok (pairs found)
items_of _ = err (attribute_error "items")

abbrev pub fields_of : List (String × Json) → Fields
fields_of [] = no_fields
fields_of ((key, v) ∷ rest) = field key v (fields_of rest)

pub pairs-fields_of : (rows : List (String × Json)) → pairs (fields_of rows) ≡ rows
pairs-fields_of [] = refl
pairs-fields_of ((key, v) ∷ rest) = ap (λ r. (key, v) ∷ r) (pairs-fields_of rest)

-- `document[key] = value`: the place of a key that is there is kept.
abbrev pub set_field : String → Json → Fields → Fields
set_field key v no_fields = field key v no_fields
set_field key v (field k w rest) =
    if str_eq key k then field k v rest else field k w (set_field key v rest)

pub find-set_field :
    (key other : String) (v : Json) (found : Fields)
    → find other (set_field key v found) ≡ (if str_eq other key then some v else find other found)
find-set_field key other v no_fields = refl
find-set_field key other v (field k w rest) =
    ground (arith, eq_iff key k, eq_iff other k, eq_iff other key, find-set_field key other v rest)

pub text-json_eq : (s : String) (v : Json) → json_eq (text s) v ≡ true → v ≡ text s
unfolding json_eq
text-json_eq s (text t) h = ground (arith, eq_iff s t)
text-json_eq s null h = cc
text-json_eq s (boolean b) h = cc
text-json_eq s (natural n) h = cc
text-json_eq s (negative n) h = cc
text-json_eq s (array xs) h = cc
text-json_eq s (object f) h = cc

-- Two sets have the same values.
unfoldable pub same_set : List Json → List Json → Bool
unfolding is_subset
same_set vs ws = is_subset vs ws && is_subset ws vs
