-- ===== src/Files/Objects.antt =====
-- What agent/python/ocs_agent/profile.py and config.py use of parsed objects, and where they read
-- files. A key of a YAML object that is no text is not modelled.
use Prim.Native.Nat.{Ordering}
use Prim.Native.String.{compare}
use reconfig_net_sim.Prelude.{
  String, Bool, true, false, not, Option, none, some, List, [], ◌∷◌, map, any, keep, str_eq,
  if◌then◌else◌,
}
use reconfig_net_sim.Value.{Value, Items, nil, cons, Fields, end, field}
use reconfig_net_sim.Errors.{
  ErrorKind, Arg, fmt, Raised, other, bad_value, ocs_error, Result, ok, err, raise_if, ◌>>=◌, ◌>>◌,
}

-- The files and the process that the functions run in: what `yaml.safe_load` makes of a file, with
-- `none` for one that is not there; what `json.load` makes of one, or what opening it raises; the
-- working directory through `os.path.abspath`; `os.path.dirname`; and the environment.
pub record Process : Type 0 where
  pub has_yaml : Bool
  pub yaml : String → Option (Result Value)
  pub json : String → Result Value
  pub abspath : String → String
  pub dirname : String → String
  pub environ : String → Option String

abbrev pub invalid : String → List Arg → Raised
invalid template args = ocs_error ErrorKind.validation (fmt template args)

abbrev pub no_method : Raised
no_method = other (fmt "object has no attribute 'get'" [])

abbrev pub keys : Fields → List String
keys end = []
keys (field k v rest) = k ∷ keys rest

abbrev pub items_of : Items → List Value
items_of nil = []
items_of (cons v rest) = v ∷ items_of rest

unfoldable insert_name : String → List String → List String
insert_name s [] = s ∷ []
insert_name s (t ∷ ts) =
    let rest = insert_name s ts in
    elim (compare s t) [ Ordering.lt ↦ s ∷ t ∷ ts | Ordering.eq ↦ t ∷ ts | Ordering.gt ↦ t ∷ rest ]

-- `sorted(set(names))`
unfoldable pub sorted_names : List String → List String
unfolding insert_name
sorted_names [] = []
sorted_names (s ∷ ss) = insert_name s (sorted_names ss)

abbrev pub is_in : List String → String → Bool
is_in allowed s = any (λ t. str_eq s t) allowed

abbrev no_names : List String → Bool
no_names [] = true
no_names (s ∷ ss) = false

-- `unknown = set(names) - set(allowed)`, and the exception where there are any.
unfoldable pub refuse_unknown :
    (String → List Arg → Raised) → String → List String → List String → Result (Unit {0})
unfolding sorted_names
refuse_unknown raised template allowed names =
    let unknown = sorted_names (keep (λ s. not (is_in allowed s)) names) in
    raise_if (not (no_names unknown)) (raised template (map Arg.name unknown))

-- `isinstance(v, dict)`
abbrev pub object_or : Raised → Value → Result Fields
object_or e (Value.dict f) = ok f
object_or e v = err e

-- `isinstance(v, list)`
abbrev pub list_or : Raised → Value → Result (List Value)
list_or e (Value.list items) = ok (items_of items)
list_or e v = err e

-- `isinstance(v, str) and v`
abbrev pub text_or : Raised → Value → Result String
text_or e (Value.text s) = if str_eq s "" then err e else ok s
text_or e v = err e

-- The names in `set(v)`; `TypeError` where the value has no elements, or some that are no text: those
-- cannot be hashed, sorted or joined.
abbrev text_item : Value → Result String
text_item (Value.text s) = ok s
text_item v = err (bad_value (fmt "expected str instance" []))

abbrev text_items : List Value → Result (List String)
text_items [] = ok []
text_items (v ∷ vs) = text_item v >>= λ s. text_items vs >>= λ ss. ok (s ∷ ss)

abbrev letters : String → List String
letters String.[] = []
letters (String.◌∷◌ c s) = String.◌∷◌ c String.[] ∷ letters s

abbrev pub names_of : Value → Result (List String)
names_of (Value.dict f) = ok (keys f)
names_of (Value.list items) = text_items (items_of items)
names_of (Value.text s) = ok (letters s)
names_of v = err (bad_value (fmt "object is not iterable" []))

-- `_load_yaml`
unfoldable pub load_yaml : Process → String → Result Fields
load_yaml process path =
    raise_if (not process.has_yaml) (invalid "PyYAML is required to load {}" (Arg.name path ∷ []))
    >> (elim (process.yaml path) [
      | none ↦ err (invalid "Model file not found: {}" (Arg.name path ∷ []))
      | some parsed ↦ parsed >>= object_or (invalid "YAML root must be an object" [])
    ])
