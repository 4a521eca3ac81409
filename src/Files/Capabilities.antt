-- ===== src/Files/Capabilities.antt =====
-- `load_capability_profile` of agent/python/ocs_agent/profile.py: what a profile supports, and what its
-- gNMI service announces.
use reconfig_net_sim.Prelude.{String, Bool, false, not, List, [], ◌∷◌}
use reconfig_net_sim.Value.{Value, Fields, get}
use reconfig_net_sim.Errors.{Arg, fmt, Raised, bad_value, Result, ok, err, raise_if, ◌>>=◌, ◌>>◌}
use reconfig_net_sim.Files.Objects.{Process, invalid, is_in, object_or, list_or, text_or, load_yaml}

-- `CAPABILITY_STATUSES`
abbrev pub capability_statuses : List String
capability_statuses = "SUPPORTED" ∷ "DERIVED" ∷ "PLANNED" ∷ "UNSUPPORTED" ∷ "OUT_OF_SCOPE" ∷ []

-- `v in CAPABILITY_STATUSES`: a list or an object cannot be hashed.
abbrev pub is_status : Value → Result Bool
is_status (Value.text s) = ok (is_in capability_statuses s)
is_status (Value.list items) = err (bad_value (fmt "unhashable type: 'list'" []))
is_status (Value.dict f) = err (bad_value (fmt "unhashable type: 'dict'" []))
is_status v = ok false

-- A loop that checks each value, given the names that came before, and collects its name.
unfoldable pub check_each :
    (List String → Value → Result String) → List String → List Value → Result (Unit {0})
check_each check names [] = ok tt
check_each check names (v ∷ vs) = check names v >>= λ name. check_each check (name ∷ names) vs

-- One turn of the loop over capabilities, with the ids that came before. The message on a status leaves
-- the status itself out.
unfoldable pub check_capability : List String → Value → Result String
check_capability ids capability =
    object_or (invalid "Each capability must be an object" []) capability >>= λ f.
    text_or (invalid "Each capability must define a non-empty id" []) (get f "id") >>= λ id.
    raise_if (is_in ids id) (invalid "Duplicate capability id {}" (Arg.name id ∷ []))
    >> (is_status (get f "status") >>= λ known.
        raise_if (not known) (invalid "Capability {} has invalid status {}" (Arg.name id ∷ []))
        >> ok id)

abbrev pub require_text : Fields → String → Result String
require_text f key =
    text_or (invalid "Each gNMI model must define {}" (Arg.name key ∷ [])) (get f key)

-- One turn of the loop over gNMI models, with the names that came before.
unfoldable pub check_gnmi_model : List String → Value → Result String
check_gnmi_model names model =
    object_or (invalid "Each gNMI model must be an object" []) model >>= λ f.
    require_text f "name" >>= λ name. require_text f "organization" >>= λ _.
    require_text f "version" >>= λ _.
    raise_if (is_in names name) (invalid "Duplicate gNMI model {}" (Arg.name name ∷ [])) >> ok name

abbrev pub non_empty : Raised → List Value → Result (List Value)
non_empty e [] = err e
non_empty e (v ∷ vs) = ok (v ∷ vs)

-- `isinstance(v, list) and v`
abbrev pub non_empty_list : Raised → Value → Result (List Value)
non_empty_list e v = list_or e v >>= non_empty e

abbrev pub check_texts : Raised → List Value → Result (Unit {0})
check_texts e [] = ok tt
check_texts e (v ∷ vs) = text_or e v >>= λ _. check_texts e vs

abbrev pub bad_encodings : Raised
bad_encodings = invalid "gnmi.encodings must be a non-empty string list" []

abbrev pub gnmi_object : Value → Result Fields
gnmi_object gnmi = object_or (invalid "Capability profile must define gnmi" []) gnmi

abbrev pub encoding_list : Fields → Result (List Value)
encoding_list f = non_empty_list bad_encodings (get f "encodings")

abbrev pub model_list : Fields → Result (List Value)
model_list f = non_empty_list (invalid "gnmi.models must be a non-empty list" []) (get f "models")

abbrev pub version_of : Fields → Result String
version_of f = text_or (invalid "gnmi.version must be a non-empty string" []) (get f "version")

unfoldable pub check_gnmi : Value → Result (Unit {0})
unfolding check_each check_gnmi_model
check_gnmi gnmi = gnmi_object gnmi >>= λ f. version_of f >>= λ _. encoding_list f >>= λ encodings.
    check_texts bad_encodings encodings
    >> (model_list f >>= λ models. check_each check_gnmi_model [] models)

abbrev pub profile_of : Fields → Result String
profile_of file = text_or (invalid "Capability profile must define profile" []) (get file "profile")

abbrev pub model_version : Fields → Result String
model_version file =
    text_or (invalid "Capability profile must define model-version as a string" [])
      (get file "model-version")

abbrev pub capability_list : Fields → Result (List Value)
capability_list file = list_or (invalid "capabilities must be a list" []) (get file "capabilities")

-- `load_capability_profile`, from the parsed file on.
unfoldable pub check_profile : Fields → Result Fields
unfolding check_each check_capability check_gnmi
check_profile file = profile_of file >>= λ _. model_version file >>= λ _.
    capability_list file >>= λ capabilities.
    check_each check_capability [] capabilities >> (check_gnmi (get file "gnmi") >> ok file)

-- `load_capability_profile`
unfoldable pub load_capability_profile : Process → String → Result Fields
unfolding load_yaml
load_capability_profile process path = load_yaml process path >>= check_profile
