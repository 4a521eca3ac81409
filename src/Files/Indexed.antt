-- ===== src/Files/Indexed.antt =====
-- A capability profile can be looked up by its names (agent/python/ocs_agent/profile.py).
use reconfig_net_sim.Prelude.{
  String, ◌≡◌, refl, inl, inr, false, not, some, List, [], ◌∷◌, Bool-cases, str_eq,
}
use reconfig_net_sim.Value.{Value, Fields, end, get, plain_text}
use reconfig_net_sim.Errors.{Raised, ok}
use reconfig_net_sim.Files.Ensures.{
  Ensures, Ensures-elim, Ensures-guard, Ensures-bind, Ensures-skip, Ensures-weaken,
}
use reconfig_net_sim.Files.Objects.{
  Process, is_in, items_of, object_or, list_or, text_or, load_yaml,
}
use reconfig_net_sim.Files.Capabilities.{
  check_each, check_capability, check_gnmi_model, check_gnmi, check_profile,
  load_capability_profile, gnmi_object, version_of, encoding_list, model_list, check_texts,
  bad_encodings, profile_of, model_version, capability_list, is_status, require_text, non_empty,
  non_empty_list,
}
use reconfig_net_sim.Files.Unique.{name_at, HasUnique, check_each-AreFresh}

text_or-plain : (e : Raised) (v : Value) → Ensures (λ s. plain_text v ≡ some s) (text_or e v)
text_or-plain e (Value.text s) = elim (Bool-cases (str_eq s "")) [
  | inl empty ↦ rw empty tt
  | inr full ↦ rw full refl
]
text_or-plain e v = tt

abbrev Named : String → List String → Value → String → Type 0
Named key names v name = (name_at key v ≡ some name) × (is_in names name ≡ false)

check_capability-Named :
    (names : List String) (v : Value) → Ensures (Named "id" names v) (check_capability names v)
unfolding check_capability
check_capability-Named names (Value.dict f) =
    let P = Named "id" names (Value.dict f) in
    Ensures-bind P (λ s. plain_text (get f "id") ≡ some s) (text_or _ (get f "id")) _
      (text_or-plain _ (get f "id"))
      (λ id there. Ensures-guard P (is_in names id) _ _ (λ new.
        Ensures-skip P (is_status (get f "status")) _
          (λ known. Ensures-guard P (not known) _ (ok id) (λ _. (there, new)))))
check_capability-Named names v = tt

check_gnmi_model-Named :
    (names : List String) (v : Value) → Ensures (Named "name" names v) (check_gnmi_model names v)
unfolding check_gnmi_model
check_gnmi_model-Named names (Value.dict f) =
    let P = Named "name" names (Value.dict f) in
    Ensures-bind P (λ s. plain_text (get f "name") ≡ some s) (require_text f "name") _
      (text_or-plain _ (get f "name"))
      (λ name there. Ensures-skip P (require_text f "organization") _ (λ _.
        Ensures-skip P (require_text f "version") _
          (λ _. Ensures-guard P (is_in names name) _ (ok name) (λ new. (there, new)))))
check_gnmi_model-Named names v = tt

-- The list that a value is, and the object.
abbrev pub elements : Value → List Value
elements (Value.list items) = items_of items
elements v = []

abbrev pub object : Value → Fields
object (Value.dict f) = f
object v = end

list_or-elements : (e : Raised) (v : Value) → Ensures (λ vs. elements v ≡ vs) (list_or e v)
list_or-elements e (Value.list items) = refl
list_or-elements e v = tt

non_empty_list-elements :
    (e : Raised) (v : Value) → Ensures (λ vs. elements v ≡ vs) (non_empty_list e v)
non_empty_list-elements e v =
    Ensures-bind (λ vs. elements v ≡ vs) (λ vs. elements v ≡ vs) (list_or e v) _
      (list_or-elements e v) (λ vs same. filled vs same)
  where
    filled : (vs : List Value) → elements v ≡ vs → Ensures (λ vs. elements v ≡ vs) (non_empty e vs)
    filled [] same = tt
    filled (w ∷ ws) same = same

object_or-object : (e : Raised) (v : Value) → Ensures (λ f. object v ≡ f) (object_or e v)
object_or-object e (Value.dict f) = refl
object_or-object e v = tt

check_gnmi-HasUnique :
    (v : Value)
    → Ensures (λ _. HasUnique "name" (elements (get (object v) "models"))) (check_gnmi v)
unfolding check_gnmi
check_gnmi-HasUnique v =
    let P = λ (_ : Unit {0}). HasUnique "name" (elements (get (object v) "models")) in
    Ensures-bind P (λ f. object v ≡ f) (gnmi_object v) _ (object_or-object _ v)
      (λ f same. Ensures-skip P (version_of f) _ (λ _.
        Ensures-skip P (encoding_list f) _ (λ encodings.
          Ensures-skip P (check_texts bad_encodings encodings) _ (λ _.
            Ensures-bind P (λ vs. elements (get f "models") ≡ vs) (model_list f) _
              (non_empty_list-elements _ (get f "models"))
              (λ models listed.
                rw (same, listed)
                  (Ensures-weaken (check_each check_gnmi_model [] models) (λ _ h. h.1)
                    (check_each-AreFresh "name" check_gnmi_model check_gnmi_model-Named []
                      models)))))))

-- What a capability profile that loads promises to whoever looks a name up in it.
abbrev pub IsIndexed : Fields → Type 0
IsIndexed file =
    HasUnique "id" (elements (get file "capabilities"))
    × HasUnique "name" (elements (get (object (get file "gnmi")) "models"))

check_profile-IsIndexed : (file : Fields) → Ensures IsIndexed (check_profile file)
unfolding check_profile
check_profile-IsIndexed file = Ensures-skip IsIndexed (profile_of file) _ (λ _.
    Ensures-skip IsIndexed (model_version file) _ (λ _.
      Ensures-bind IsIndexed (λ vs. elements (get file "capabilities") ≡ vs) (capability_list file)
        _ (list_or-elements _ (get file "capabilities"))
        (λ capabilities listed.
          Ensures-bind IsIndexed (λ _. HasUnique "id" capabilities)
            (check_each check_capability [] capabilities) _
            (Ensures-weaken (check_each check_capability [] capabilities) (λ _ h. h.1)
              (check_each-AreFresh "id" check_capability check_capability-Named [] capabilities))
            (λ _ ids.
              Ensures-bind IsIndexed
                (λ _. HasUnique "name" (elements (get (object (get file "gnmi")) "models")))
                (check_gnmi (get file "gnmi")) _ (check_gnmi-HasUnique (get file "gnmi"))
                (λ _ models. (rw listed ids, models))))))

-- In a capability profile that loads, no two capabilities have one id, and no two gNMI models one name.
pub load_capability_profile-IsIndexed :
    (process : Process) (path : String) (file : Fields)
    → load_capability_profile process path ≡ ok file
    → IsIndexed file
unfolding load_capability_profile
load_capability_profile-IsIndexed process path file =
    Ensures-elim IsIndexed (load_capability_profile process path) file
      (Ensures-skip IsIndexed (load_yaml process path) check_profile check_profile-IsIndexed)
