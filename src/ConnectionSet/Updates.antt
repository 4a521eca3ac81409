-- ===== src/ConnectionSet/Updates.antt =====
-- `replace` and `delete` on a matching.
use reconfig_net_sim.Prelude.{
  String, ◌≡◌, refl, Bool, not, Option, none, some, List, [], ◌∷◌, ◌++◌, arith, All, keep, first,
  str_eq, eq_iff, Bool-cases, inl, inr, if◌then◌else◌,
}
use reconfig_net_sim.Errors.{ok}
use reconfig_net_sim.Connection.{Connection}
use reconfig_net_sim.ConnectionSet.{
  ConnectionSet, get, or_unknown, require_connection, others, replace, delete,
}
use reconfig_net_sim.ConnectionSet.Matching.{
  IsLink, Apart, AllApart, IsMatching, make_set-IsMatching,
}
use reconfig_net_sim.ConnectionSet.Complete.{make_set-accepts}

All-keep {ℓ κ} :
    {A : Type ℓ} (P : A → Type κ) (test : A → Bool) (xs : List A) → All P xs → All P (keep test xs)
All-keep P test [] h = tt
All-keep P test (x ∷ xs) h = elim (Bool-cases (test x)) [
  | inl hit ↦ rw hit (h.0, All-keep P test xs h.1)
  | inr miss ↦ rw miss (All-keep P test xs h.1)
]

AllApart-keep :
    (test : Connection → Bool) (xs : List Connection) → AllApart xs → AllApart (keep test xs)
AllApart-keep test [] h = tt
AllApart-keep test (x ∷ xs) h = elim (Bool-cases (test x)) [
  | inl hit ↦ rw hit (All-keep (Apart x) test xs h.0, AllApart-keep test xs h.1)
  | inr miss ↦ rw miss (AllApart-keep test xs h.1)
]

find_named : String → List Connection → Option Connection
find_named name = first (λ c. str_eq c.name name)

find_named-others :
    (name other : String) (cs : List Connection)
    → find_named other (others name cs) ≡ (if str_eq name other then none else find_named other cs)
unfolding find_named
find_named-others name other [] = ground arith
find_named-others name other (c ∷ cs) = ground (
  arith,
  find_named-others name other cs,
  eq_iff c.name name,
  eq_iff c.name other,
  eq_iff name other,
)

find_named-snoc :
    (name : String) (cs : List Connection) (c : Connection)
    → find_named name (cs ++ c ∷ []) ≡ (elim (find_named name cs) [
      | none ↦ if str_eq c.name name then some c else none
      | some d ↦ some d
    ])
unfolding find_named
find_named-snoc name [] c = refl
find_named-snoc name (d ∷ cs) c = ground (arith, find_named-snoc name cs c)

-- Every replacement that is accepted gives a matching, in which the name has the new connection and
-- every other name has the connection that it had.
pub get-replace :
    (s t : ConnectionSet) (c : Connection) (name : String)
    → replace s c ≡ ok t
    → IsMatching t × (get t name ≡ (if str_eq c.name name then some c else get s name))
unfolding replace get find_named
get-replace s t c name h =
    let (valid, _, listed) =
      make_set-IsMatching s.inventory (others c.name s.connections ++ c ∷ []) t h in
    (
      valid,
      rw listed (
          ground (
            arith,
            find_named-snoc name (others c.name s.connections) c,
            find_named-others c.name name s.connections,
          )),
    )

-- From a matching, the deletion of a name that is there succeeds. It gives a matching that lacks the
-- name and in which every other name has the connection that it had.
pub get-delete :
    (s : ConnectionSet) (name : String) (c : Connection)
    → IsMatching s
    → get s name ≡ some c
    → (t : ConnectionSet) × (delete s name ≡ ok t)
      × IsMatching t
      × ((other : String) → get t other ≡ (if str_eq name other then none else get s other))
unfolding delete require_connection or_unknown get find_named
get-delete s name c m h =
    let kept = others name s.connections in
    let (t, made) =
      make_set-accepts s.inventory kept
        (All-keep (IsLink s.inventory) (λ d. not (str_eq d.name name)) s.connections m.links)
        (AllApart-keep (λ d. not (str_eq d.name name)) s.connections m.apart) in
    let (valid, _, listed) = make_set-IsMatching s.inventory kept t made in
    (t, rw h made, valid, λ other. rw listed (find_named-others name other s.connections))
