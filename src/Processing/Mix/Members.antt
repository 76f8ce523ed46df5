-- ===== src/Processing/Mix/Members.antt =====
-- The values of the members of a mix.
use mathlib.Core.Path.{ap₂}
use coolerocontrol.Base.{
  ℕ, ◌≡◌, refl, sym, ap, ◌∙◌, inl, inr, String, Bool, true, false, Option, none, some, List, [],
  ◌∷◌, arith, map, string_eq, ◌==◌, Bool-cases, All, Any, if◌then◌else◌,
}
use coolerocontrol.Base.Dict.{
  get, contains_key, insert, IsDistinct, get-insert, get_of_contains_key, contains_key-congr,
}
use coolerocontrol.Base.Outcome.{Returns, Returns-bind, Returns-unwrap}
use coolerocontrol.Processing.Graph.{OutputCache}
use coolerocontrol.Processing.Sensor.{is_some}
use coolerocontrol.Processing.Mix.{LastApplied, last_applied_from, member_value, member_values}

-- The output of a profile, if it has one, or else what was there before.
abbrev pub latest : Option (Option ℕ) → Option ℕ → Option ℕ
latest (some (some duty)) before = some duty
latest (some none) before = before
latest none before = before

absent_step :
    (uid k : String) (o : Option ℕ) (rest : OutputCache)
    → contains_key uid ((k, o) ∷ rest) ≡ false
    → (k == uid ≡ false) × (contains_key uid rest ≡ false)
unfolding contains_key
absent_step uid k o rest h = ground arith

last_applied_from-absent :
    (uid : String) (cache : OutputCache) (last : LastApplied)
    → contains_key uid cache ≡ false
    → get uid (last_applied_from cache last) ≡ get uid last
unfolding last_applied_from
last_applied_from-absent uid [] last h = refl
last_applied_from-absent uid ((k, none) ∷ rest) last h =
    last_applied_from-absent uid rest last (absent_step uid k none rest h).1
last_applied_from-absent uid ((k, some d) ∷ rest) last h =
    let (miss, absent) = absent_step uid k (some d) rest h in
    ground
      (arith, last_applied_from-absent uid rest (insert k d last) absent, get-insert k uid d last)

get_step :
    (uid k : String) (o : Option ℕ) (rest : OutputCache)
    → get uid ((k, o) ∷ rest) ≡ (if k == uid then some o else get uid rest)
unfolding get
get_step uid k o rest = refl

-- If no profile stands twice in the cache of outputs, the last applied duty of a profile after a
-- tick is its output, if it has one, and else the one before.
pub last_applied_from-latest :
    (uid : String) (cache : OutputCache) (last : LastApplied)
    → IsDistinct cache
    → get uid (last_applied_from cache last) ≡ latest (get uid cache) (get uid last)
unfolding last_applied_from get
last_applied_from-latest uid [] last d = refl
last_applied_from-latest uid ((k, none) ∷ rest) last d = elim (Bool-cases (k == uid)) [
  | inl hit ↦
      rw hit
        (last_applied_from-absent uid rest last (sym (contains_key-congr k uid rest hit) ∙ d.0))
  | inr miss ↦ rw miss (last_applied_from-latest uid rest last d.1)
]
last_applied_from-latest uid ((k, some x) ∷ rest) last d = elim (Bool-cases (k == uid)) [
  | inl hit ↦ rw hit (
      last_applied_from-absent uid rest (insert k x last)
        (sym (contains_key-congr k uid rest hit) ∙ d.0)
      ∙ ground (arith, get-insert k uid x last))
  | inr miss ↦ rw miss (
      last_applied_from-latest uid rest (insert k x last) d.1
      ∙ ap (latest (get uid rest)) (ground (arith, get-insert k uid x last)))
]

-- The value that counts for a member: its output, or the duty applied last.
abbrev pub value_of : OutputCache → LastApplied → String → Option ℕ
value_of requested last uid = latest (get uid requested) (get uid last)

-- The values are those that count, in order, and the flag says whether no member has an output.
pub record IsValues (requested : OutputCache) (last : LastApplied) (uids : List String)
    (r : List ℕ × Bool) : Type 0 where
  pub values : map some r.0 ≡ map (value_of requested last) uids
  pub silent : r.1 ≡ true → All (λ uid. get uid requested ≡ some none) uids
  pub output : r.1 ≡ false → Any (λ uid. (duty : ℕ) × (get uid requested ≡ some (some duty))) uids

member_value-of :
    (requested : OutputCache) (last : LastApplied) (uid : String) (o : Option ℕ)
    → get uid requested ≡ some o
    → contains_key uid last ≡ true
    → Returns (member_value last uid o) (λ v. some v ≡ value_of requested last uid)
unfolding member_value
member_value-of requested last uid none e k =
    let (v, found) = get_of_contains_key uid last k in rw (found, e) refl
member_value-of requested last uid (some d) e k = rw e refl

add_member :
    (requested : OutputCache) (last : LastApplied) (uid : String) (uids : List String)
    (o : Option ℕ) (v : ℕ) (rest : List ℕ × Bool)
    → get uid requested ≡ some o
    → some v ≡ value_of requested last uid
    → IsValues requested last uids rest
    → IsValues requested last (uid ∷ uids) (v ∷ rest.0, (if is_some o then false else rest.1))
add_member requested last uid uids none v rest e same i = record {
  values = ap₂ (λ x xs. x ∷ xs) same i.values;
  silent = λ h. (e, i.silent h);
  output = λ h. inr (i.output h);
}
add_member requested last uid uids (some d) v rest e same i = record {
  values = ap₂ (λ x xs. x ∷ xs) same i.values;
  silent = λ h. cc;
  output = λ _. inl (d, e);
}

-- The values of members that have been scheduled are found.
pub member_values-IsValues :
    (requested : OutputCache) (last : LastApplied) (uids : List String)
    → All (λ uid. contains_key uid requested ≡ true) uids
    → All (λ uid. contains_key uid last ≡ true) uids
    → Returns (member_values requested last uids) (IsValues requested last uids)
unfolding member_values
member_values-IsValues requested last [] r l = record {
  values = refl;
  silent = λ _. tt;
  output = λ h. cc;
}
member_values-IsValues requested last (uid ∷ uids) r l =
    let P = IsValues requested last (uid ∷ uids) in
    let (o, e) = get_of_contains_key uid requested r.0 in
    Returns-unwrap P _ _ o e (
      Returns-bind P (λ v. some v ≡ value_of requested last uid) _ _
        (member_value-of requested last uid o e l.0)
        λ v same.
          Returns-bind P (IsValues requested last uids) _ _
            (member_values-IsValues requested last uids r.1 l.1)
            λ rest i. add_member requested last uid uids o v rest e same i)
