-- ===== src/Registry/Laws.antt =====
-- What configs/responder/registry.py lets through.
use mathlib.Core.Path.{subst}
use thearchivist.Prelude.{
  ◌≡◌, ◌↔◌, refl, inl, inr, String, true, false, Option, none, some, List, [], ◌∷◌, arith, str_eq,
  str_eq-eq, eq-str_eq, Bool-cases, Option-cases, ok,
}
use thearchivist.Json.{Json, text, object, Fields, get_field}
use thearchivist.Registry.{
  HostConfig, Registry, Action, elem_option, lookup, equals_option, first_named, by_checkmk_name,
  host, is_write, is_protected, truthy_host, marked, validate_names, validate_proposal,
}

-- The conditions under which an approval of a host may be remembered.
pub record MayLearn (reg : Registry) (key : String) : Type 0 where
  pub entry : HostConfig
  pub listed : lookup key reg.hosts ≡ some entry
  pub not_empty : truthy_host entry ≡ true
  pub not_marked : marked entry ≡ false
  pub name_free : elem_option entry.checkmk_name reg.protected_names ≡ false
  pub unit_free : elem_option entry.unit reg.protected_units ≡ false

-- A host is unprotected exactly if it has an entry, with some key in it, that is not marked as
-- protected and whose Checkmk name and unit are on neither list of protected ones. In particular a
-- host that the registry does not know is protected.
pub is_protected_iff :
    (reg : Registry) (key : String) → (is_protected reg key ≡ false) ↔ MayLearn reg key
unfolding is_protected
is_protected_iff reg key = (forth (lookup key reg.hosts) refl, back)
  where
    forth :
        (o : Option HostConfig)
        → lookup key reg.hosts ≡ o
        → is_protected reg key ≡ false
        → MayLearn reg key
    forth none e h = absurd (ground (arith, e, h))
    forth (some x) e h = record {
      entry = x;
      listed = e;
      not_empty = ground (arith, e, h);
      not_marked = ground (arith, e, h);
      name_free = ground (arith, e, h);
      unit_free = ground (arith, e, h);
    }

    back : MayLearn reg key → is_protected reg key ≡ false
    back m = ground (arith, m.listed, m.not_empty, m.not_marked, m.name_free, m.unit_free)

-- What an accepted proposal is.
pub record Validated (reg : Registry) (p : Json) (a : Action) : Type 0 where
  pub fields : Fields
  pub is_object : p ≡ object fields
  pub host_named : get_field "host" fields ≡ some (text a.host)
  pub verb_named : get_field "verb" fields ≡ some (text a.verb)
  pub writable : is_write reg a.host a.verb ≡ true
  pub entry : HostConfig
  pub listed : lookup a.host reg.hosts ≡ some entry
  pub unit_listed : entry.unit ≡ some a.unit

module _ (reg : Registry) (fs : Fields) (a : Action) where
  validate_names-Validated :
      (h v : Option Json)
      → get_field "host" fs ≡ h
      → get_field "verb" fs ≡ v
      → validate_names reg h v ≡ ok (some a)
      → Validated reg (object fs) a
  unfolding validate_names
  validate_names-Validated (some (text key)) (some (text verb)) eh ev e =
      elim (Option-cases (lookup key reg.hosts)) [
        | inl missing ↦ absurd (ground (arith, missing, e))
        | inr (x, listed) ↦ elim (Option-cases x.unit) [
          | inl no_unit ↦ absurd (ground (arith, listed, no_unit, e))
          | inr (u, has_unit) ↦
              let writable : is_write reg key verb ≡ true = ground (arith, listed, has_unit, e) in
              let same : record { host = key; verb = verb; unit = u } ≡ a =
                ground (arith, listed, has_unit, e) in
              subst (Validated reg (object fs)) same (record {
                fields = fs;
                is_object = refl;
                host_named = eh;
                verb_named = ev;
                writable = writable;
                entry = x;
                listed = listed;
                unit_listed = has_unit;
              })
        ]
      ]
  validate_names-Validated _ _ eh ev e = cc

-- validate_proposal() accepts a value only if it is an object that names, by strings, a host of the
-- registry and one of its write verbs; the action is then that host, that verb and the unit of the
-- registry, which the proposal cannot choose.
pub validate_proposal-Validated :
    (reg : Registry) (p : Json) (a : Action)
    → validate_proposal reg p ≡ ok (some a)
    → Validated reg p a
unfolding validate_proposal
validate_proposal-Validated reg (object fs) a e = validate_names-Validated reg fs a _ _ refl refl e
validate_proposal-Validated reg _ a e = cc

-- The keys of the hosts differ, as those of a TOML table.
abbrev pub AbsentKey : String → List (String × HostConfig) → Type 0
AbsentKey k [] = Unit
AbsentKey k ((j, h) ∷ rest) = (str_eq j k ≡ false) × AbsentKey k rest

abbrev pub DistinctKeys : List (String × HostConfig) → Type 0
DistinctKeys [] = Unit
DistinctKeys ((j, h) ∷ rest) = AbsentKey j rest × DistinctKeys rest

lookup-AbsentKey :
    (k : String) (hosts : List (String × HostConfig)) → AbsentKey k hosts → lookup k hosts ≡ none
unfolding lookup
lookup-AbsentKey k [] h = refl
lookup-AbsentKey k ((j, x) ∷ rest) h = ground (arith, h.0, lookup-AbsentKey k rest h.1)

equals_option-eq : (o : Option String) (s : String) → equals_option o s ≡ true → o ≡ some s
equals_option-eq none s h = cc
equals_option-eq (some x) s h = ground (arith, str_eq-eq x s h)

first_named-lookup :
    (name key : String) (hosts : List (String × HostConfig))
    → DistinctKeys hosts
    → first_named name hosts ≡ some key
    → (h : HostConfig) × (lookup key hosts ≡ some h) × (h.checkmk_name ≡ some name)
unfolding first_named lookup
first_named-lookup name key [] d e = cc
first_named-lookup name key ((j, x) ∷ rest) d e =
    elim (Bool-cases (equals_option x.checkmk_name name)) [
      | inl named ↦
          let same : j ≡ key = ground (arith, rw named at e) in
          (x, rw (eq-str_eq j key same), equals_option-eq x.checkmk_name name named)
      | inr other ↦
          let (h, found, e') = first_named-lookup name key rest d.1 (rw other at e) in
          (h, ground (arith, found, str_eq-eq j key, lookup-AbsentKey j rest d.0), e')
    ]

-- by_checkmk_name() returns a key whose entry has the name.
pub by_checkmk_name-lookup :
    (reg : Registry) (name key : String)
    → DistinctKeys reg.hosts
    → by_checkmk_name reg name ≡ some key
    → (h : HostConfig) × (host reg key ≡ some h) × (h.checkmk_name ≡ some name)
unfolding by_checkmk_name host
by_checkmk_name-lookup reg name key d e = first_named-lookup name key reg.hosts d e
