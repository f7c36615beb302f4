-- ===== src/Config/Dispatch/Laws.antt =====
-- What dispatchConfObj of pkg/config/cfgdispatch.go writes, when it succeeds.
use resource_topology_export.Base.{
  ◌≡◌, refl, sym, ap, ◌∙◌, Bool, true, false, Option, none, some, List, [], ◌∷◌, Text, text_eq,
  arith,
}
use resource_topology_export.Base.Int.{Int64}
use resource_topology_export.Base.Dict.{get}
use resource_topology_export.Config.{ProgArgs}
use resource_topology_export.Config.Dispatch.{
  text, number, boolean, ConfigMap, Target, text_var, int_var, bool_var, duration_var, Binding,
  string_at, int_at, bool_at, duration_at, value_at, apply_bindings,
}

-- A variable that was written holds the new value.
written :
    {A B : Type 0} (o : Option A) (write : A → B) {v : A} {b : B}
    → ((a : A) → o ≡ some a → a ≡ v)
    → ◌≡◌ {A = Option B} (elim o [ none ↦ none | some a ↦ some (write a) ]) (some b)
    → b ≡ write v
written none write g h = absurd (cc h)
written (some a) write {v} {b} g h = let q : write a ≡ b = cc h in sym q ∙ ap write (g a refl)

module _ {F : Type 0} (to_int : F → Int64) (obj : ConfigMap F) where
  -- The value under a key, or else the old one.
  abbrev pub given_text : Text → Text → Text
  given_text key old = elim (get obj key) [ none ↦ old | some v ↦ elim v [ text s ↦ s | _ ↦ old ] ]

  abbrev pub given_int : Text → Int64 → Int64
  given_int key old = elim (get obj key) [
    | none ↦ old
    | some v ↦ elim v [ number j ↦ to_int j | _ ↦ old ]
  ]

  abbrev pub given_bool : Text → Bool → Bool
  given_bool key old = elim (get obj key) [
    | none ↦ old
    | some v ↦ elim v [ boolean b ↦ b | _ ↦ old ]
  ]

  abbrev assign : Binding → ProgArgs → ProgArgs
  assign cb args = elim cb.out [
    | text_var read write ↦ write (given_text cb.key (read args)) args
    | int_var read write ↦ write (given_int cb.key (read args)) args
    | bool_var read write ↦ write (given_bool cb.key (read args)) args
    | duration_var read write ↦ write (given_int cb.key (read args)) args
  ]

  abbrev pub assign_all : List Binding → ProgArgs → ProgArgs
  assign_all [] args = args
  assign_all (cb ∷ cbs) args = assign_all cbs (assign cb args)

  pub string_at-given :
      (key old s : Text) → string_at to_int obj key old ≡ some s → s ≡ given_text key old
  unfolding string_at
  string_at-given key old s h = ground arith

  pub int_at-given :
      (key : Text) (old j : Int64) → int_at to_int obj key old ≡ some j → j ≡ given_int key old
  unfolding int_at
  int_at-given key old j h = ground arith

  bool_at-given :
      (key : Text) (old b : Bool) → bool_at to_int obj key old ≡ some b → b ≡ given_bool key old
  unfolding bool_at
  bool_at-given key old b h = ground arith

  duration_at-given :
      (key : Text) (old j : Int64) → duration_at to_int obj key old ≡ some j → j ≡ given_int key old
  unfolding duration_at
  duration_at-given key old j h = ground arith

  value_at-assign :
      (key : Text) (out : Target) (args : ProgArgs) {args' : ProgArgs}
      → value_at to_int obj key out args ≡ some args'
      → args' ≡ assign (record { key = key; out = out }) args
  unfolding value_at
  value_at-assign key (text_var read write) args h =
      written _ (λ v. write v args) (string_at-given key (read args)) h
  value_at-assign key (int_var read write) args h =
      written _ (λ v. write v args) (int_at-given key (read args)) h
  value_at-assign key (bool_var read write) args h =
      written _ (λ v. write v args) (bool_at-given key (read args)) h
  value_at-assign key (duration_var read write) args h =
      written _ (λ v. write v args) (duration_at-given key (read args)) h

  abbrev step_of : List Binding → ProgArgs → Option ProgArgs → Bool × ProgArgs
  step_of cbs args none = (false, args)
  step_of cbs args (some args') = apply_bindings to_int obj cbs args'

  step_of-assign :
      (cb : Binding) (cbs : List Binding) (args : ProgArgs) (o : Option ProgArgs)
      → value_at to_int obj cb.key cb.out args ≡ o
      → ((a : ProgArgs)
          → (apply_bindings to_int obj cbs a).0 ≡ true
          → (apply_bindings to_int obj cbs a).1 ≡ assign_all cbs a)
      → (step_of cbs args o).0 ≡ true
      → (step_of cbs args o).1 ≡ assign_all cbs (assign cb args)
  step_of-assign cb cbs args none e rest h = absurd (cc h)
  step_of-assign cb cbs args (some args') e rest h =
      rest args' h ∙ ap (assign_all cbs) (value_at-assign cb.key cb.out args e)

  pub apply_bindings-assign :
      (cbs : List Binding) (args : ProgArgs)
      → (apply_bindings to_int obj cbs args).0 ≡ true
      → (apply_bindings to_int obj cbs args).1 ≡ assign_all cbs args
  unfolding apply_bindings
  apply_bindings-assign [] args h = refl
  apply_bindings-assign (cb ∷ cbs) args h =
      step_of-assign cb cbs args (value_at to_int obj cb.key cb.out args) refl
        (apply_bindings-assign cbs) h
