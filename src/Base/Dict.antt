-- ===== src/Base/Dict.antt =====
-- Go's maps as association lists. A write to a present key keeps the entry's place; iteration is
-- over the entries.
use mathlib.Core.Path.{◌≡◌, refl, ◌∙◌}
use mathlib.Core.Bool.{true}
use mathlib.Core.Logic.{inl, inr}
use mathlib.Core.Option.{Option, none, some}
use mathlib.Core.List.{List, [], ◌∷◌}
use native.Mathlib.Omega.{arith}
use resource_topology_export.Base.Tests.{if◌then◌else◌, KeyEq, ◌==◌, Bool-cases}

abbrev pub Dict {ℓ κ} : Type ℓ → Type κ → Type (ℓ ⊔ κ)
Dict K V = List (K × V)

pub beq_refl {ℓ} : {K : Type ℓ} ⦃e : KeyEq K⦄ (k : K) → (k == k) ≡ true
beq_refl ⦃e⦄ k = (e.same_iff k k).1 refl

-- The first of the two that is there.
unfoldable pub or_else {ℓ} : {A : Type ℓ} → Option A → Option A → Option A
or_else none other = other
or_else (some v) other = some v

pub or_else-none {ℓ} : {A : Type ℓ} (o : Option A) → or_else o none ≡ o
unfolding or_else
or_else-none none = refl
or_else-none (some v) = refl

module _ {ℓ κ} {K : Type ℓ} {V : Type κ} ⦃e : KeyEq K⦄ where
  -- v, ok := d[k]
  unfoldable pub get : Dict K V → K → Option V
  get [] k = none
  get ((j, v) ∷ d) k = let rest = get d k in if j == k then some v else rest

  -- d[k] = v
  unfoldable pub put : Dict K V → K → V → Dict K V
  put [] k v = (k, v) ∷ []
  put ((j, w) ∷ d) k v = let rest = put d k v in if j == k then (k, v) ∷ d else (j, w) ∷ rest

  -- d[k], with the zero value for a missing key
  unfoldable pub get_or : Dict K V → K → V → V
  get_or d k z = elim (get d k) [ none ↦ z | some v ↦ v ]

  -- for k, v := range upd { d[k] = v }
  unfoldable pub put_all : Dict K V → Dict K V → Dict K V
  put_all d [] = d
  put_all d ((k, v) ∷ upd) = put_all (put d k v) upd

  pub get-put :
      (d : Dict K V) (k j : K) (v : V) → get (put d k v) j ≡ (if k == j then some v else get d j)
  unfolding get put
  get-put [] k j v = refl
  get-put ((i, w) ∷ d) k j v =
      ground (arith, e.same_iff i k, e.same_iff i j, e.same_iff k j, get-put d k j v)

  pub get-put_self : (d : Dict K V) (k : K) (v : V) → get (put d k v) k ≡ some v
  get-put_self d k v = ground (arith, get-put d k k v, beq_refl k)

  pub get_or-put :
      (d : Dict K V) (k j : K) (v z : V)
      → get_or (put d k v) j z ≡ (if k == j then v else get_or d j z)
  unfolding get_or
  get_or-put d k j v z = ground (arith, get-put d k j v)

  -- No key stands twice.
  abbrev pub IsUnique : Dict K V → Type κ
  IsUnique [] = Unit
  IsUnique ((k, v) ∷ d) = (get d k ≡ none) × IsUnique d

  pub put-IsUnique : (d : Dict K V) (k : K) (v : V) → IsUnique d → IsUnique (put d k v)
  unfolding put
  put-IsUnique [] k v h = (unfold get in refl, tt)
  put-IsUnique ((j, w) ∷ d) k v (fresh, h) = elim (Bool-cases (j == k)) [
    | inl same ↦ rw same (rw ((e.same_iff j k).0 same) at fresh, h)
    | inr other ↦
        let stays : get (put d k v) j ≡ none =
          ground (arith, get-put d k j v, e.same_iff j k, e.same_iff k j) in
        rw other (stays, put-IsUnique d k v h)
  ]

  pub get-put_all :
      (d upd : Dict K V) (k : K)
      → IsUnique upd
      → get (put_all d upd) k ≡ or_else (get upd k) (get d k)
  unfolding put_all or_else get
  get-put_all d [] k h = refl
  get-put_all d ((j, v) ∷ upd) k (fresh, h) =
      get-put_all (put d j v) upd k h ∙ elim (Bool-cases (j == k)) [
        | inl same ↦
            let last = rw ((e.same_iff j k).0 same) at fresh in
            rw (last, get-put d j k v, same) refl
        | inr other ↦ rw (get-put d j k v, other) refl
      ]
