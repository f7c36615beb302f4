-- ===== src/Middleware.antt =====
-- pkg/podres/middleware: clients of the pod resources API that change what another client answers.
pub mod Exclude
pub mod Terminal
pub mod SharedPool
pub mod Chain
use resource_topology_export.Base.{◌≡◌, Option, none, some, List, [], ◌∷◌}

-- What a call gives: a response and an error, either of which may be nil.
pub record Reply (E A : Type 0) : Type 0 where
  pub resp : A
  pub err : Option E

-- The body that the List methods share: an error passes on with its response, and a response is
-- filtered.
unfoldable pub filter_reply : {E A : Type 0} → (A → A) → Reply E A → Reply E A
filter_reply filter reply = elim reply.err [
  | some e ↦ reply
  | none ↦ record { resp = filter reply.resp; err = none }
]

-- `ys` is `xs` without exactly the elements of which P holds, in the same order.
pub data Filtered {A : Type 0} (P : A → Type 0) : List A → List A → Type 0 where
  done : Filtered P [] []
  drop : {x : A} {xs ys : List A} → P x → Filtered P xs ys → Filtered P (x ∷ xs) ys
  keep : {x : A} {xs ys : List A} → ¬ P x → Filtered P xs ys → Filtered P (x ∷ xs) (x ∷ ys)
