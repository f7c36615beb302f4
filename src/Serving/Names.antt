-- ===== src/Serving/Names.antt =====
-- splitNonEmptyCSV of pkg/metrics/server: names that are joined by commas are read back.
use resource_topology_export.Base.{
  ℕ, ◌≡◌, refl, ap, ◌∙◌, true, false, List, [], ◌∷◌, ◌++◌, Text, All, All-append, arith, nat_beq,
}
use resource_topology_export.Base.Strings.{is_space, split, trim}
use resource_topology_export.Base.Strings.Pieces.{
  Without, split_one, split_first, trim_mid, All-map,
}
use resource_topology_export.Serving.{join_commas, non_empty_parts, trimmed, split_non_empty_csv}

-- A name with white space around it.
pub record Padded : Type 0 where
  pub before : Text
  pub first : ℕ
  pub others : Text
  pub after : Text

abbrev pub name_of : Padded → Text
name_of p = p.first ∷ p.others

abbrev pub padded_text : Padded → Text
padded_text p = p.before ++ (name_of p ++ p.after)

-- The name has no comma and no white space; around it is white space.
abbrev pub IsPadded : Padded → Type 0
IsPadded p =
    All (λ c. is_space c ≡ true) p.before
    × All (λ c. (is_space c ≡ false) × (nat_beq c b',' ≡ false)) (name_of p)
    × All (λ c. is_space c ≡ true) p.after

spaces-Without : (s : Text) → All (λ c. is_space c ≡ true) s → Without b',' s
spaces-Without s h =
    All-map (λ c. is_space c ≡ true) (λ c. nat_beq c b',' ≡ false)
      (λ c e. unfold is_space in ground arith) s h

padded-Without : (p : Padded) → IsPadded p → Without b',' (padded_text p)
padded-Without p h = All-append _ p.before (name_of p ++ p.after) (spaces-Without p.before h.0) (
    All-append _ (name_of p) p.after (All-map _ _ (λ c e. e.1) (name_of p) h.1)
      (spaces-Without p.after h.2))

one_part :
    (p : Padded) (parts : List Text)
    → IsPadded p
    → non_empty_parts (padded_text p ∷ parts) ≡ name_of p ∷ non_empty_parts parts
unfolding non_empty_parts trimmed
one_part p parts h =
    rw
      (trim_mid is_space p.before p.after p.first p.others h.0
        (All-map _ _ (λ c e. e.0) (name_of p) h.1) h.2)
      refl

abbrev pub texts_of : (Padded → Text) → List Padded → List Text
texts_of f [] = []
texts_of f (p ∷ ps) = f p ∷ texts_of f ps

from_first :
    (p : Padded) (ps : List Padded)
    → All IsPadded (p ∷ ps)
    → non_empty_parts (split b',' (join_commas (texts_of padded_text (p ∷ ps))))
      ≡ texts_of name_of (p ∷ ps)
unfolding join_commas
from_first p [] h =
    ap non_empty_parts (split_one b',' (padded_text p) (padded-Without p h.0))
    ∙ one_part p [] h.0
    ∙ unfold non_empty_parts in refl
from_first p (q ∷ ps) h =
    ap non_empty_parts (split_first b',' (padded_text p) _ (padded-Without p h.0))
    ∙ one_part p _ h.0
    ∙ ap (λ names. name_of p ∷ names) (from_first q ps h.1)

-- Names, each with white space around it, that are joined by commas are read back by
-- splitNonEmptyCSV, in order. A name is not empty and has no comma and no white space.
pub split_non_empty_csv-join_commas :
    (ps : List Padded)
    → All IsPadded ps
    → split_non_empty_csv (join_commas (texts_of padded_text ps)) ≡ texts_of name_of ps
unfolding split_non_empty_csv join_commas split non_empty_parts trimmed trim
split_non_empty_csv-join_commas [] h = refl
split_non_empty_csv-join_commas (p ∷ ps) h = from_first p ps h
