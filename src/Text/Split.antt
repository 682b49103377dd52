-- ===== src/Text/Split.antt =====
-- `strings.Split` and `strings.Fields`.
use dqlited.Base.{ℕ, ◌≡◌, ◌≢◌, refl, true, false, List, [], ◌∷◌, ◌++◌, Bytes, arith, All}
use dqlited.Text.{has_prefix, contains, onto_head, split, join, is_space, fields}

split-ne-nil : (s : Bytes) (sep : ℕ) → split s sep ≢ []
unfolding split
split-ne-nil [] sep = ground arith
split-ne-nil (c ∷ s) sep = ground arith

join-onto_head :
    (c : ℕ) (ps : List Bytes) (sep : Bytes) → ps ≢ [] → join (onto_head c ps) sep ≡ c ∷ join ps sep
unfolding join
join-onto_head c [] sep h = absurd (h refl)
join-onto_head c (p ∷ []) sep h = refl
join-onto_head c (p ∷ q ∷ ps) sep h = refl

join-cons : (ps : List Bytes) (sep : Bytes) → ps ≢ [] → join ([] ∷ ps) sep ≡ sep ++ join ps sep
unfolding join
join-cons [] sep h = absurd (h refl)
join-cons (p ∷ ps) sep h = refl

-- Joining the parts of a split gives the text back.
pub join-split : (s : Bytes) (sep : ℕ) → join (split s sep) (sep ∷ []) ≡ s
unfolding split join
join-split [] sep = refl
join-split (c ∷ s) sep = ground (
  arith,
  join-split s sep,
  split-ne-nil s sep,
  join-onto_head c (split s sep) (sep ∷ []),
  join-cons (split s sep) (sep ∷ []),
)

-- No part of a split holds the separator.
All-onto_head :
    {P : Bytes → Type 0} (c : ℕ) (ps : List Bytes)
    → P (c ∷ [])
    → ((p : Bytes) → P p → P (c ∷ p))
    → All P ps
    → All P (onto_head c ps)
All-onto_head c [] one more h = (one, tt)
All-onto_head c (p ∷ ps) one more h = (more p h.0, h.1)

-- A text of white space has no field.
pub fields_blank : (s : Bytes) → All (λ c. is_space c ≡ true) s → fields s ≡ []
unfolding fields
fields_blank [] h = refl
fields_blank (c ∷ s) h = ground (arith, fields_blank s h.1)

-- A text up to the separator is the first part.
pub split-append :
    (p s : Bytes) (sep : ℕ)
    → contains p (sep ∷ []) ≡ false
    → split (p ++ sep ∷ s) sep ≡ p ∷ split s sep
unfolding split contains has_prefix
split-append [] s sep h = ground arith
split-append (c ∷ p) s sep h = ground (arith, split-append p s sep)
