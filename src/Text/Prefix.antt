-- ===== src/Text/Prefix.antt =====
-- Prefixes, equality and case of texts (`startsWith` of db.go, and the package `strings`).
use dqlited.Base.{ℕ, ◌≡◌, refl, ◌↔◌, true, [], ◌∷◌, ◌++◌, Bytes, arith}
use dqlited.Text.{equal, upper, to_upper, has_prefix}

-- The test answers `true` for a text and itself.
pub equal_refl : (s : Bytes) → equal s s ≡ true
unfolding equal
equal_refl [] = refl
equal_refl (c ∷ s) = ground (arith, equal_refl s)

-- Texts that the test takes for the same are the same.
equal-true : (s t : Bytes) → equal s t ≡ true → s ≡ t
unfolding equal
equal-true [] [] h = refl
equal-true [] (d ∷ t) h = cc
equal-true (c ∷ s) [] h = cc
equal-true (c ∷ s) (d ∷ t) h = ground (arith, equal-true s t)

pub equal_iff : (s t : Bytes) → (equal s t ≡ true) ↔ (s ≡ t)
equal_iff s t = (equal-true s t, λ same. rw same (equal_refl t))

pub has_prefix-append : (p s : Bytes) → has_prefix (p ++ s) p ≡ true
unfolding has_prefix
has_prefix-append [] s = refl
has_prefix-append (c ∷ p) s = ground (arith, has_prefix-append p s)

upper_idem : (c : ℕ) → upper (upper c) ≡ upper c
unfolding upper
upper_idem c = ground arith

to_upper_idem : (s : Bytes) → to_upper (to_upper s) ≡ to_upper s
unfolding to_upper
to_upper_idem [] = refl
to_upper_idem (c ∷ s) = cc (upper_idem c, to_upper_idem s)
