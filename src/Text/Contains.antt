-- ===== src/Text/Contains.antt =====
-- `strings.Contains` of one byte, and of concatenations.
use dqlited.Base.{ℕ, ◌≡◌, true, ◌||◌, [], ◌∷◌, ◌++◌, Bytes, arith}
use dqlited.Text.{has_prefix, contains}

contains-append :
    (a s : Bytes) (b : ℕ)
    → contains (a ++ s) (b ∷ []) ≡ (contains a (b ∷ []) || contains s (b ∷ []))
unfolding contains has_prefix
contains-append [] s b = ground arith
contains-append (c ∷ a) s b = ground (arith, contains-append a s b)

contains-append_right :
    (a s : Bytes) (b : ℕ) → contains s (b ∷ []) ≡ true → contains (a ++ s) (b ∷ []) ≡ true
contains-append_right a s b h = ground (arith, contains-append a s b)

contains-append_left :
    (a s : Bytes) (b : ℕ) → contains a (b ∷ []) ≡ true → contains (a ++ s) (b ∷ []) ≡ true
contains-append_left a s b h = ground (arith, contains-append a s b)
