-- ===== src/Hammer/Inserts.antt =====
-- What the text of `hammerInserts` is as SQL.
use dqlited.Base.{
  ℕ, zero, suc, ◌+◌, ◌≡◌, refl, ap, [], ◌∷◌, ◌++◌, Bytes, codes, arith, ◌==◌, if◌then◌else◌,
}
use dqlited.Go.{Host}
use dqlited.Hammer.{Tools, insert_lines, hammer_inserts}

-- How often a byte stands in a text.
abbrev pub occurrences : ℕ → Bytes → ℕ
occurrences b [] = 0
occurrences b (c ∷ s) = if c == b then suc (occurrences b s) else occurrences b s

occurrences-append :
    (b : ℕ) (s t : Bytes) → occurrences b (s ++ t) ≡ occurrences b s + occurrences b t
occurrences-append b [] t = omega arith
occurrences-append b (c ∷ s) t = ground (arith, occurrences-append b s t)

module _ {W E : Type 0} (H : Host W E) (T : Tools W E) where
  -- A decimal number holds no semicolon.
  abbrev pub IsPlain : Type 0
  IsPlain = (i : ℕ) → occurrences b';' (T.print_int i) ≡ 0

  insert_lines-semicolons : IsPlain → (n i : ℕ) → occurrences b';' (insert_lines H T n i) ≡ 0
  unfolding insert_lines
  insert_lines-semicolons p zero i = refl
  insert_lines-semicolons p (suc n) i =
      rw
        (
          occurrences-append b';'
              (codes "insert into simple (other) values(" ++ (T.print_int i ++ codes ")"))
              (insert_lines H T n (i + 1)),
          occurrences-append b';' (T.print_int i) (codes ")"),
          p i,
          insert_lines-semicolons p n (i + 1),
        )
        refl

  -- However many inserts are asked for, the text of `hammerInserts` holds one semicolon: the statement
  -- that makes the table and all inserts stand behind it with nothing between them.
  hammer_inserts-semicolons :
      IsPlain → (count : ℕ) → occurrences b';' (hammer_inserts H T count) ≡ 1
  unfolding hammer_inserts
  hammer_inserts-semicolons p count = ap suc (insert_lines-semicolons p count 1)
