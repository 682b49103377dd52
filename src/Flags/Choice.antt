-- ===== src/Flags/Choice.antt =====
-- What the flags of main.go accept and print.
use dqlited.Base.{
  ℕ, suc, ◌+◌, ◌<◌, ◌≡◌, ◌≢◌, refl, sym, ap, ◌∙◌, Bool, true, false, List, [], ◌∷◌, ◌++◌,
  append_assoc, append-nil, length, length-append, Bytes, codes, arith, none, some, ◌||◌,
  if◌then◌else◌,
}
use dqlited.Text.{equal, join}
use dqlited.Text.Split.{join-split}
use dqlited.Flags.{write_choices, choice_list, FlagChoice, refusal, set_loop, set, cluster_list}

abbrev commas : List Bytes → Bytes
commas [] = []
commas (m ∷ middle) = codes ", " ++ (m ++ commas middle)

commas-join :
    (a : Bytes) (middle : List Bytes) → a ++ commas middle ≡ join (a ∷ middle) (codes ", ")
unfolding join
commas-join a [] = append-nil a
commas-join a (m ∷ middle) = rw (← commas-join m middle)

write_choices_rest :
    (n i : ℕ) (middle : List Bytes) (last : Bytes)
    → 0 < i
    → n ≡ i + suc (length middle)
    → write_choices n i (middle ++ last ∷ []) ≡ commas middle ++ (codes ", or " ++ last)
unfolding write_choices
write_choices_rest n i [] last h e = ground (arith, append-nil (codes ", or " ++ last))
write_choices_rest n i (m ∷ middle) last h e = ground (
  arith,
  write_choices_rest n (i + 1) middle last,
  append_assoc m (commas middle) (codes ", or " ++ last),
)

choice_list-write :
    (a b : Bytes) (middle : List Bytes) (last : Bytes)
    → let all = a ∷ b ∷ (middle ++ last ∷ []) in choice_list all ≡ write_choices (length all) 0 all
unfolding choice_list
choice_list-write a b [] last = refl
choice_list-write a b (m ∷ middle) last = refl

write_all :
    (a b : Bytes) (middle : List Bytes) (last : Bytes)
    → let all = a ∷ b ∷ (middle ++ last ∷ []) in
      write_choices (length all) 0 all ≡ a ++ (commas (b ∷ middle) ++ (codes ", or " ++ last))
unfolding write_choices
write_all a b middle last =
    ap (λ (t : Bytes). a ++ t)
      (unfold write_choices in
        write_choices_rest (length (a ∷ b ∷ (middle ++ last ∷ []))) 1 (b ∷ middle) last
          (omega arith) (omega (arith, length-append middle (last ∷ []))))

-- Three or more choices are printed with commas between them, and `, or ` before the last one.
choice_list_lem :
    (a b : Bytes) (middle : List Bytes) (last : Bytes)
    → choice_list (a ∷ b ∷ (middle ++ last ∷ []))
      ≡ join (a ∷ b ∷ middle) (codes ", ") ++ (codes ", or " ++ last)
choice_list_lem a b middle last =
    choice_list-write a b middle last
    ∙ write_all a b middle last
    ∙ rw (← commas-join a (b ∷ middle))
        (sym (append_assoc a (commas (b ∷ middle)) (codes ", or " ++ last)))

-- The value is one of the choices.
abbrev pub has : Bytes → List Bytes → Bool
has value [] = false
has value (choice ∷ choices) = equal choice value || has value choices

set_loop-has :
    (choices : List Bytes) (value : Bytes) (f : FlagChoice)
    → set_loop choices value f ≡ (
        if has value choices
        then (none, record f { chosen = value })
        else (some (refusal f value), f))
unfolding set_loop
set_loop-has [] value f = refl
set_loop-has (choice ∷ choices) value f = ground (arith, set_loop-has choices value f)

-- `Set` takes a value exactly if it is one of the choices; else it returns an error that names the
-- value and the choices, and the flag stays as it was.
set-has :
    (value : Bytes) (f : FlagChoice)
    → set value f ≡ (
        if has value f.choices
        then (none, record f { chosen = value })
        else (some (refusal f value), f))
unfolding set
set-has value f = set_loop-has f.choices value f

-- A flag whose value is one of its choices has such a value after any call of `Set`.
set-keeps_choice :
    (value : Bytes) (f : FlagChoice)
    → has f.chosen f.choices ≡ true
    → has (set value f).1.chosen (set value f).1.choices ≡ true
set-keeps_choice value f h = rw set-has (ground arith)

-- The nodes that `clusterList` finds in `DQLITED_CLUSTER`, where that is not empty, joined by
-- commas, are its text again.
cluster_list-join : (env : Bytes) → env ≢ [] → join (cluster_list env) (b',' ∷ []) ≡ env
unfolding cluster_list
cluster_list-join [] h = absurd (h refl)
cluster_list-join (c ∷ env) h = join-split (c ∷ env) b','
