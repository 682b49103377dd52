-- ===== src/Text.antt =====
-- The functions of Go's `strings` package that the program calls, on texts of ASCII bytes: the
-- multi-byte white space and case mappings of Unicode are outside the model. What they satisfy
-- stands in the children.
pub mod Prefix
pub mod Contains
pub mod Split
use dqlited.Base.{
  ℕ, zero, suc, ◌-◌, ◌+◌, Bool, true, false, ◌&&◌, ◌||◌, List, [], ◌∷◌, ◌++◌, map, Bytes, Option,
  none, some, ltb, leb, ◌==◌, if◌then◌else◌,
}

-- `==` on strings
abbrev is_empty : Bytes → Bool
is_empty [] = true
is_empty (c ∷ s) = false

unfoldable pub equal : Bytes → Bytes → Bool
equal [] s = is_empty s
equal (c ∷ r) [] = false
equal (c ∷ r) (d ∷ s) = if c == d then equal r s else false

-- `unicode.IsSpace` on ASCII: tab, newline, vertical tab, form feed, return and blank.
unfoldable pub is_space : ℕ → Bool
is_space c = c == 32 || leb 9 c && leb c 13

-- `\s` of a regular expression, which does not hold the vertical tab.
unfoldable pub is_regexp_space : ℕ → Bool
is_regexp_space c = c == 32 || c == 9 || c == 10 || c == 12 || c == 13

-- `strings.TrimLeft` with a set of one byte.
unfoldable pub trim_left : ℕ → Bytes → Bytes
trim_left b [] = []
trim_left b (c ∷ s) = if c == b then trim_left b s else c ∷ s

unfoldable pub trim_left_space : Bytes → Bytes
trim_left_space [] = []
trim_left_space (c ∷ s) = if is_space c then trim_left_space s else c ∷ s

abbrev add_front : ℕ → Bytes → Bytes
add_front c [] = if is_space c then [] else c ∷ []
add_front c (d ∷ r) = c ∷ d ∷ r

unfoldable pub trim_right_space : Bytes → Bytes
trim_right_space [] = []
trim_right_space (c ∷ s) = add_front c (trim_right_space s)

-- `strings.TrimSpace`
unfoldable pub trim_space : Bytes → Bytes
trim_space s = trim_right_space (trim_left_space s)

unfoldable pub upper : ℕ → ℕ
upper c = if leb b'a' c && leb c b'z' then c - 32 else c

unfoldable pub lower : ℕ → ℕ
lower c = if leb b'A' c && leb c b'Z' then c + 32 else c

-- `strings.ToUpper`, `strings.ToLower`
unfoldable pub to_upper : Bytes → Bytes
unfolding upper
to_upper = map upper

unfoldable pub to_lower : Bytes → Bytes
unfolding lower
to_lower = map lower

-- `strings.HasPrefix`
unfoldable pub has_prefix : Bytes → Bytes → Bool
has_prefix s [] = true
has_prefix [] (p ∷ ps) = false
has_prefix (c ∷ s) (p ∷ ps) = c == p && has_prefix s ps

-- `strings.Contains`
unfoldable pub contains : Bytes → Bytes → Bool
unfolding has_prefix
contains [] sub = has_prefix [] sub
contains (c ∷ s) sub = has_prefix (c ∷ s) sub || contains s sub

-- The first part of a split grows by a byte.
abbrev pub onto_head : ℕ → List Bytes → List Bytes
onto_head c [] = (c ∷ []) ∷ []
onto_head c (p ∷ ps) = (c ∷ p) ∷ ps

-- `strings.Split` with a separator of one byte.
unfoldable pub split : Bytes → ℕ → List Bytes
split [] sep = [] ∷ []
split (c ∷ s) sep = let rest = split s sep in if c == sep then [] ∷ rest else onto_head c rest

-- `strings.Join`
unfoldable pub join : List Bytes → Bytes → Bytes
join [] sep = []
join (p ∷ []) sep = p
join (p ∷ q ∷ ps) sep = p ++ (sep ++ join (q ∷ ps) sep)

abbrev flush : Bytes → List Bytes → List Bytes
flush [] rest = rest
flush (c ∷ word) rest = (c ∷ word) ∷ rest

-- `strings.Fields`, behind the part of a field that was read already.
unfoldable pub fields_onto : Bytes → Bytes → List Bytes
fields_onto word [] = flush word []
fields_onto word (c ∷ s) =
    let next = flush word (fields_onto [] s) in
    let more = fields_onto (word ++ c ∷ []) s in if is_space c then next else more

unfoldable pub fields : Bytes → List Bytes
unfolding fields_onto is_space
fields s = fields_onto [] s

-- `strings.LastIndex` of one byte; `none` is -1.
unfoldable pub last_index : Bytes → ℕ → Option ℕ
last_index [] b = none
last_index (c ∷ s) b = elim (last_index s b) [
  | some i ↦ some (suc i)
  | none ↦ if c == b then some 0 else none
]

-- `s[n:]`
abbrev pub drop : ℕ → Bytes → Bytes
drop zero s = s
drop (suc n) [] = []
drop (suc n) (c ∷ s) = drop n s

-- `strings.HasPrefix(strings.ToUpper(strings.TrimSpace(data)), strings.ToUpper(sub))`, which db.go
-- calls `startsWith`.
unfoldable pub starts_with : Bytes → Bytes → Bool
unfolding has_prefix to_upper trim_space trim_left_space trim_right_space is_space
starts_with text sub = has_prefix (to_upper (trim_space text)) (to_upper sub)
