-- ===== src/Flags.antt =====
-- The flags of main.go: a choice among names, and the default list of nodes.
pub mod Choice
use dqlited.Base.{
  ℕ, suc, ◌+◌, ◌-◌, Bool, true, false, not, List, [], ◌∷◌, ◌++◌, length, map, Bytes, codes, Option,
  none, some, ◌==◌, if◌then◌else◌,
}
use dqlited.Text.{equal, split}
use dqlited.Client.{default_cluster}

-- The loop of `choiceList`, from index `i`, for a list of length `n`.
unfoldable pub write_choices : ℕ → ℕ → List Bytes → Bytes
write_choices n i [] = []
write_choices n i (choice ∷ choices) =
    (if i == 0
      then choice
      else if i == n - 1
      then codes ", or " ++ choice
      else codes ", " ++ choice)
    ++ write_choices n (i + 1) choices

-- `choiceList`
unfoldable pub choice_list : List Bytes → Bytes
choice_list [] = codes "you have no choice"
choice_list (a ∷ []) = a
choice_list (a ∷ b ∷ []) = a ++ (codes " or " ++ b)
choice_list (a ∷ b ∷ c ∷ choices) =
    write_choices (length (a ∷ b ∷ c ∷ choices)) 0 (a ∷ b ∷ c ∷ choices)

-- `mapKeys`, of a map as a list of its entries in the order in which Go ranges over them.
unfoldable pub map_keys : List (Bytes × ℕ) → List Bytes
map_keys = map (λ entry. entry.0)

-- `FlagChoice`
pub record FlagChoice : Type 0 where
  pub choices : List Bytes
  pub chosen : Bytes

-- `NewFlagChoice`
unfoldable pub new_flag_choice : List Bytes → Bytes → FlagChoice
new_flag_choice choices chosen = record { choices = choices; chosen = chosen }

-- `String`, and `Type`, which has the same body.
unfoldable pub to_string : FlagChoice → Bytes
to_string f = choice_list f.choices

-- An error names the refused value and the choices.
abbrev pub refusal : FlagChoice → Bytes → Bytes
refusal f value =
    codes "\"" ++ (value ++ (codes "\" is not a valid choice, must be: " ++ to_string f))

-- The loop of `Set`.
unfoldable pub set_loop : List Bytes → Bytes → FlagChoice → Option Bytes × FlagChoice
set_loop [] value f = (some (refusal f value), f)
set_loop (choice ∷ choices) value f =
    if equal choice value then (none, record f { chosen = value }) else set_loop choices value f

-- `Set`: the error, if any, and the flag.
unfoldable pub set : Bytes → FlagChoice → Option Bytes × FlagChoice
set value f = set_loop f.choices value f

-- `clusterList`, for the value of `DQLITED_CLUSTER`, which is empty where it is not set.
unfoldable pub cluster_list : Bytes → List Bytes
cluster_list [] = default_cluster
cluster_list (c ∷ env) = split (c ∷ env) b','
