-- ===== src/Commands/Table/Distinct.antt =====
-- The names of the commands and of their flags. `pflag` panics on a flag with the name or the
-- shorthand of another one of its command, and `cobra` adds a flag `help` with the shorthand `h`.
use dqlited.Base.{ℕ, ◌≡◌, refl, Bool, true, not, ◌&&◌, List, [], ◌∷◌, map, Bytes, codes, All}
use dqlited.Text.{equal}
use dqlited.Client.{NodeRole}
use dqlited.Commands.Table.{
  Environment, Flag, entries, root_flags, server_entry, status_entry, leader_entry, transfer_entry,
  remove_entry, adhoc_entry, dump_entry, load_entry, report_entry, hammer_entry, add_entry,
  assign_entry,
}

-- The text is none of these.
abbrev pub is_new : Bytes → List Bytes → Bool
is_new name [] = true
is_new name (other ∷ names) = not (equal name other) && is_new name names

abbrev pub are_distinct : List Bytes → Bool
are_distinct [] = true
are_distinct (name ∷ names) = is_new name names && are_distinct names

-- No text stands twice in the list.
abbrev pub IsDistinct : List Bytes → Type 0
IsDistinct names = are_distinct names ≡ true

-- Neither a name nor a shorthand stands twice among the flags and that of help.
abbrev pub AreDistinct : List Flag → Type 0
AreDistinct flags =
    IsDistinct (codes "help" ∷ map (λ f. f.name) flags)
    × IsDistinct (codes "h" ∷ map (λ f. f.shorthand) flags)

-- Whatever the environment holds, no two commands have the same name, and no two flags of a command
-- the same name or shorthand, also not those of `help`; this holds of the flags of the root as well.
commands-AreDistinct :
    (env : Environment) (role_name : NodeRole → Bytes) (number : NodeRole → ℕ)
    (order : List NodeRole)
    → let table = entries env role_name number order in
      IsDistinct (map (λ c. c.name) table)
      × All (λ c. AreDistinct c.flags) table
      × AreDistinct root_flags
unfolding entries server_entry status_entry leader_entry transfer_entry remove_entry adhoc_entry
    dump_entry load_entry report_entry hammer_entry add_entry assign_entry equal
commands-AreDistinct env role_name number order = (refl, search, (refl, refl))
