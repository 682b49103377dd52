-- ===== src/Commands/Roles.antt =====
-- The roles that the flag of `newAddnode` and `newAssign` can choose.
use dqlited.Base.{
  ℕ, ◌≡◌, sym, ap, ◌∙◌, List, [], ◌∷◌, map, Bytes, codes, arith, none, inl, inr, Bool-cases,
}
use dqlited.Text.{equal, to_lower, lower}
use dqlited.Text.Prefix.{equal_iff}
use dqlited.Go.{ok}
use dqlited.Client.{NodeRole, voter, standby, spare, Remote}
use dqlited.Cluster.{node_role}
use dqlited.Flags.{FlagChoice, map_keys, set, set_loop}
use dqlited.Commands.{role_flag}

module _ (role_name : NodeRole → Bytes) (number : NodeRole → ℕ) where
  chosen-set_loop :
      (order : List NodeRole) (value : Bytes) (f f' : FlagChoice)
      → set_loop (map_keys (map (λ r. (role_name r, number r)) order)) value f ≡ (none, f')
      → (r : NodeRole) × (f'.chosen ≡ role_name r)
  unfolding set_loop map_keys
  chosen-set_loop [] value f f' h = ground arith
  chosen-set_loop (r ∷ order) value f f' h = elim (Bool-cases (equal (role_name r) value)) [
    | inl same ↦
        let stored : record f { chosen = value } ≡ f' = ap (λ p. p.1) (rw same at h) in
        (r, sym (ap (λ g. g.chosen) stored) ∙ sym ((equal_iff (role_name r) value).0 same))
    | inr other ↦ chosen-set_loop order value f f' (rw other at h)
  ]

  module _ {W E C : Type 0} (R : Remote W E C) where
    -- The names of the roles that the dqlite client documents.
    pub record IsNaming : Type 0 where
      pub names_voter : role_name voter ≡ codes "voter"
      pub names_standby : role_name standby ≡ codes "stand-by"
      pub names_spare : role_name spare ≡ codes "spare"

    node_role-name : IsNaming → (r : NodeRole) → node_role R (role_name r) ≡ ok r
    unfolding node_role to_lower lower equal
    node_role-name n voter = rw n.names_voter
    node_role-name n standby = rw n.names_standby
    node_role-name n spare = rw n.names_spare

    -- By the names of the dqlite client, `nodeRole` accepts each value that the flag of `newAddnode` and
    -- `newAssign` accepts, and the value that it has at first, as the role of that name.
    node_role-role_flag :
        (order : List NodeRole) (value : Bytes) (f : FlagChoice)
        → IsNaming
        → set value (role_flag role_name number order) ≡ (none, f)
        → ((r : NodeRole) × (f.chosen ≡ role_name r) × (node_role R f.chosen ≡ ok r))
          × (node_role R (role_flag role_name number order).chosen ≡ ok voter)
    unfolding role_flag set
    node_role-role_flag order value f n h =
        let (r, e) = chosen-set_loop order value _ f h in
        ((r, e, ap (node_role R) e ∙ node_role-name n r), node_role-name n voter)
