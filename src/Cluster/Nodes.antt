-- ===== src/Cluster/Nodes.antt =====
-- What `show`, `nodeAdd`, `exists` and `nodeRole` of cluster.go do with the nodes of a cluster.
use dqlited.Base.{
  ℕ, ◌≤◌, ◌≡◌, ◌≢◌, ◌↔◌, ◌⊎◌, refl, Bool, true, false, ◌||◌, List, [], ◌∷◌, Bytes, codes, arith,
  All, inl, inr, Bool-cases, Option, none, some, ◌==◌, ltb, if◌then◌else◌,
}
use mathlib.Core.List.{Perm}
use mathlib.Core.List.Perm
use dqlited.Text.{equal, to_lower}
use dqlited.Text.Prefix.{equal_iff}
use dqlited.Go.{Outcome, ok, fail, panic, value}
use dqlited.Client.{NodeRole, voter, standby, spare, NodeInfo, Remote}
use dqlited.Cluster.{insert, sort, exists_loop, known, node_add, node_role}

abbrev pub IsSorted : List NodeInfo → Type 0
IsSorted [] = Unit
IsSorted (n ∷ ns) = All (λ m. n.id ≤ m.id) ns × IsSorted ns

insert-perm : (n : NodeInfo) (ns : List NodeInfo) → Perm (insert n ns) (n ∷ ns)
unfolding insert
insert-perm n [] = Perm.refl (n ∷ [])
insert-perm n (m ∷ ns) = elim (Bool-cases (ltb m.id n.id)) [
  | inl lt ↦ rw lt (Perm.trans (Perm.cons m (insert-perm n ns)) (Perm.swap n m ns))
  | inr ge ↦ rw ge (Perm.refl (n ∷ m ∷ ns))
]

All-insert :
    (k : ℕ) (n : NodeInfo) (ns : List NodeInfo)
    → k ≤ n.id
    → All (λ m. k ≤ m.id) ns
    → All (λ m. k ≤ m.id) (insert n ns)
unfolding insert
All-insert k n [] h a = (h, tt)
All-insert k n (m ∷ ns) h a = ground (arith, All-insert k n ns h a.1)

All-weaken :
    (k l : ℕ) (ns : List NodeInfo) → k ≤ l → All (λ m. l ≤ m.id) ns → All (λ m. k ≤ m.id) ns
All-weaken k l [] h a = tt
All-weaken k l (n ∷ ns) h a = (omega (arith, a.0), All-weaken k l ns h a.1)

insert-IsSorted : (n : NodeInfo) (ns : List NodeInfo) → IsSorted ns → IsSorted (insert n ns)
unfolding insert
insert-IsSorted n [] s = (tt, tt)
insert-IsSorted n (m ∷ ns) s = elim (Bool-cases (ltb m.id n.id)) [
  | inl lt ↦ rw lt (All-insert m.id n ns (ground arith) s.0, insert-IsSorted n ns s.1)
  | inr ge ↦ rw ge (((ground arith), All-weaken n.id m.id ns (ground arith) s.0), s)
]

-- `sort.Slice` by ID, as `show` and `statusFunc` use it: the same nodes, in the order of their IDs.
sort_lem : (ns : List NodeInfo) → Perm (sort ns) ns × IsSorted (sort ns)
unfolding sort
sort_lem [] = (Perm.refl [], tt)
sort_lem (n ∷ ns) =
    let (same, sorted) = sort_lem ns in
    (Perm.trans (insert-perm n (sort ns)) (Perm.cons n same), insert-IsSorted n (sort ns) sorted)

-- The names of a role, in small letters.
abbrev pub Names : NodeRole → Bytes → Type 0
Names voter l = l ≡ codes "voter"
Names standby l = (l ≡ codes "standby") ⊎ (l ≡ codes "stand-by")
Names spare l = l ≡ codes "spare"

-- What `exists` makes of what the loop of `nodeAdd` finds.
abbrev pub as_exists : {E : Type 0} → Option (Outcome (Unit {0}) E) → Outcome Bool E
as_exists none = ok false
as_exists (some (ok _)) = ok true
as_exists (some (fail e)) = panic
as_exists (some panic) = panic

abbrev pub has_id : ℕ → List NodeInfo → Bool
has_id id [] = false
has_id id (node ∷ nodes) = node.id == id || has_id id nodes

module _ {W E C : Type 0} (R : Remote W E C) where
  node_role-Names : (s : Bytes) (r : NodeRole) → node_role R s ≡ ok r → Names r (to_lower s)
  unfolding node_role
  node_role-Names s voter h = ground (arith, equal_iff (to_lower s) (codes "voter"))
  node_role-Names s standby h =
      ground
        (arith, equal_iff (to_lower s) (codes "standby"), equal_iff (to_lower s) (codes "stand-by"))
  node_role-Names s spare h = ground (arith, equal_iff (to_lower s) (codes "spare"))

  Names-node_role : (s : Bytes) (r : NodeRole) → Names r (to_lower s) → node_role R s ≡ ok r
  unfolding node_role equal
  Names-node_role s voter h = rw h
  Names-node_role s standby (inl h) = rw h
  Names-node_role s standby (inr h) = rw h
  Names-node_role s spare h = rw h

  -- `nodeRole` accepts the names of the roles, in any mixture of cases, and nothing else.
  node_role_iff : (s : Bytes) (r : NodeRole) → (node_role R s ≡ ok r) ↔ Names r (to_lower s)
  node_role_iff s r = (node_role-Names s r, Names-node_role s r)

  -- The loops of `exists` and of `nodeAdd` agree: the one finds a node where the other has nothing to
  -- do, panics where the other refuses a second address, and finds none where the other goes on.
  exists-known :
      (id : ℕ) (address : Bytes) (nodes : List NodeInfo)
      → exists_loop R id address nodes ≡ as_exists (known R id address nodes)
  unfolding exists_loop known
  exists-known id address [] = refl
  exists-known id address (node ∷ nodes) = ground (
    arith,
    exists-known id address nodes,
    equal_iff address node.address,
    equal_iff node.address address,
  )

  known-has_id :
      (id : ℕ) (address : Bytes) (nodes : List NodeInfo)
      → (known R id address nodes ≡ none) ↔ (has_id id nodes ≡ false)
  unfolding known
  known-has_id id address [] = ground arith
  known-has_id id address (node ∷ nodes) = ground (arith, known-has_id id address nodes)

  -- `nodeAdd` of an ID other than 0, where the cluster can be listed, changes nothing more if a node
  -- has that ID, and else makes the one call that adds the node.
  node_add-world :
      (client : C) (id : ℕ) (role : NodeRole) (address : Bytes) (w w' : W) (nodes : List NodeInfo)
      → id ≢ 0
      → R.cluster client w ≡ (value nodes, w')
      → (node_add R client id role address w).1 ≡ (
          if has_id id nodes
          then w'
          else (R.add client (record { id = id; address = address; role = role }) w').1)
  unfolding node_add
  node_add-world client id role address w w' nodes nz x =
      ground (arith, known-has_id id address nodes)
