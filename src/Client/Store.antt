-- ===== src/Client/Store.antt =====
-- The nodes that `getStore` of client.go gives to its store.
use dqlited.Base.{
  ℕ, zero, suc, ◌+◌, ◌-◌, ◌%◌, ◌^◌, ◌<◌, ◌≡◌, refl, ap, List, [], ◌∷◌, map, length, Bytes, arith,
}
use dqlited.Client.{Peer, node_infos, get_store, default_cluster}

-- `n` numbers in a row.
abbrev pub count_from : ℕ → ℕ → List ℕ
count_from i zero = []
count_from i (suc n) = i ∷ count_from (suc i) n

node_infos_lem :
    (cluster : List Bytes) (i : ℕ)
    → i + length cluster < 2 ^ 64
    → (map (λ (p : Peer). p.address) (node_infos i cluster) ≡ cluster)
      × (map (λ (p : Peer). p.id) (node_infos i cluster) ≡ count_from (suc i) (length cluster))
unfolding node_infos
node_infos_lem [] i h = (refl, refl)
node_infos_lem (a ∷ cluster) i h =
    let e : (i + 1) % 2 ^ 64 ≡ suc i = omega arith in
    let e' : i + 1 ≡ suc i = omega arith in
    let (addresses, ids) = node_infos_lem cluster (suc i) (omega arith) in
    (rw e' (ap (◌∷◌ a) addresses), rw (e, e') (ap (◌∷◌ (suc i)) ids))

-- The addresses that are asked.
abbrev pub given : List Bytes → List Bytes
given [] = default_cluster
given (a ∷ cluster) = a ∷ cluster

-- The store holds the given addresses in their order, or the three default ones where none is
-- given, under the IDs 1, 2, 3 and so on, as long as these fit into 64 bits.
get_store_lem :
    (cluster : List Bytes)
    → length cluster < 2 ^ 64 - 1
    → let nodes = get_store cluster in
      let expected = given cluster in
      (map (λ (p : Peer). p.address) nodes ≡ expected)
      × (map (λ (p : Peer). p.id) nodes ≡ count_from 1 (length expected))
unfolding get_store
get_store_lem [] h = node_infos_lem default_cluster 0 (omega arith)
get_store_lem (a ∷ cluster) h = node_infos_lem (a ∷ cluster) 0 (omega arith)
