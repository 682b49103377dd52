-- ===== src/Cluster/Omit.antt =====
-- `omit` of cluster.go.
use dqlited.Base.{
  ℕ, ◌≡◌, ◌≢◌, refl, ap, ◌∙◌, Bool, true, false, List, [], ◌∷◌, ◌++◌, length, length-append, map,
  ◌≤◌, Bytes, arith, All, inl, inr, Bool-cases,
}
use dqlited.Text.{equal, trim_left}
use dqlited.Text.Prefix.{equal_iff}
use dqlited.Cluster.{shift, omit}

-- Two addresses are taken for the same if they agree behind their leading colons.
abbrev pub same : Bytes → Bytes → Bool
same s item = equal (trim_left b':' s) (trim_left b':' item)

-- The last of an item and those behind it.
abbrev pub last_of : Bytes → List Bytes → Bytes
last_of item [] = item
last_of item (x ∷ after) = last_of x after

-- What remains when the first item that is taken for `s`, if there is one, is left out, and what the
-- array of the list holds then.
pub data Omitted (s : Bytes) (list out array : List Bytes) : Type 0 where
  absent :
      All (λ item. same s item ≡ false) list → out ≡ list → array ≡ list → Omitted s list out array
  found :
      (before after : List Bytes) (item : Bytes)
      → list ≡ before ++ item ∷ after
      → All (λ x. same s x ≡ false) before
      → same s item ≡ true
      → out ≡ before ++ after
      → array ≡ before ++ (after ++ last_of item after ∷ [])
      → Omitted s list out array

shift_lem :
    (item : Bytes) (after : List Bytes) → shift (item ∷ after) ≡ after ++ last_of item after ∷ []
shift_lem item [] = refl
shift_lem item (x ∷ after) = ap (◌∷◌ x) (shift_lem x after)

Omitted-cons :
    {s : Bytes} {list out array : List Bytes} (item : Bytes)
    → same s item ≡ false
    → Omitted s list out array
    → Omitted s (item ∷ list) (item ∷ out) (item ∷ array)
Omitted-cons item other (absent a e e') = absent (other, a) (ap (◌∷◌ item) e) (ap (◌∷◌ item) e')
Omitted-cons item other (found before after x l b m e e') =
    found (item ∷ before) after x (ap (◌∷◌ item) l) (other, b) m (ap (◌∷◌ item) e)
      (ap (◌∷◌ item) e')

omit_here :
    (s item : Bytes) (list : List Bytes)
    → same s item ≡ true
    → omit s (item ∷ list) ≡ (list, shift (item ∷ list))
unfolding omit
omit_here s item list h = rw h

omit_later :
    (s item : Bytes) (list : List Bytes)
    → same s item ≡ false
    → omit s (item ∷ list) ≡ (item ∷ (omit s list).0, item ∷ (omit s list).1)
unfolding omit
omit_later s item list h = rw h

-- `omit` leaves out the first item that is taken for `s`, and that one only. The array of the list
-- that it was given is overwritten then: the later items move down, and the last one stays too.
pub omit-Omitted : (s : Bytes) (list : List Bytes) → Omitted s list (omit s list).0 (omit s list).1
omit-Omitted s [] = unfold omit in absent tt refl refl
omit-Omitted s (item ∷ list) = elim (Bool-cases (same s item)) [
  | inl here ↦
      rw (omit_here s item list here) (found [] list item refl tt here refl (shift_lem item list))
  | inr other ↦ rw (omit_later s item list other) (Omitted-cons item other (omit-Omitted s list))
]

length-trim_left : (b : ℕ) (s : Bytes) → length (trim_left b s) ≤ length s
unfolding trim_left
length-trim_left b [] = omega arith
length-trim_left b (c ∷ s) = ground (arith, length-trim_left b s)

trim_left_id : (c : ℕ) (s : Bytes) → c ≢ b':' → trim_left b':' (c ∷ s) ≡ c ∷ s
unfolding trim_left
trim_left_id c s h = ground arith

-- A host, which does not begin with a colon.
abbrev pub IsHost : Bytes → Type 0
IsHost [] = ⊥
IsHost (c ∷ host) = c ≢ b':'

abbrev pub with_port : Bytes → Bytes → Bytes
with_port port host = host ++ b':' ∷ port

same-with_port :
    (port host : Bytes) → IsHost host → same (b':' ∷ port) (with_port port host) ≡ false
same-with_port port [] h = absurd h
same-with_port port (c ∷ host) h =
    elim (Bool-cases (same (b':' ∷ port) (with_port port (c ∷ host)))) [
      | inl agree ↦
          let e = (equal_iff _ _).0 agree in
          let e' : trim_left b':' (b':' ∷ port) ≡ c ∷ with_port port host =
            e ∙ trim_left_id c (with_port port host) h in
          absurd (
            omega (
              arith,
              ap length e',
              length-append host (b':' ∷ port),
              length-trim_left b':' (b':' ∷ port),
            ))
      | inr differ ↦ differ
    ]

-- `omit` does not match on the port, although a comment in it says so: a port with its colon in
-- front is not found in a list of addresses that all have that port, behind hosts that are not
-- empty and do not start with a colon, and the list stays as it is.
omit_port :
    (port : Bytes) (hosts : List Bytes)
    → All IsHost hosts
    → (omit (b':' ∷ port) (map (with_port port) hosts)).0 ≡ map (with_port port) hosts
omit_port port [] h = unfold omit in refl
omit_port port (host ∷ hosts) h =
    rw
      (omit_later (b':' ∷ port) (with_port port host) (map (with_port port) hosts)
        (same-with_port port host h.0))
      (ap (◌∷◌ (with_port port host)) (omit_port port hosts h.1))
