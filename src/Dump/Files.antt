-- ===== src/Dump/Files.antt =====
-- What a dump writes, against a directory of files.
use dqlited.Base.{
  ◌≡◌, refl, ap, ◌∙◌, List, [], ◌∷◌, Bytes, arith, Option, some, inl, inr, if◌then◌else◌,
}
use dqlited.Text.{equal}
use dqlited.Text.Prefix.{equal_iff}
use dqlited.Go.{Outcome, ok, fail, panic, map_fail, value, Reply-cases}
use dqlited.Client.{KeyPair, File, Remote, get_leader}
use dqlited.Dump.{file_writer, db_dumper, db_dump, old_db_dump}

-- The file that a name has behind the writing of these files, where it had `old` before: the last one of
-- that name.
abbrev pub written : List File → Bytes → Option Bytes → Option Bytes
written [] name old = old
written (file ∷ files) name old =
    written files name (if equal file.name name then some file.contents else old)

-- What holds of a file behind an action that succeeds.
abbrev pub OnSuccess : {E : Type 0} → Outcome (Unit {0}) E → Option Bytes → Option Bytes → Type 0
OnSuccess (ok u) found wanted = found ≡ wanted
OnSuccess (fail e) found wanted = Unit
OnSuccess panic found wanted = Unit

on_success :
    {E : Type 0} (o : Outcome (Unit {0}) E) (found wanted : Option Bytes)
    → (o ≡ ok tt → found ≡ wanted)
    → OnSuccess o found wanted
on_success (ok u) found wanted h = h refl
on_success (fail e) found wanted h = tt
on_success panic found wanted h = tt

module _ {W E C : Type 0} (R : Remote W E C) (stored : Bytes → W → Option Bytes) where
  -- `os.Create` that succeeds makes the file empty, and a write that succeeds to a file that is empty
  -- stores the contents; other files are left alone.
  pub record IsDirectory : Type 0 where
    pub creates :
        (name key : Bytes) (w w' : W)
        → R.create name w ≡ (value tt, w')
        → stored key w' ≡ (if equal name key then some [] else stored key w)
    pub writes :
        (name key contents : Bytes) (w w' : W)
        → R.write name contents w ≡ (value tt, w')
        → stored name w ≡ some []
        → stored key w' ≡ (if equal name key then some contents else stored key w)

  module _ (m : IsDirectory) where
    -- One file.
    both :
        (file : File) (key : Bytes) (w w₁ w₂ : W)
        → R.create file.name w ≡ (value tt, w₁)
        → R.write file.name file.contents w₁ ≡ (value tt, w₂)
        → stored key w₂ ≡ (if equal file.name key then some file.contents else stored key w)
    both file key w w₁ w₂ x y = ground (
      arith,
      m.creates file.name file.name w w₁ x,
      m.creates file.name key w w₁ x,
      m.writes file.name key file.contents w₁ w₂ y,
      equal_iff file.name file.name,
    )

    file_writer-written :
        (files : List File) (key : Bytes) (w : W)
        → (file_writer R files w).0 ≡ ok tt
        → stored key (file_writer R files w).1 ≡ written files key (stored key w)
    unfolding file_writer
    file_writer-written [] key w h = refl
    file_writer-written (file ∷ files) key w h = elim (Reply-cases (R.create file.name w)) [
      | inl (u, w₁, x) ↦ elim (Reply-cases (R.write file.name file.contents w₁)) [
        | inl (v, w₂, y) ↦
            rw (x, y)
              (file_writer-written files key w₂ (rw (x, y) at h)
                ∙ ap (written files key) (both file key w w₁ w₂ x y))
        | inr (e, w₂, y) ↦ cc (rw (x, y) at h)
      ]
      | inr (e, w₁, x) ↦ cc (rw x at h)
    ]

    wrapped-ok : (f : E → E) (o : Outcome (Unit {0}) E) → map_fail f o ≡ ok tt → o ≡ ok tt
    wrapped-ok f (ok _) h = refl
    wrapped-ok f (fail e) h = cc
    wrapped-ok f panic h = cc

    module _ (pair : Option KeyPair) (dbname : Bytes) (cluster : List Bytes) (w w₁ w₂ : W) (c : C)
        (files : List File) (found : get_leader R pair cluster w ≡ (ok c, w₁))
        (dumped : R.dump c dbname w₁ ≡ (value files, w₂)) where
      -- Into a directory that keeps the promises of `IsDirectory`, a dump that succeeds, behind a
      -- leader that is found and sends its files, has written each of these files under its name
      -- and with its contents, the last one where names are the same, and has changed no other; so
      -- has the older `_dbDump`.
      pub db_dump-written :
          (key : Bytes)
          → let r = db_dump R pair dbname cluster w in
            let old = old_db_dump R pair dbname cluster w in
            OnSuccess r.0 (stored key r.1) (written files key (stored key w₂))
            × OnSuccess old.0 (stored key old.1) (written files key (stored key w₂))
      unfolding db_dump db_dumper old_db_dump
      db_dump-written key = (
        on_success (db_dump R pair dbname cluster w).0 _ _ (λ h.
            rw (found, dumped)
              (file_writer-written files key w₂
                (wrapped-ok _ (file_writer R files w₂).0 (rw (found, dumped) at h)))),
        on_success (old_db_dump R pair dbname cluster w).0 _ _
            (λ h. rw (found, dumped) (file_writer-written files key w₂ (rw (found, dumped) at h))),
      )
