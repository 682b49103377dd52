-- ===== src/Dump.antt =====
-- The dump of a database to files, of db.go: `FileWriter`, `dbDumper`, `dbDump` and `_dbDump`.
pub mod Files
pub mod Leak
use dqlited.Base.{List, [], ◌∷◌, Bytes, Option}
use dqlited.Go.{
  Act, Outcome, ok, fail, panic, pure, wrapping, ◌>>=◌, ◌>>◌, Reply, from_reply, msg, text,
}
use dqlited.Client.{KeyPair, File, Remote, get_leader}
use dqlited.Cluster.{remote}

module _ {W E C : Type 0} (R : Remote W E C) where
  open R use {wrap}

  -- `FileWriter`; that a file is closed is left out.
  unfoldable pub file_writer : List File → Act W E (Unit {0})
  file_writer [] = pure tt
  file_writer (file ∷ files) =
      wrapping (wrap (msg "create failed for file: %s" (text file.name ∷ [])))
        (remote (R.create file.name))
      >> wrapping (wrap (msg "write failed" [])) (remote (R.write file.name file.contents))
      >> file_writer files

  -- `dbDumper`, which does not close its client
  unfoldable pub db_dumper :
      Option KeyPair → (List File → Act W E (Unit {0})) → Bytes → List Bytes → Act W E (Unit {0})
  db_dumper pair fs dbname cluster = do
    client ← wrapping (wrap (msg "can't get leader" [])) (get_leader R pair cluster)
    files ← wrapping (wrap (msg "client dump failed" [])) (remote (R.dump client dbname))
    wrapping (wrap (msg "database dump failed" [])) (fs files)

  -- `dbDump`
  unfoldable pub db_dump : Option KeyPair → Bytes → List Bytes → Act W E (Unit {0})
  db_dump pair dbname cluster = db_dumper pair file_writer dbname cluster

  -- `_dbDump`, whose loop is that of `FileWriter`
  unfoldable pub old_db_dump : Option KeyPair → Bytes → List Bytes → Act W E (Unit {0})
  old_db_dump pair dbname cluster = do
    client ← wrapping (wrap (msg "can't get leader" [])) (get_leader R pair cluster)
    files ← wrapping (wrap (msg "dump failed" [])) (remote (R.dump client dbname))
    file_writer files
