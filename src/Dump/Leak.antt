-- ===== src/Dump/Leak.antt =====
-- What a dump leaves behind.
use dqlited.Base.{ℕ, ◌+◌, ◌≡◌, ap, List, [], ◌∷◌, Bytes, Option}
use dqlited.Go.{ok, map_fail, msg}
use dqlited.Client.{KeyPair, File, Remote, get_leader}
use dqlited.Cluster.Pool.{
  Quiet, IsMeter, Found-wrap, get_leader-Found, leaving_open, remote-Quiet, wrapping-Quiet,
  pure-Quiet, bind-Quiet,
}
use dqlited.Dump.{file_writer, db_dumper, db_dump, old_db_dump}

module _ {W E C : Type 0} (R : Remote W E C) (opened closed : W → ℕ)
    (m : IsMeter R opened closed) where
  file_writer-Quiet : (files : List File) → Quiet R opened closed (file_writer R files)
  unfolding file_writer
  file_writer-Quiet [] = pure-Quiet R opened closed tt
  file_writer-Quiet (file ∷ files) =
      bind-Quiet R opened closed _ _
        (bind-Quiet R opened closed _ _
          (wrapping-Quiet R opened closed _
            (remote-Quiet R opened closed (m.create-Quiet file.name)))
          (λ _.
            wrapping-Quiet R opened closed _
              (remote-Quiet R opened closed (m.write-Quiet file.name file.contents))))
        (λ _. file_writer-Quiet files)

  -- By counters that follow the connections, a dump that finds a leader, whatever comes of it,
  -- leaves the connection open: it opens one and closes none.
  db_dump_leaks :
      (pair : Option KeyPair) (dbname : Bytes) (cluster : List Bytes) (w : W) (c : C)
      → (get_leader R pair cluster w).0 ≡ ok c
      → ((opened (db_dump R pair dbname cluster w).1 ≡ opened w + 1)
          × (closed (db_dump R pair dbname cluster w).1 ≡ closed w))
        × ((opened (old_db_dump R pair dbname cluster w).1 ≡ opened w + 1)
            × (closed (old_db_dump R pair dbname cluster w).1 ≡ closed w))
  unfolding db_dump db_dumper old_db_dump
  db_dump_leaks pair dbname cluster w c e =
      let found = get_leader-Found R opened closed m pair cluster w in
      let wrapped = Found-wrap R opened closed (R.wrap (msg "can't get leader" [])) _ w _ found in
      let e' = ap (map_fail (R.wrap (msg "can't get leader" []))) e in
      (
        leaving_open R opened closed _ _ w _ c wrapped e' (λ c.
            bind-Quiet R opened closed _ _
              (wrapping-Quiet R opened closed _
                (remote-Quiet R opened closed (m.dump-Quiet c dbname)))
              (λ files. wrapping-Quiet R opened closed _ (file_writer-Quiet files))),
        leaving_open R opened closed _ _ w _ c wrapped e' (λ c.
            bind-Quiet R opened closed _ _
              (wrapping-Quiet R opened closed _
                (remote-Quiet R opened closed (m.dump-Quiet c dbname)))
              (λ files. file_writer-Quiet files)),
      )
