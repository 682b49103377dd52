-- ===== src/Cluster/Pool.antt =====
-- Every connection that an operation of cluster.go opens is closed, on each of its branches.
use dqlited.Base.{
  ℕ, ◌+◌, ◌≡◌, refl, ◌∙◌, Bool, true, false, List, [], Bytes, arith, Option, none, some, inl, inr,
  Bool-cases, if◌then◌else◌,
}
use dqlited.Text.{equal}
use dqlited.Go.{
  Act, Outcome, ok, fail, panic, pure, throw, map_fail, wrapping, continue, Reply-cases, ◌>>=◌,
  Reply, value, error,
}
use dqlited.Client.{
  NodeRole, NodeInfo, KeyPair, Remote, Peer, get_store, load_tls, find, get_leader,
}
use dqlited.Cluster.{
  remote, closing, assign, leader_id, transfer, remove, with_client, cluster_show, show,
}

module _ {W E C : Type 0} (R : Remote W E C) (opened closed : W → ℕ) where
  -- A step that opens nothing and closes nothing.
  pub record Quiet {A : Type 0} (m : W → A × W) : Type 0 where
    pub opens : (w : W) → opened (m w).1 ≡ opened w
    pub closes : (w : W) → closed (m w).1 ≡ closed w

  -- The two counters follow the connections: only `FindLeader` opens one, where it succeeds, and only
  -- `Close` closes one.
  pub record IsMeter : Type 0 where
    pub find_value :
        (tls : Bool) (peers : List Peer) (w w' : W) (c : C)
        → R.find_leader tls peers w ≡ (value c, w')
        → (opened w' ≡ opened w + 1) × (closed w' ≡ closed w)
    pub find_error :
        (tls : Bool) (peers : List Peer) (w w' : W) (e : E)
        → R.find_leader tls peers w ≡ (error e, w')
        → (opened w' ≡ opened w) × (closed w' ≡ closed w)
    pub close_opened : (c : C) (w : W) → opened (R.close c w) ≡ opened w
    pub close_closed : (c : C) (w : W) → closed (R.close c w) ≡ closed w + 1
    pub load_key_pair-Quiet : (a b : Bytes) → Quiet (R.load_key_pair a b)
    pub read_file-Quiet : (a : Bytes) → Quiet (R.read_file a)
    pub leader-Quiet : (c : C) → Quiet (R.leader c)
    pub cluster-Quiet : (c : C) → Quiet (R.cluster c)
    pub assign-Quiet : (c : C) (id : ℕ) (r : NodeRole) → Quiet (R.assign c id r)
    pub transfer-Quiet : (c : C) (id : ℕ) → Quiet (R.transfer c id)
    pub remove-Quiet : (c : C) (id : ℕ) → Quiet (R.remove c id)
    pub add-Quiet : (c : C) (n : NodeInfo) → Quiet (R.add c n)
    pub dump-Quiet : (c : C) (n : Bytes) → Quiet (R.dump c n)
    pub create-Quiet : (n : Bytes) → Quiet (R.create n)
    pub write-Quiet : (n d : Bytes) → Quiet (R.write n d)

  -- As many connections are closed as are opened.
  abbrev pub Balanced : {A : Type 0} → Act W E A → Type 0
  Balanced m = (w : W) → opened (m w).1 + closed w ≡ opened w + closed (m w).1

  pub remote-Quiet : {A : Type 0} {f : W → Reply A E × W} → Quiet f → Quiet (remote f)
  remote-Quiet q = record { opens = q.opens; closes = q.closes }

  pub wrapping-Quiet : {A : Type 0} (f : E → E) {m : Act W E A} → Quiet m → Quiet (wrapping f m)
  wrapping-Quiet f q = record { opens = q.opens; closes = q.closes }

  pub pure-Quiet : {A : Type 0} (a : A) → Quiet {A = Outcome A E} (pure a)
  pure-Quiet a = record { opens = λ w. refl; closes = λ w. refl }

  pub throw-Quiet : {A : Type 0} (e : E) → Quiet {A = Outcome A E} (throw e)
  throw-Quiet e = record { opens = λ w. refl; closes = λ w. refl }

  pub if-Quiet :
      {A : Type 0} (b : Bool) {m n : W → A × W} → Quiet m → Quiet n → Quiet (if b then m else n)
  if-Quiet true p q = p
  if-Quiet false p q = q

  continue-Quiet :
      {A B : Type 0} (f : A → Act W E B) (o : Outcome A E)
      → ((a : A) → Quiet (f a))
      → Quiet (continue o f)
  continue-Quiet f (ok a) k = record { opens = (k a).opens; closes = (k a).closes }
  continue-Quiet f (fail e) k = record { opens = λ w. refl; closes = λ w. refl }
  continue-Quiet f panic k = record { opens = λ w. refl; closes = λ w. refl }

  pub bind-Quiet :
      {A B : Type 0} (m : Act W E A) (f : A → Act W E B)
      → Quiet m
      → ((a : A) → Quiet (f a))
      → Quiet (m >>= f)
  bind-Quiet m f q k = record {
    opens = λ w. (continue-Quiet f (m w).0 k).opens (m w).1 ∙ q.opens w;
    closes = λ w. (continue-Quiet f (m w).0 k).closes (m w).1 ∙ q.closes w;
  }

  -- A search for the leader opens a connection exactly where it returns one.
  abbrev pub Found : Outcome C E → W → W → Type 0
  Found (ok c) w w' = (opened w' ≡ opened w + 1) × (closed w' ≡ closed w)
  Found (fail e) w w' = (opened w' ≡ opened w) × (closed w' ≡ closed w)
  Found panic w w' = (opened w' ≡ opened w) × (closed w' ≡ closed w)

  pub Found-wrap :
      (f : E → E) (o : Outcome C E) (w w' : W) → Found o w w' → Found (map_fail f o) w w'
  Found-wrap f (ok c) w w' h = h
  Found-wrap f (fail e) w w' h = h
  Found-wrap f panic w w' h = h

  Found-after :
      (o : Outcome C E) (v w w' : W)
      → (opened w ≡ opened v)
      → (closed w ≡ closed v)
      → Found o w w'
      → Found o v w'
  Found-after (ok c) v w w' p q h = omega arith
  Found-after (fail e) v w w' p q h = omega arith
  Found-after panic v w w' p q h = omega arith

  closing-Balanced :
      {A : Type 0} (o : Outcome C E) (f : C → Act W E A) (w w' : W)
      → IsMeter
      → Found o w w'
      → ((c : C) → Quiet (f c))
      → opened (continue o (λ c. closing R c (f c)) w').1 + closed w
        ≡ opened w + closed (continue o (λ c. closing R c (f c)) w').1
  closing-Balanced (ok c) f w w' m h q = omega (
    arith,
    m.close_opened c (f c w').1,
    m.close_closed c (f c w').1,
    (q c).opens w',
    (q c).closes w',
  )
  closing-Balanced (fail e) f w w' m h q = omega arith
  closing-Balanced panic f w w' m h q = omega arith

  -- What is not closed stays open.
  pub leaving_open :
      {A : Type 0} (o : Outcome C E) (f : C → Act W E A) (w w' : W) (c : C)
      → Found o w w'
      → o ≡ ok c
      → ((c : C) → Quiet (f c))
      → (opened (continue o f w').1 ≡ opened w + 1) × (closed (continue o f w').1 ≡ closed w)
  leaving_open (ok c) f w w' c' h e q = omega (arith, (q c).opens w', (q c).closes w')
  leaving_open (fail x) f w w' c h e q = cc
  leaving_open panic f w w' c h e q = cc

  module _ (m : IsMeter) where
    find-Found :
        (tls : Bool) (nodes : List Bytes) (w : W)
        → Found (find R tls nodes w).0 w (find R tls nodes w).1
    find-Found tls nodes w = elim (Reply-cases (R.find_leader tls (get_store nodes) w)) [
      | inl (c, w', x) ↦ rw x (m.find_value tls (get_store nodes) w w' c x)
      | inr (e, w', x) ↦ rw x (m.find_error tls (get_store nodes) w w' e x)
    ]

    load_tls-Quiet : (pair : KeyPair) → Quiet (load_tls R pair)
    load_tls-Quiet pair =
        bind-Quiet (remote (R.load_key_pair pair.cert pair.key)) _
          (remote-Quiet (m.load_key_pair-Quiet pair.cert pair.key))
          (λ _.
            bind-Quiet (remote (R.read_file pair.cert)) _
              (remote-Quiet (m.read_file-Quiet pair.cert))
              (λ pem. if-Quiet (R.append_certs pem) (pure-Quiet tt) (throw-Quiet _)))

    find-after :
        (nodes : List Bytes) (o : Outcome (Unit {0}) E) (v w : W)
        → opened w ≡ opened v
        → closed w ≡ closed v
        → Found
            (continue o (λ _. find R true nodes) w).0
            v
            (continue o (λ _. find R true nodes) w).1
    find-after nodes (ok _) v w p q =
        Found-after (find R true nodes w).0 v w _ p q (find-Found true nodes w)
    find-after nodes (fail e) v w p q = (p, q)
    find-after nodes panic v w p q = (p, q)

    pub get_leader-Found :
        (pair : Option KeyPair) (nodes : List Bytes) (w : W)
        → Found (get_leader R pair nodes w).0 w (get_leader R pair nodes w).1
    unfolding get_leader
    get_leader-Found none nodes w = find-Found false nodes w
    get_leader-Found (some pair) nodes w = elim (Bool-cases (equal pair.cert [])) [
      | inl unnamed ↦ rw unnamed (find-Found false nodes w)
      | inr named ↦ rw named (
          find-after nodes (load_tls R pair w).0 w (load_tls R pair w).1
            ((load_tls-Quiet pair).opens w) ((load_tls-Quiet pair).closes w))
    ]

    show-Quiet : (c : C) → Quiet (show R c)
    unfolding show
    show-Quiet c =
        bind-Quiet (wrapping _ (remote (R.leader c))) _
          (wrapping-Quiet _ (remote-Quiet (m.leader-Quiet c)))
          (λ leader.
            bind-Quiet (wrapping _ (remote (R.cluster c))) _
              (wrapping-Quiet _ (remote-Quiet (m.cluster-Quiet c))) (λ nodes. pure-Quiet _))

    -- By counters that follow the connections, `Assign`, `LeaderID`, `Transfer`, `Remove` and
    -- `clusterShow` close as many connections as they open, on success and on every error.
    pub operations-Balanced :
        (pair : Option KeyPair) (id : ℕ) (role : NodeRole) (nodes : List Bytes)
        → Balanced (assign R pair id role nodes)
          × Balanced (leader_id R pair nodes)
          × Balanced (transfer R pair id nodes)
          × Balanced (remove R pair id nodes)
          × Balanced (cluster_show R pair nodes)
    unfolding assign leader_id transfer remove with_client cluster_show
    operations-Balanced pair id role nodes =
        let found = get_leader-Found pair nodes in
        let wrapped = λ (f : E → E) (w : W). Found-wrap f _ w _ (found w) in
        (
          λ w. closing-Balanced _ _ w _ m (found w) (λ c. remote-Quiet (m.assign-Quiet c id role)),
          λ w. closing-Balanced _ _ w _ m (wrapped _ w) (λ c.
              bind-Quiet _ _ (wrapping-Quiet _ (remote-Quiet (m.leader-Quiet c)))
                (λ leader. pure-Quiet leader.id)),
          λ w. closing-Balanced _ _ w _ m (found w) (λ c.
              bind-Quiet _ _ (wrapping-Quiet _ (remote-Quiet (m.leader-Quiet c)))
                (λ leader. remote-Quiet (m.transfer-Quiet c id))),
          λ w. closing-Balanced _ _ w _ m (found w) (λ c. remote-Quiet (m.remove-Quiet c id)),
          λ w. closing-Balanced _ _ w _ m (wrapped _ w) show-Quiet,
        )
