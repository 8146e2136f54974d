-- ===== src/Cluster/Connect/Laws.antt =====
-- What a connection to a cluster gives, and what closing it comes to.
use da_bao.Base.{
  length-map, ℕ, zero, suc, ◌≤◌, ◌<◌, ◌≡◌, ◌≢◌, refl, ap, sym, ◌∙◌, arith, true, false, List, [],
  ◌∷◌, map, Option, some, none, All, length,
}
use da_bao.Base.Int.{ℤ}
use da_bao.Cluster.{
  ParseArgv, Context, ClusterInfo, ReplyType, RedisReply, cluster_nodes, Hiredis, slots_num,
  nodes_max,
}
use da_bao.Cluster.Nodes.Laws.{Master, IsMaster, print_master, node_of, process_cluter_info-map}
use da_bao.Cluster.Nodes.Lines.{print_lines, without_slaves, from_str_to_cluster_lem}
use da_bao.Cluster.Slots.Laws.{plain, Fits, covers, owner, owner_lem, assign_slot_lem}
use da_bao.Cluster.Connect.{command, add_context_to_cluster, cluster_info, connect_cluster}
use da_bao.Cluster.Command.{nth, host_link}
use da_bao.Cluster.Command.Laws.{IsServing}

length_same :
    {A B : Type 0} (f : A → B) (xs ys : List A) → map f xs ≡ map f ys → length xs ≡ length ys
length_same f xs ys e = sym (length-map f xs) ∙ ap length e ∙ length-map f ys

nth-some : {A : Type 0} (xs : List A) (k : ℕ) → k < length xs → (x : A) × (nth xs k ≡ some x)
nth-some [] k h = absurd (omega arith)
nth-some (x ∷ xs) zero h = (x, refl)
nth-some (x ∷ xs) (suc k) h = nth-some xs k (omega arith)

module _ {W C : Type 0} (hiredis : Hiredis W C) where
  -- Servers that accept every connection; a connection leaves the others open.
  pub record IsAccepting : Type 0 where
    pub accepts :
        (ip : List ℕ) (port : ℤ) (w : W) → hiredis.err (hiredis.redis_connect ip port w).0 ≡ false
    pub connect_alive :
        (ip : List ℕ) (port : ℤ) (w : W)
        → hiredis.alive (hiredis.redis_connect ip port w).1 (hiredis.redis_connect ip port w).0
          ≡ true
    pub connect_keeps :
        (ip : List ℕ) (port : ℤ) (w : W) (c : C)
        → hiredis.alive w c ≡ true
        → hiredis.alive (hiredis.redis_connect ip port w).1 c ≡ true

  module _ (accepting : IsAccepting) where
    add_context_keeps :
        (parse : List (ParseArgv C)) (w : W) (c : C)
        → hiredis.alive w c ≡ true
        → hiredis.alive (add_context_to_cluster hiredis parse w).1 c ≡ true
    unfolding add_context_to_cluster
    add_context_keeps [] w c h = h
    add_context_keeps (node ∷ parse) w c h = rw (accepting.accepts node.ip node.port w) (
        add_context_keeps parse (hiredis.redis_connect node.ip node.port w).1 c
          (accepting.connect_keeps node.ip node.port w c h))

    -- Every node gets a context that is open.
    add_context_to_cluster_lem :
        (parse : List (ParseArgv C)) (w : W) (k : ℕ)
        → k < length parse
        → (node : ParseArgv C) × (c : C) × (nth (add_context_to_cluster hiredis parse w).0 k
            ≡ some node)
          × (node.link ≡ Context.context c)
          × (hiredis.alive (add_context_to_cluster hiredis parse w).1 c ≡ true)
    unfolding add_context_to_cluster
    add_context_to_cluster_lem [] w k h = absurd (omega arith)
    add_context_to_cluster_lem (node ∷ parse) w zero h =
        let (c, w') = hiredis.redis_connect node.ip node.port w in
        rw (accepting.accepts node.ip node.port w) (
          record node { link = Context.context c },
          c,
          refl,
          refl,
          add_context_keeps parse w' c (accepting.connect_alive node.ip node.port w),
        )
    add_context_to_cluster_lem (node ∷ parse) w (suc k) h =
        rw (accepting.accepts node.ip node.port w) (
          add_context_to_cluster_lem parse (hiredis.redis_connect node.ip node.port w).1 k
            (omega arith))

-- A range of slots that lies in the table.
abbrev pub InTable : Master → Type 0
InTable m = (m.start ≤ m.end) × (m.end < slots_num)

-- The answer of a cluster to `cluster nodes`: a line for each master and lines of slaves, and every
-- slot is in the range of a master.
pub record Describes (C : Type 0) (lines : List (List ℕ)) (masters : List Master) : Type 0 where
  pub whole_lines : All (All (λ x. x ≢ b'\n')) lines
  pub master_lines : without_slaves lines ≡ map print_master masters
  pub few : length masters < nodes_max
  pub are_masters : All IsMaster masters
  pub in_table : All InTable masters
  pub covered : (j : ℕ) → j < slots_num → covers (map (node_of {C = C}) masters) j ≡ true

map-Fits :
    (C : Type 0) (masters : List Master)
    → All InTable masters
    → All Fits (map (node_of {C = C}) masters)
map-Fits C [] h = tt
map-Fits C (m ∷ masters) h = (
  record {
    first = m.start;
    last = m.end;
    first_lem = refl;
    last_lem = refl;
    ordered = h.0.0;
    fits = h.0.1;
  },
  map-Fits C masters h.1,
)

module _ {C : Type 0} where
  -- The context of a link that is open.
  abbrev pub context_or : C → Option (Context C) → C
  context_or c none = c
  context_or c (some Context.uninitialised) = c
  context_or c (some Context.null) = c
  context_or c (some (Context.context c')) = c'

module _ {W C : Type 0} (hiredis : Hiredis W C) where
  -- The context that a slot is routed to.
  abbrev pub route_of : ClusterInfo C → ℕ → C
  route_of cluster j = context_or cluster.global_context (host_link hiredis cluster j)

  abbrev pub described : List (List ℕ) → Option RedisReply
  described lines = some record { type = ReplyType.reply_string; str = print_lines lines }

  route_of-IsServing :
      (cluster : ClusterInfo C) (w : W)
      → ((j : ℕ)
          → j < slots_num
          → (c : C) × (host_link hiredis cluster j ≡ some (Context.context c))
            × (hiredis.alive w c ≡ true))
      → IsServing hiredis cluster (route_of cluster) w
  route_of-IsServing cluster w f = record {
    routed = λ j h.
        let (c, e, _) = f j h in
        e ∙ ap (λ l. some (Context.context (context_or cluster.global_context l))) (sym e);
    opened = λ j h. let (c, e, alive) = f j h in rw e alive;
  }

  -- A slot of a node is linked to the context that the node was given.
  linked :
      (accepting : IsAccepting hiredis) (assigned : ClusterInfo C) (nodes : List (ParseArgv C))
      (w : W) (j : ℕ)
      → map plain assigned.parse ≡ map plain nodes
      → assigned.slot_to_host j ≡ owner 0 nodes j none
      → covers nodes j ≡ true
      → let added = add_context_to_cluster hiredis assigned.parse w in
        (c : C) × (host_link hiredis (record assigned { parse = added.0 }) j
          ≡ some (Context.context c))
        × (hiredis.alive added.1 c ≡ true)
  unfolding host_link
  linked accepting assigned nodes w j same lookup covered =
      let (k, e, lt) = owner_lem 0 nodes j none covered in
      let found : owner 0 nodes j none ≡ some k = e ∙ ap some (omega arith) in
      let (node, c, e', link, alive) =
        add_context_to_cluster_lem hiredis accepting assigned.parse w k
          (omega (arith, length_same plain assigned.parse nodes same)) in
      (c, rw lookup (rw found (rw e' (ap some link))), alive)

  pub cluster_info_lem :
      (accepting : IsAccepting hiredis) (heap : ℕ → List ℕ) (c : C) (w : W) (lines : List (List ℕ))
      (masters : List Master)
      → ((i : ℕ) → heap i ≡ [])
      → Describes C lines masters
      → hiredis.alive w c ≡ true
      → (hiredis.redis_command c cluster_nodes w).0 ≡ described lines
      → (cluster : ClusterInfo C) × (w' : W) × (cluster_info hiredis heap c w ≡ some (cluster, w'))
        × IsServing hiredis cluster (route_of cluster) w'
  unfolding cluster_info command
  cluster_info_lem accepting heap c w lines masters fresh describes alive answered =
      let w1 = (hiredis.redis_command c cluster_nodes w).1 in
      let nodes : List (ParseArgv C) = map node_of masters in
      let start : ClusterInfo C = record {
        len = length (map print_master masters);
        argv = map print_master masters;
        parse = nodes;
        slot_to_host = λ _. none;
        global_context = c;
      } in
      let (assigned, e, same, lookup) =
        assign_slot_lem start (map-Fits C masters describes.in_table) in
      let added = add_context_to_cluster hiredis assigned.parse w1 in
      let cluster : ClusterInfo C = record assigned { parse = added.0 } in
      (
        cluster,
        added.1,
        rw alive (
            rw answered (
              rw
                (from_str_to_cluster_lem heap lines fresh describes.whole_lines
                  (rw describes.master_lines (rw (length-map print_master masters) describes.few)))
                (rw describes.master_lines
                  (rw (process_cluter_info-map masters describes.are_masters) (rw e refl))))),
        route_of-IsServing cluster added.1
            (λ j h. linked accepting assigned nodes w1 j same (lookup j) (describes.covered j h)),
      )

  -- If every server accepts, the answer to cluster nodes describes masters whose ranges cover all
  -- slots, among lines of slaves, and fresh memory is empty, then connecting succeeds and every
  -- slot of the cluster is routed to an open context.
  pub connect_cluster-IsServing :
      (accepting : IsAccepting hiredis) (heap : ℕ → List ℕ) (ip : List ℕ) (port : ℤ) (w : W)
      (lines : List (List ℕ)) (masters : List Master)
      → ((i : ℕ) → heap i ≡ [])
      → Describes C lines masters
      → ((c : C) (w' : W) → (hiredis.redis_command c cluster_nodes w').0 ≡ described lines)
      → (cluster : ClusterInfo C) × (w' : W) × (connect_cluster hiredis heap ip port w
          ≡ some (cluster, w'))
        × IsServing hiredis cluster (route_of cluster) w'
  unfolding connect_cluster
  connect_cluster-IsServing accepting heap ip port w lines masters fresh describes answered =
      let connected = hiredis.redis_connect ip port w in
      rw (accepting.accepts ip port w) (
        cluster_info_lem accepting heap connected.0 connected.1 lines masters fresh describes
          (accepting.connect_alive ip port w) (answered connected.0 connected.1))
