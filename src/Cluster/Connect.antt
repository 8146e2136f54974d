-- ===== src/Cluster/Connect.antt =====
-- Connections to the nodes: `__connect_cluster` to `__global_disconnect` and `flushDb` of
-- server/redis/connect.c, `disconnectDatabase` of server/redis/redis.c.
pub mod Laws
pub mod Close
use da_bao.Base.{ℕ, List, [], ◌∷◌, length, Option, some, none, if◌then◌else◌}
use da_bao.Base.Int.{ℤ, pos, negsuc}
use da_bao.Cluster.{
  ParseArgv, Context, ClusterInfo, ReplyType, RedisReply, RedisCommand, cluster_nodes, flushdb,
  Hiredis,
}
use da_bao.Base.Options.{◌>>=◌}
use da_bao.Cluster.Nodes.{from_str_to_cluster, process_cluter_info}
use da_bao.Cluster.Slots.{assign_slot}

module _ {W C : Type 0} (hiredis : Hiredis W C) where
  -- `redisCommand` and a look at its reply: `none` is a context that was freed, or a reply that is
  -- NULL, which is read at once.
  unfoldable pub command : C → RedisCommand → W → Option (RedisReply × W)
  command c text w =
      if hiredis.alive w c
      then (let answer = hiredis.redis_command c text w in
          elim (answer.0) [ none ↦ none | some reply ↦ some (reply, answer.1) ])
      else none

  -- `__add_context_to_cluster`: the first node that refuses ends the loop.
  unfoldable pub add_context_to_cluster : List (ParseArgv C) → W → List (ParseArgv C) × W
  add_context_to_cluster [] w = ([], w)
  add_context_to_cluster (node ∷ parse) w =
      let connected = hiredis.redis_connect node.ip node.port w in
      let rest = add_context_to_cluster parse connected.1 in
      if hiredis.err connected.0
      then (node ∷ parse, hiredis.redis_free connected.0 connected.1)
      else (record node { link = Context.context connected.0 } ∷ rest.0, rest.1)

  -- `__clusterInfo`
  unfoldable pub cluster_info : (ℕ → List ℕ) → C → W → Option (ClusterInfo C × W)
  unfolding command from_str_to_cluster process_cluter_info assign_slot add_context_to_cluster
  cluster_info heap local_context w = do
    answered ← command local_context cluster_nodes w
    argv ← from_str_to_cluster heap answered.0.str
    parse ← process_cluter_info argv
    mycluster ← assign_slot record {
      len = length argv;
      argv = argv;
      parse = parse;
      slot_to_host = λ _. none;
      global_context = local_context;
    }
    let added = add_context_to_cluster mycluster.parse answered.1
    some (record mycluster { parse = added.0 }, added.1)

  -- `__connect_cluster`. When the connection is refused it returns no value, and what its caller
  -- then reads is undefined: `none`.
  unfoldable pub connect_cluster : (ℕ → List ℕ) → List ℕ → ℤ → W → Option (ClusterInfo C × W)
  unfolding cluster_info
  connect_cluster heap ip port w =
      let connected = hiredis.redis_connect ip port w in
      if hiredis.err connected.0 then none else cluster_info heap connected.0 connected.1

  -- `redisFree` of a context, which must not have been freed.
  unfoldable pub free : C → W → Option W
  free c w = if hiredis.alive w c then some (hiredis.redis_free c w) else none

  -- One round of `__remove_context_from_cluster`. A pointer that was never stored is used: `none`.
  unfoldable pub remove_context : Context C → W → Option W
  unfolding free
  remove_context Context.uninitialised w = none
  remove_context Context.null w = some w
  remove_context (Context.context c) w = free c w

  unfoldable pub remove_context_from_cluster : List (ParseArgv C) → W → Option W
  unfolding remove_context
  remove_context_from_cluster [] w = some w
  remove_context_from_cluster (node ∷ parse) w = do
    removed ← remove_context node.link w
    remove_context_from_cluster parse removed

  unfoldable pub global_disconnect : ClusterInfo C → W → Option W
  unfolding free
  global_disconnect cluster w = free cluster.global_context w

  -- `redisCommand` on the context of a node.
  unfoldable pub flush_context : Context C → W → Option (RedisReply × W)
  unfolding command
  flush_context Context.uninitialised w = none
  flush_context Context.null w = none
  flush_context (Context.context c) w = command c flushdb w

  -- The loop of `flushDb`: 0 if every node answers with a status or a text, -1 otherwise.
  unfoldable pub flush_nodes : List (ParseArgv C) → W → Option (ℤ × W)
  unfolding flush_context
  flush_nodes [] w = some (pos 0, w)
  flush_nodes (node ∷ parse) w = do
    answered ← flush_context node.link w
    elim (answered.0.type) [
      | ReplyType.reply_status ↦ flush_nodes parse answered.1
      | ReplyType.reply_string ↦ flush_nodes parse answered.1
      | ReplyType.reply_nil ↦ some (negsuc 0, answered.1)
      | ReplyType.reply_error ↦ some (negsuc 0, answered.1)
      | ReplyType.reply_other ↦ some (negsuc 0, answered.1)
    ]

  -- A null pointer is reported, and used all the same.
  unfoldable pub flush_db : Option (ClusterInfo C) → W → Option (ℤ × W)
  unfolding flush_nodes
  flush_db none w = none
  flush_db (some cluster) w = flush_nodes cluster.parse w

  -- `disconnectDatabase`
  unfoldable pub disconnect_database : ClusterInfo C → W → Option W
  unfolding global_disconnect remove_context_from_cluster flush_db
  disconnect_database cluster w = do
    closed ← global_disconnect cluster w
    removed ← remove_context_from_cluster cluster.parse closed
    flushed ← flush_db (some cluster) removed
    some (flushed.1)
