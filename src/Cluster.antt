-- ===== src/Cluster.antt =====
-- server/redis/connect.h: the nodes of a Redis cluster, and hiredis, which is a parameter.
pub mod Text
pub mod Nodes
pub mod Slots
pub mod Connect
pub mod Command
use da_bao.Base.{ℕ, Bool, List, Option}
use da_bao.Base.Int.{ℤ}

-- A pointer to a `redisContext`: what `malloc` left there, a null pointer, or a context.
pub data Context (C : Type 0) : Type 0 where
  uninitialised : Context C
  null : Context C
  context : C → Context C

-- A node. An entry of `slots` that was not written is `none`.
pub record ParseArgv (C : Type 0) : Type 0 where
  pub ip : List ℕ
  pub link : Context C
  pub port : ℤ
  pub start_slot : ℤ
  pub end_slot : ℤ
  pub slots : ℕ → Option ℕ

-- The first `len` entries of `argv` and of `parse`. A pointer of `slot_to_host` is the index of a
-- node, or `none` where the array was not written.
pub record ClusterInfo (C : Type 0) : Type 0 where
  pub len : ℕ
  pub argv : List (List ℕ)
  pub parse : List (ParseArgv C)
  pub slot_to_host : ℕ → Option ℕ
  pub global_context : C

-- The length of `slot_to_host` and of `slots`, and that of `argv` and `parse`.
abbrev pub slots_num : ℕ
slots_num = 16384

abbrev pub nodes_max : ℕ
nodes_max = 50

pub data ReplyType : Type 0 where
  reply_string reply_nil reply_status reply_error reply_other : ReplyType

pub record RedisReply : Type 0 where
  pub type : ReplyType
  pub str : List ℕ

-- The texts that the files send with `redisCommand`.
pub data RedisCommand : Type 0 where
  cluster_nodes : RedisCommand
  set_command : List ℕ → List ℕ → RedisCommand
  get_command : List ℕ → RedisCommand
  flushdb : RedisCommand

-- hiredis, and `crc16`. `W` is what lies behind the contexts; `none` is a reply that is NULL; `alive`
-- is a context that was connected and not freed, and only such a context may be used.
pub record Hiredis (W C : Type 0) : Type 0 where
  pub redis_connect : List ℕ → ℤ → W → C × W
  pub err : C → Bool
  pub alive : W → C → Bool
  pub redis_free : C → W → W
  pub redis_command : C → RedisCommand → W → Option RedisReply × W
  pub crc16 : List ℕ → ℕ
