-- ===== src/Cluster/Command.antt =====
-- `get` and `set` of server/redis/redis.c, and the functions of server/redis/connect.c below them.
pub mod Laws
use da_bao.Base.{
  ℕ, zero, suc, ◌+◌, List, [], ◌∷◌, ◌++◌, length, drop, ltb, bit_and, Option, some, none,
  if◌then◌else◌,
}
use da_bao.Base.Int.{ℤ, pos, negsuc, is_zero}
use da_bao.Cluster.{
  ParseArgv, Context, ClusterInfo, ReplyType, RedisReply, get_command, set_command, Hiredis,
}
use da_bao.Cluster.Text.{codes, strchr, starts_with}
use da_bao.Base.Options.{◌>>=◌}
use da_bao.Cluster.Connect.{command}
use da_bao.Server.Database.{Redis, text_of, nil}

-- The sizes of the buffers: `localSetKey`, `KEY_LEN` and `VALUE_LEN`.
abbrev pub local_key_len : ℕ
local_key_len = 1024

abbrev pub key_len : ℕ
key_len = 80

abbrev pub value_len : ℕ
value_len = 80

-- `strcpy` and `sprintf` into a buffer of `size` bytes; `none` is a write behind it.
unfoldable pub write : ℕ → List ℕ → Option (List ℕ)
write size text = if ltb (length text) size then some text else none

-- `__set_redirect`, which reads the parts of "MOVED slot ip:port" and drops them. The port is copied
-- to `sizeof(port) + 1` bytes.
unfoldable pub set_redirect : List ℕ → Option (List ℕ)
unfolding strchr write
set_redirect str = do
  slot ← strchr str b' '
  ip ← strchr (drop 1 slot) b' '
  port ← strchr (drop 1 ip) b':'
  write 9 (drop 1 port)

-- `sprintf(…, "%d\b%s", dbnum, key)`
unfoldable pub local_key : List ℕ → ℕ → Option (List ℕ)
unfolding write
local_key key dbnum = write local_key_len (text_of dbnum ++ (8 ∷ key))

abbrev pub nth {ℓ} : {A : Type ℓ} → List A → ℕ → Option A
nth [] i = none
nth (x ∷ xs) zero = some x
nth (x ∷ xs) (suc i) = nth xs i

-- What `__set_nodb` makes of a reply.
unfoldable pub set_result : RedisReply → Option ℤ
unfolding set_redirect starts_with
set_result reply = elim reply.type [
  | ReplyType.reply_string ↦ some (pos 0)
  | ReplyType.reply_status ↦ some (pos 0)
  | ReplyType.reply_error ↦
      if starts_with reply.str (codes "MOVED")
      then (set_redirect reply.str >>= λ _. some (negsuc 0))
      else some (negsuc 0)
  | ReplyType.reply_nil ↦ some (negsuc 0)
  | ReplyType.reply_other ↦ some (negsuc 0)
]

-- What `__get_nodb` returns for a reply, and the text for `get_in_value`, if it writes one.
unfoldable pub get_result : RedisReply → ℤ × Option (List ℕ)
unfolding starts_with
get_result reply = elim reply.type [
  | ReplyType.reply_string ↦ (pos 0, some reply.str)
  | ReplyType.reply_nil ↦ (pos 0, some nil)
  | ReplyType.reply_error ↦
      if starts_with reply.str (codes "MOVED")
      then (negsuc 0, some (codes "redirection"))
      else (negsuc 0, none)
  | ReplyType.reply_status ↦ (negsuc 0, none)
  | ReplyType.reply_other ↦ (negsuc 0, none)
]

-- The buffer `get_in_value` of `size` bytes, by what it held.
unfoldable pub write_value : ℕ → Option (List ℕ) → List ℕ → Option (List ℕ)
unfolding write
write_value size none get_in_value = some get_in_value
write_value size (some text) get_in_value = write size text

module _ {W C : Type 0} (hiredis : Hiredis W C) where
  -- `myslot` of a key, and `tempArgv->context`; `none` is a pointer that was not written.
  unfoldable pub my_slot : List ℕ → ℕ
  my_slot key = bit_and (hiredis.crc16 key) 16383

  unfoldable pub host_link : ClusterInfo C → ℕ → Option (Context C)
  host_link cluster slot = do
    host ← cluster.slot_to_host slot
    node ← nth cluster.parse host
    some node.link

  unfoldable pub set_nodb : ClusterInfo C → List ℕ → List ℕ → W → Option (ℤ × W)
  unfolding my_slot host_link command set_result
  set_nodb cluster key set_in_value w = do
    link ← host_link cluster (my_slot key)
    elim link [
      | Context.uninitialised ↦ none
      | Context.null ↦ some (negsuc 0, w)
      | Context.context c ↦ do
        answered ← command hiredis c (set_command key set_in_value) w
        result ← set_result (answered.0)
        some (result, answered.1)
    ]

  unfoldable pub set_withdb : ClusterInfo C → List ℕ → List ℕ → ℕ → W → Option (ℤ × W)
  unfolding local_key set_nodb
  set_withdb cluster key set_in_value dbnum w = do
    local_set_key ← local_key key dbnum
    set_nodb cluster local_set_key set_in_value w

  -- What `__get_nodb` does with a reply.
  unfoldable pub received : ℕ → List ℕ → RedisReply → W → Option (ℤ × List ℕ × W)
  unfolding get_result write_value
  received size get_in_value reply w = do
    let result = get_result reply
    value ← write_value size (result.1) get_in_value
    some (result.0, value, w)

  -- A key that is NULL is `none`. The result, the buffer and the database.
  unfoldable pub get_nodb :
      ClusterInfo C → Option (List ℕ) → ℕ → List ℕ → W → Option (ℤ × List ℕ × W)
  unfolding my_slot host_link command received write_value
  get_nodb cluster none size get_in_value w = do
    value ← write_value size (some (codes "key is NULL")) get_in_value
    some (negsuc 0, value, w)
  get_nodb cluster (some key) size get_in_value w = do
    link ← host_link cluster (my_slot key)
    elim link [
      | Context.uninitialised ↦ none
      | Context.null ↦ do
        value ← write_value size (some (codes "conext ==NULL")) get_in_value
        some (negsuc 0, value, w)
      | Context.context c ↦ do
        answered ← command hiredis c (get_command key) w
        received size get_in_value (answered.0) (answered.1)
    ]

  unfoldable pub get_withdb : ClusterInfo C → List ℕ → ℕ → List ℕ → ℕ → W → Option (ℤ × List ℕ × W)
  unfolding local_key get_nodb
  get_withdb cluster key size get_in_value dbnum w = do
    local_get_key ← local_key key dbnum
    get_nodb cluster (some local_get_key) size get_in_value w

  abbrev pub got_value : Option (ℤ × List ℕ × W) → Option (List ℕ)
  got_value none = none
  got_value (some (error, value, w)) = if is_zero error then some value else none

  -- `get` and `set` as `queryDatabase` calls them: its buffer has `VALUE_LEN` bytes, and it ignores
  -- the result of a `set`. The interface has no state after a `get`, which leaves the values alone.
  unfoldable pub redis_get : ClusterInfo C → W → List ℕ → ℕ → Option (List ℕ)
  unfolding get_withdb
  redis_get cluster w key dbnum = got_value (get_withdb cluster key value_len [] dbnum w)

  unfoldable pub redis_set : ClusterInfo C → W → List ℕ → List ℕ → ℕ → W
  unfolding set_withdb
  redis_set cluster w key value dbnum = elim (set_withdb cluster key value dbnum w) [
    | none ↦ w
    | some result ↦ result.1
  ]

  abbrev pub redis_of : ClusterInfo C → Redis W
  redis_of cluster = record { get = redis_get cluster; set = redis_set cluster }
