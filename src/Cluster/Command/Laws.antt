-- ===== src/Cluster/Command/Laws.antt =====
-- `set` and `get` through a cluster are the database that the server relies on.
use da_bao.Base.{
  ℕ, ◌^◌, ◌<◌, ◌≡◌, ◌≢◌, refl, ap, sym, ◌∙◌, arith, true, List, [], ◌∷◌, ◌++◌, Option, some, none,
  length, length-append, lt→ltb,
}
use da_bao.Base.Int.{pos}
use da_bao.Base.Bits.{bit_and_low}
use da_bao.Cluster.{
  Context, ClusterInfo, ReplyType, RedisReply, get_command, set_command, Hiredis, slots_num,
}
use da_bao.Cluster.Text.{scan}
use da_bao.Cluster.Text.Laws.{scan-digits}
use da_bao.Cluster.Connect.{command}
use da_bao.Cluster.Command.{
  write, local_key, local_key_len, value_len, my_slot, host_link, set_result, set_nodb, set_withdb,
  get_nodb, get_withdb, redis_get, redis_set, redis_of, received, got_value,
}
use da_bao.Server.Database.{text_of, nil}
use da_bao.Server.Database.Laws.{IsStore, IsShort, text_of-IsShort}

-- The key that stands for a key of one database.
abbrev pub joined : ℕ → List ℕ → List ℕ
joined dbnum key = text_of dbnum ++ (8 ∷ key)

scan-text_of : (dbnum : ℕ) (rest : List ℕ) → dbnum < 2 ^ 31 → scan 0 (joined dbnum rest) ≡ dbnum
unfolding scan
scan-text_of dbnum rest h =
    rw (lt→ltb dbnum (2 ^ 31) h) (scan-digits 9 dbnum (8 ∷ rest) (omega arith))

-- Keys of different databases are different keys.
pub joined-ne :
    (d d' : ℕ) (key key' : List ℕ)
    → d < 2 ^ 31
    → d' < 2 ^ 31
    → d ≢ d'
    → joined d key ≢ joined d' key'
joined-ne d d' key key' h h' ne e =
    ne (sym (scan-text_of d key h) ∙ ap (scan 0) e ∙ scan-text_of d' key' h')

local_key_short :
    (key : List ℕ) (dbnum : ℕ) → IsShort key → local_key key dbnum ≡ some (joined dbnum key)
unfolding local_key write
local_key_short key dbnum h =
    rw
      (lt→ltb (length (joined dbnum key)) local_key_len
        (omega (arith, text_of-IsShort dbnum, length-append (text_of dbnum) (8 ∷ key))))
      refl

write_short : (value : List ℕ) → IsShort value → write value_len value ≡ some value
unfolding write
write_short value h = rw (lt→ltb (length value) value_len h) refl

-- The answer to a `get`, by what the node has.
abbrev pub answer : Option (List ℕ) → RedisReply
answer none = record { type = ReplyType.reply_nil; str = [] }
answer (some value) = record { type = ReplyType.reply_string; str = value }

module _ {W C : Type 0} (hiredis : Hiredis W C) where
  -- The state after a `set`.
  abbrev pub after_set : C → List ℕ → List ℕ → W → W
  after_set c key value w = (hiredis.redis_command c (set_command key value) w).1

  -- What Redis documents for nodes that serve the keys they are asked for: `set` answers with a
  -- status and changes one key, `get` answers with what was set, and contexts stay open.
  pub record IsKeyValue (stored : W → C → List ℕ → Option (List ℕ)) : Type 0 where
    pub set_reply :
        (w : W) (c : C) (key value : List ℕ)
        → (hiredis.redis_command c (set_command key value) w).0
          ≡ some record { type = ReplyType.reply_status; str = b'O' ∷ b'K' ∷ [] }
    pub get_reply :
        (w : W) (c : C) (key : List ℕ)
        → (hiredis.redis_command c (get_command key) w).0 ≡ some (answer (stored w c key))
    pub stored_self :
        (w : W) (c : C) (key value : List ℕ) → stored (after_set c key value w) c key ≡ some value
    pub stored_other :
        (w : W) (c c' : C) (key key' value : List ℕ)
        → key ≢ key'
        → stored (after_set c key value w) c' key' ≡ stored w c' key'
    pub set_alive :
        (w : W) (c c' : C) (key value : List ℕ)
        → hiredis.alive (after_set c key value w) c' ≡ hiredis.alive w c'

  -- A cluster in which every slot is routed to an open context.
  pub record IsServing (cluster : ClusterInfo C) (route : ℕ → C) (w : W) : Type 0 where
    pub routed :
        (j : ℕ) → j < slots_num → host_link hiredis cluster j ≡ some (Context.context (route j))
    pub opened : (j : ℕ) → j < slots_num → hiredis.alive w (route j) ≡ true

  lt-my_slot : (key : List ℕ) → my_slot hiredis key < slots_num
  unfolding my_slot
  lt-my_slot key = omega (arith, bit_and_low 14 (hiredis.crc16 key))

  module _ (stored : W → C → List ℕ → Option (List ℕ)) (key_value : IsKeyValue stored)
      (cluster : ClusterInfo C) (route : ℕ → C) where
    -- The context that serves a key of a database.
    abbrev pub server_of : List ℕ → ℕ → C
    server_of key dbnum = route (my_slot hiredis (joined dbnum key))

    set_withdb_lem :
        (w : W) (key value : List ℕ) (dbnum : ℕ)
        → IsShort key
        → IsServing cluster route w
        → set_withdb hiredis cluster key value dbnum w
          ≡ some (pos 0, after_set (server_of key dbnum) (joined dbnum key) value w)
    unfolding set_withdb set_nodb command set_result
    set_withdb_lem w key value dbnum short serving =
        let slot = my_slot hiredis (joined dbnum key) in
        rw (local_key_short key dbnum short) (
          rw (serving.routed slot (lt-my_slot (joined dbnum key))) (
            rw (serving.opened slot (lt-my_slot (joined dbnum key)))
              (rw (key_value.set_reply w (route slot) (joined dbnum key) value) refl)))

    -- What a `get` finds: the value, if the buffer holds it, or "nil".
    abbrev pub found : Option (List ℕ) → Option (List ℕ)
    found none = some nil
    found (some value) = write value_len value

    get_found :
        (w : W) (o : Option (List ℕ))
        → got_value hiredis (received hiredis value_len [] (answer o) w) ≡ found o
    unfolding received
    get_found w none = refl
    get_found w (some value) = ground arith

    get_lem :
        (w : W) (key : List ℕ) (dbnum : ℕ)
        → IsShort key
        → IsServing cluster route w
        → redis_get hiredis cluster w key dbnum
          ≡ found (stored w (server_of key dbnum) (joined dbnum key))
    unfolding redis_get get_withdb get_nodb command
    get_lem w key dbnum short serving =
        let slot = my_slot hiredis (joined dbnum key) in
        rw (local_key_short key dbnum short, redis_get)
          (rw (serving.routed slot (lt-my_slot (joined dbnum key))) (
            rw (serving.opened slot (lt-my_slot (joined dbnum key))) (
              rw (key_value.get_reply w (route slot) (joined dbnum key))
                (get_found _ (stored w (route slot) (joined dbnum key))))))

    set_lem :
        (w : W) (key value : List ℕ) (dbnum : ℕ)
        → IsShort key
        → IsServing cluster route w
        → redis_set hiredis cluster w key value dbnum
          ≡ after_set (server_of key dbnum) (joined dbnum key) value w
    unfolding redis_set
    set_lem w key value dbnum short serving =
        rw (set_withdb_lem w key value dbnum short serving, redis_set) refl

    set-IsServing :
        (w : W) (key value : List ℕ) (dbnum : ℕ)
        → IsShort key
        → IsServing cluster route w
        → IsServing cluster route (redis_set hiredis cluster w key value dbnum)
    set-IsServing w key value dbnum short serving = record {
      routed = serving.routed;
      opened = λ j h. rw (set_lem w key value dbnum short serving) (
          key_value.set_alive w (server_of key dbnum) (route j) (joined dbnum key) value
          ∙ serving.opened j h);
    }

    -- On a cluster in which every slot is routed to an open context, if the nodes keep what is set
    -- and answer a lookup with it, set and get of redis.h are the database that the server relies
    -- on: a short key has the short value that was set last, a set leaves the other databases
    -- alone, and the cluster can still be used.
    pub redis_of-IsStore : IsStore (redis_of hiredis cluster) (IsServing cluster route)
    redis_of-IsStore = record {
      set_ready = set-IsServing;
      get-set = λ w key value dbnum short short' serving.
          get_lem _ key dbnum short (set-IsServing w key value dbnum short serving)
          ∙ rw (set_lem w key value dbnum short serving) (
              rw (key_value.stored_self w (server_of key dbnum) (joined dbnum key) value)
                (write_short value short'));
      get-set_other = λ w key value dbnum key' dbnum' short short' ne fits fits' serving.
          get_lem _ key' dbnum' short' (set-IsServing w key value dbnum short serving)
          ∙ rw (set_lem w key value dbnum short serving) (
              rw
                (key_value.stored_other w (server_of key dbnum) (server_of key' dbnum')
                  (joined dbnum key) (joined dbnum' key') value
                  (joined-ne dbnum dbnum' key key' fits fits' ne))
                refl)
          ∙ sym (get_lem w key' dbnum' short' serving);
    }
