-- ===== src/Server/Database/Laws.antt =====
-- What the database holds after a packet was processed.
use da_bao.Base.{
  ℕ, ◌-◌, ◌^◌, ◌<◌, ◌≡◌, ◌≢◌, refl, ap, ◌∙◌, arith, true, [], ◌∷◌, List, length, get_or, Option,
  some, none, if◌then◌else◌,
}
use da_bao.Base.Decimal.{length-digits-le}
use da_bao.Payload.{PacketFormat}
use da_bao.Server.Database.{
  Redis, same_text, nil, text_of, query_get, query_set, process_database, user_device_db,
  device_state_db, user_key_db,
}

pub same_text_refl : (s : List ℕ) → same_text s s ≡ true
unfolding same_text
same_text_refl [] = refl
same_text_refl (x ∷ s) = ground (arith, same_text_refl s)

-- The sizes of the buffers that `queryDatabase` passes hold every text of a number.
abbrev pub IsShort : List ℕ → Type 0
IsShort text = length text < 80

-- What Redis documents of a state in which it can be used: a key has the value that was set last,
-- another database is left alone, and the state can still be used.
pub record IsStore {R : Type 0} (redis : Redis R) (IsReady : R → Type 0) : Type 0 where
  pub set_ready :
      (r : R) (key value : List ℕ) (database : ℕ)
      → IsShort key
      → IsReady r
      → IsReady (redis.set r key value database)
  pub get-set :
      (r : R) (key value : List ℕ) (database : ℕ)
      → IsShort key
      → IsShort value
      → IsReady r
      → redis.get (redis.set r key value database) key database ≡ some value
  pub get-set_other :
      (r : R) (key value : List ℕ) (database : ℕ) (key' : List ℕ) (database' : ℕ)
      → IsShort key
      → IsShort key'
      → database ≢ database'
      → database < 2 ^ 31
      → database' < 2 ^ 31
      → IsReady r
      → redis.get (redis.set r key value database) key' database' ≡ redis.get r key' database'

pub text_of-IsShort : (x : ℕ) → IsShort (text_of x)
text_of-IsShort x = ground (arith, length-digits-le 10 x, length-digits-le 10 (2 ^ 32 - x))

key_not_state : user_key_db ≢ device_state_db
key_not_state = omega arith

key_not_device : user_key_db ≢ user_device_db
key_not_device = omega arith

state_not_device : device_state_db ≢ user_device_db
state_not_device = omega arith

state_not_key : device_state_db ≢ user_key_db
state_not_key = omega arith

device_not_key : user_device_db ≢ user_key_db
device_not_key = omega arith

-- The value after a `GET` query, by the value before.
abbrev pub known : List ℕ → Option (List ℕ) → Option (List ℕ)
known value none = none
known value (some old) = if same_text old nil then some value else some old

module _ {R : Type 0} (redis : Redis R) {IsReady : R → Type 0} (store : IsStore redis IsReady) where
  query_get_ready :
      (key value : List ℕ) (database : ℕ) (r : R)
      → IsShort key
      → IsReady r
      → IsReady (query_get redis key value database r)
  unfolding query_get
  query_get_ready key value database r short ready =
      ground (arith, store.set_ready r key value database short ready)

  -- A `GET` query stores its value for a key that is not there, and keeps one that is.
  query_get_value :
      (key value : List ℕ) (database : ℕ) (r : R)
      → IsShort key
      → IsShort value
      → IsReady r
      → redis.get (query_get redis key value database r) key database
        ≡ known value (redis.get r key database)
  unfolding query_get
  query_get_value key value database r short short' ready =
      ground (arith, store.get-set r key value database short short' ready)

  query_get_other :
      (key value : List ℕ) (database : ℕ) (key' : List ℕ) (database' : ℕ) (r : R)
      → IsShort key
      → IsShort key'
      → database ≢ database'
      → database < 2 ^ 31
      → database' < 2 ^ 31
      → IsReady r
      → redis.get (query_get redis key value database r) key' database' ≡ redis.get r key' database'
  unfolding query_get
  query_get_other key value database key' database' r short short' h fits fits' ready = ground (
    arith,
    store.get-set_other r key value database key' database' short short' h fits fits' ready,
  )

  -- If Redis keeps what is set and leaves other databases alone, then after a packet the user's
  -- state is that of the packet, the user's device and the device of the packet's key are those
  -- known before, or that of the packet if none was known, and an error of a lookup leaves its
  -- entry alone.
  pub process_database_lem :
      (p : PacketFormat) (r : R)
      → IsReady r
      → let r' = process_database redis p r in
        let user_id = text_of (get_or p.user_id 0 0) in
        let sid = text_of (get_or p.user_id 1 0) in
        let device_id = text_of (get_or p.dst_device_id 0 0) in
        (redis.get r' user_id device_state_db ≡ some (text_of (get_or p.state 0 0)))
        × (redis.get r' user_id user_device_db
            ≡ known device_id (redis.get r user_id user_device_db))
        × (redis.get r' sid user_key_db ≡ known device_id (redis.get r sid user_key_db))
  unfolding process_database query_set
  process_database_lem p r ready = (
    query_get_other sid device_id user_key_db user_id device_state_db r2 sid_short user_short
          key_not_state (omega arith) (omega arith) ready2
        ∙ store.get-set r1 user_id state device_state_db user_short state_short ready1,
    query_get_other sid device_id user_key_db user_id user_device_db r2 sid_short user_short
          key_not_device (omega arith) (omega arith) ready2
        ∙ store.get-set_other r1 user_id state device_state_db user_id user_device_db user_short
            user_short state_not_device (omega arith) (omega arith) ready1
        ∙ query_get_value user_id device_id user_device_db r user_short device_short ready,
    query_get_value sid device_id user_key_db r2 sid_short device_short ready2
        ∙ ap (known device_id) (
            store.get-set_other r1 user_id state device_state_db sid user_key_db user_short
              sid_short state_not_key (omega arith) (omega arith) ready1
            ∙ query_get_other user_id device_id user_device_db sid user_key_db r user_short
                sid_short device_not_key (omega arith) (omega arith) ready),
  )
    where
      user_id : List ℕ
      user_id = text_of (get_or p.user_id 0 0)

      sid : List ℕ
      sid = text_of (get_or p.user_id 1 0)

      device_id : List ℕ
      device_id = text_of (get_or p.dst_device_id 0 0)

      state : List ℕ
      state = text_of (get_or p.state 0 0)

      r1 : R
      r1 = query_get redis user_id device_id user_device_db r

      r2 : R
      r2 = redis.set r1 user_id state device_state_db

      user_short : IsShort user_id
      user_short = text_of-IsShort (get_or p.user_id 0 0)

      sid_short : IsShort sid
      sid_short = text_of-IsShort (get_or p.user_id 1 0)

      device_short : IsShort device_id
      device_short = text_of-IsShort (get_or p.dst_device_id 0 0)

      state_short : IsShort state
      state_short = text_of-IsShort (get_or p.state 0 0)

      ready1 : IsReady r1
      ready1 = query_get_ready user_id device_id user_device_db r user_short ready

      ready2 : IsReady r2
      ready2 = store.set_ready r1 user_id state device_state_db user_short ready1
