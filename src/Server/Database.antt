-- ===== src/Server/Database.antt =====
-- `queryDatabase` and `processDatabase` of server/server.c. Redis, behind server/redis/redis.h, is a
-- parameter: what a `get` and a `set` do to its state.
pub mod Laws
use da_bao.Base.{
  ℕ, Bool, true, false, ◌&&◌, zero, suc, ◌+◌, ◌-◌, ◌/◌, ◌%◌, ◌^◌, ◌==◌, ltb, List, [], ◌∷◌, ◌++◌,
  get_or, if◌then◌else◌, Option, some, none,
}
use da_bao.Base.Decimal.{digits}
use da_bao.Payload.{PacketFormat}

-- `get` gives `none` for an error, and the text "nil" for a key that is not there.
pub record Redis (R : Type 0) : Type 0 where
  pub get : R → List ℕ → ℕ → Option (List ℕ)
  pub set : R → List ℕ → List ℕ → ℕ → R

-- `USER_DEVICE_DB`, `DEVICE_STATE_DB` and `USER_KEY_DB`
abbrev pub user_device_db : ℕ
user_device_db = 1

abbrev pub device_state_db : ℕ
device_state_db = 3

abbrev pub user_key_db : ℕ
user_key_db = 2

abbrev pub nil : List ℕ
nil = b'n' ∷ b'i' ∷ b'l' ∷ []

-- Whether two strings are equal, as `strcmp` finds them.
unfoldable pub same_text : List ℕ → List ℕ → Bool
same_text [] [] = true
same_text [] (y ∷ ys) = false
same_text (x ∷ xs) [] = false
same_text (x ∷ xs) (y ∷ ys) = (x == y) && same_text xs ys

-- `sprintf (…, "%d", x)` of an `unsigned int`, which is read as an `int`.
abbrev pub text_of : ℕ → List ℕ
text_of x = if ltb x (2 ^ 31) then digits 10 x else b'-' ∷ digits 10 (2 ^ 32 - x)

module _ {R : Type 0} (redis : Redis R) where
  -- `queryDatabase` with `GET` and with `SET`; an error of `get` leaves the database alone.
  unfoldable pub query_get : List ℕ → List ℕ → ℕ → R → R
  unfolding same_text
  query_get key cmp_value database r = elim (redis.get r key database) [
    | none ↦ r
    | some value ↦ if same_text value nil then redis.set r key cmp_value database else r
  ]

  unfoldable pub query_set : List ℕ → List ℕ → ℕ → R → R
  query_set key cmp_value database r = redis.set r key cmp_value database

  unfoldable pub process_database : PacketFormat → R → R
  unfolding query_get query_set
  process_database payload r =
      let user_id = text_of (get_or payload.user_id 0 0) in
      let device_id = text_of (get_or payload.dst_device_id 0 0) in
      let state = text_of (get_or payload.state 0 0) in
      let sid = text_of (get_or payload.user_id 1 0) in
      query_get sid device_id user_key_db
        (query_set user_id state device_state_db (query_get user_id device_id user_device_db r))
