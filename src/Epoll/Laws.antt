-- ===== src/Epoll/Laws.antt =====
-- What the operations on one connection do to the counts, and to the other connections.
use da_bao.Base.{
  ℕ, zero, suc, ◌≤◌, ◌<◌, ◌≡◌, ◌≢◌, refl, ap, ◌∙◌, arith, Bool, true, false, ◌&&◌, not,
}
use da_bao.Base.{
  List, [], ◌∷◌, length, get_or, set, ◌==◌, some, get_or-set_self, get_or-set_ne, inl, inr,
  Bool-cases,
}
use da_bao.Base.Int.{pos, ◌+ℤ◌, ◌-ℤ◌, add_left, sub_left, move_left, move_right, add-sub, sub-add}
use da_bao.Epoll.{
  PacketTime, Table, entry, with_entry, zero_packet_time, set_event_time_efd, add_epoll_event,
  delete_epoll_event, close_connection, restore_connection,
}

-- Every connection counts as active or as dead.
abbrev pub Balanced : Table → Type 0
Balanced t = t.connections ≡ t.active_connections +ℤ t.dead_connections

pub add-Balanced :
    (added : Bool) (efd fd : ℕ) (t : Table) {t' : Table}
    → Balanced t
    → add_epoll_event added efd fd t ≡ some t'
    → Balanced t'
unfolding add_epoll_event set_event_time_efd
add-Balanced true efd fd t b e = ground (arith, add_left t.active_connections t.dead_connections)
add-Balanced false efd fd t b e = cc

pub delete-Balanced : (fd : ℕ) (t : Table) → Balanced t → Balanced (delete_epoll_event fd t)
unfolding delete_epoll_event
delete-Balanced fd t b = ap (λ c. c -ℤ pos 1) b ∙ sub_left t.active_connections t.dead_connections

pub close-Balanced : (efd fd : ℕ) (t : Table) → Balanced t → Balanced (close_connection efd fd t).1
unfolding close_connection
close-Balanced efd fd t b = ground (arith, move_right t.active_connections t.dead_connections)

pub restore-Balanced :
    (no_value : Bool) (efd fd : ℕ) (t : Table)
    → Balanced t
    → Balanced (restore_connection no_value efd fd t).1
unfolding restore_connection
restore-Balanced no_value efd fd t b =
    ground (arith, move_left t.active_connections t.dead_connections)

set-set : (xs : List PacketTime) (i : ℕ) (v w : PacketTime) → set (set xs i v) i w ≡ set xs i w
set-set [] i v w = refl
set-set (x ∷ xs) zero v w = refl
set-set (x ∷ xs) (suc i) v w = ap (λ l. x ∷ l) (set-set xs i v w)

set-get : (xs : List PacketTime) (i : ℕ) (d : PacketTime) → set xs i (get_or xs i d) ≡ xs
set-get [] i d = refl
set-get (x ∷ xs) zero d = refl
set-get (x ∷ xs) (suc i) d = ap (λ l. x ∷ l) (set-get xs i d)

-- An open connection of this epoll descriptor.
abbrev pub is_open : ℕ → Table → ℕ → Bool
is_open efd t fd = ((entry t fd).efd == efd) && not (entry t fd).connection_closed

-- An open connection in the table that is closed and restored with the same epoll descriptor leaves
-- the table and all counts as before.
pub restore-close :
    (no_value : Bool) (efd fd : ℕ) (t : Table)
    → fd < length t.packets_time
    → is_open efd t fd ≡ true
    → restore_connection no_value efd fd (close_connection efd fd t).1 ≡ (true, t)
unfolding restore_connection close_connection
restore-close no_value efd fd t h o =
    grind (arith, get_or-set_self, set-set, set-get, add-sub, sub-add)

-- Closing succeeds on the open connections of this epoll descriptor, and on no others.
pub close-is_open : (efd fd : ℕ) (t : Table) → (close_connection efd fd t).0 ≡ is_open efd t fd
unfolding close_connection
close-is_open efd fd t = ground arith

get_or_past : (xs : List PacketTime) (i : ℕ) (d : PacketTime) → length xs ≤ i → get_or xs i d ≡ d
get_or_past [] i d h = refl
get_or_past (x ∷ xs) zero d h = absurd (omega arith)
get_or_past (x ∷ xs) (suc i) d h = get_or_past xs i d (omega arith)

pub open-lt :
    (efd fd : ℕ) (t : Table) → 0 < efd → is_open efd t fd ≡ true → fd < length t.packets_time
open-lt efd fd t h o = ground (arith, get_or_past t.packets_time fd zero_packet_time)

pub closed_entry :
    (efd fd : ℕ) (t : Table)
    → is_open efd t fd ≡ true
    → close_connection efd fd t ≡ (
      true,
      record (with_entry t fd (record (entry t fd) { connection_closed = true })) {
        active_connections = t.active_connections -ℤ pos 1;
        dead_connections = t.dead_connections +ℤ pos 1;
      },
    )
unfolding close_connection
closed_entry efd fd t o = ground arith

pub not_closed :
    (efd fd : ℕ) (t : Table) → is_open efd t fd ≡ false → close_connection efd fd t ≡ (false, t)
unfolding close_connection
not_closed efd fd t o = ground arith

pub close_then_closed :
    (efd fd : ℕ) (t : Table) → 0 < efd → is_open efd (close_connection efd fd t).1 fd ≡ false
close_then_closed efd fd t h = elim (Bool-cases (is_open efd t fd)) [
  | inl o ↦
      rw
        (
          closed_entry efd fd t o,
          get_or-set_self t.packets_time fd (record (entry t fd) { connection_closed = true })
              zero_packet_time (open-lt efd fd t h o),
        )
        (ground arith)
  | inr o ↦ ap (λ r. is_open efd r.1 fd) (not_closed efd fd t o) ∙ o
]

pub close_still_closed :
    (efd fd other : ℕ) (t : Table)
    → is_open efd t other ≡ false
    → is_open efd (close_connection efd fd t).1 other ≡ false
close_still_closed efd fd other t h = elim (Bool-cases (is_open efd t fd)) [
  | inl o ↦
      rw
        (
          closed_entry efd fd t o,
          get_or-set_ne t.packets_time {i = fd} {j = other}
              (record (entry t fd) { connection_closed = true }) zero_packet_time (apart o),
        )
        h
  | inr o ↦ ap (λ r. is_open efd r.1 other) (not_closed efd fd t o) ∙ h
]
  where
    apart : is_open efd t fd ≡ true → fd ≢ other
    apart o e = cc
