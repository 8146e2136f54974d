-- ===== src/Epoll/Bulk/Restore.antt =====
-- Restoring connections that were closed, if the missing `return` is not taken for a success.
use da_bao.Base.{
  ℕ, zero, suc, ◌-◌, ◌≤◌, ◌<◌, ◌≡◌, refl, ap, ◌∙◌, arith, Bool, true, false, List, [], ◌∷◌, Option,
  some, none,
}
use mathlib.Core.Path.{subst}
use da_bao.Base.Int.{ℤ, pos, ◌+ℤ◌, ◌-ℤ◌, is_zero, sub_zero, add_zero, sub_suc, add_suc}
use da_bao.Epoll.{Timeval, Table, restore_connection}
use da_bao.Epoll.Bulk.{restore_loop, restore_connections}
use da_bao.Epoll.Times.{set_virtual_event_time, set_event_send_time, set_event_recv_time}

-- What a call to restore `n` connections did that left `left`.
pub record Restores (n : ℕ) (t : Table) (left : ℕ) (t' : Table) : Type 0 where
  pub at_most : left ≤ n
  pub active : t'.active_connections ≡ t.active_connections +ℤ pos (n - left)
  pub all : t'.connections ≡ t.connections
  pub dead_done : left ≡ 0 → t'.dead_connections ≡ t.dead_connections -ℤ pos n
  pub dead_left : 0 < left → t'.dead_connections ≡ pos 0

-- Setting the times leaves the counts alone.
set_virtual_counts :
    (delay : ℤ → ℤ → ℤ) (fd : ℕ) (total : ℤ) (now : Timeval) (epoch : ℤ) (interval : ℕ) (t : Table)
    {t' : Table}
    → set_virtual_event_time delay fd total now epoch interval t ≡ some t'
    → (t'.active_connections ≡ t.active_connections)
      × (t'.dead_connections ≡ t.dead_connections)
      × (t'.connections ≡ t.connections)
unfolding set_virtual_event_time set_event_send_time set_event_recv_time
set_virtual_counts delay fd total now epoch interval t e = ground arith

restored_counts :
    (efd fd : ℕ) (t : Table) {t' : Table}
    → restore_connection false efd fd t ≡ (true, t')
    → (t'.active_connections ≡ t.active_connections +ℤ pos 1)
      × (t'.dead_connections ≡ t.dead_connections -ℤ pos 1)
      × (t'.connections ≡ t.connections)
unfolding restore_connection
restored_counts efd fd t e = ground arith

not_restored :
    (efd fd : ℕ) (t : Table) {t' : Table} → restore_connection false efd fd t ≡ (false, t') → t' ≡ t
unfolding restore_connection
not_restored efd fd t e = ground arith

-- One connection is restored, and then some of the others.
Restores-cons :
    {n left : ℕ} {t next t' : Table}
    → Restores n next left t'
    → next.active_connections ≡ t.active_connections +ℤ pos 1
    → next.dead_connections ≡ t.dead_connections -ℤ pos 1
    → next.connections ≡ t.connections
    → Restores (suc n) t left t'
Restores-cons {n} {left} {t} r a d e = record {
  at_most = omega (arith, r.at_most);
  active =
      r.active
      ∙ ap (λ x. x +ℤ pos (n - left)) a
      ∙ add_suc t.active_connections (n - left)
      ∙ ap (λ k. t.active_connections +ℤ pos k) (omega (arith, r.at_most));
  all = r.all ∙ e;
  dead_done = λ z. r.dead_done z ∙ ap (λ x. x -ℤ pos n) d ∙ sub_suc t.dead_connections n;
  dead_left = r.dead_left;
}

Restores-none :
    (n : ℕ) (t : Table) → Restores (suc n) t (suc n) (record t { dead_connections = pos 0 })
Restores-none n t = record {
  at_most = omega arith;
  active = add_zero t.active_connections ∙ ap (λ k. t.active_connections +ℤ pos k) (omega arith);
  all = refl;
  dead_done = λ z. absurd (omega arith);
  dead_left = λ z. refl;
}

Restores-zero : (t : Table) → Restores 0 t 0 t
Restores-zero t = record {
  at_most = omega arith;
  active = add_zero t.active_connections;
  all = refl;
  dead_done = λ z. sub_zero t.dead_connections;
  dead_left = λ z. absurd (omega arith);
}

abbrev Holds : ℕ → Table → Option (ℕ × Table) → Type 0
Holds n t none = Unit
Holds n t (some (left, t')) = Restores n t left t'

Holds-cons :
    (n : ℕ) (t next : Table) (o : Option (ℕ × Table))
    → next.active_connections ≡ t.active_connections +ℤ pos 1
    → next.dead_connections ≡ t.dead_connections -ℤ pos 1
    → next.connections ≡ t.connections
    → Holds n next o
    → Holds (suc n) t o
Holds-cons n t next none a d e h = tt
Holds-cons n t next (some (left, t')) a d e h = Restores-cons h a d e

module _ (delay : ℤ → ℤ → ℤ) (efd : ℕ) (now : Timeval) (epoch : ℤ) (interval : ℕ) where
  -- The body of the loop, when `z` is its test and `r` what `restoreConnection` gave.
  abbrev body : ℕ → List ℕ → ℕ → Table → Bool → Bool × Table → Option (ℕ × Table)
  body fd fds n t z r = elim z [
    | true ↦ some (suc n, record t { dead_connections = pos 0 })
    | false ↦ elim r.0 [
      | true ↦ elim (set_virtual_event_time delay fd r.1.connections now epoch interval r.1) [
        | none ↦ none
        | some t'' ↦ restore_loop delay false efd fds n now epoch interval t''
      ]
      | false ↦ restore_loop delay false efd fds (suc n) now epoch interval r.1
    ]
  ]

  -- The rest of the loop is right, so its body is.
  module _ (fd : ℕ) (fds : List ℕ) (n : ℕ) (t : Table)
      (again : (m : ℕ) (u : Table)
        → Holds m u (restore_loop delay false efd fds m now epoch interval u)) where
    body_times :
        (t1 : Table) (v : Option Table)
        → restore_connection false efd fd t ≡ (true, t1)
        → set_virtual_event_time delay fd t1.connections now epoch interval t1 ≡ v
        → Holds (suc n) t (elim v [
          | none ↦ none
          | some t'' ↦ restore_loop delay false efd fds n now epoch interval t''
        ])
    body_times t1 none h k = tt
    body_times t1 (some t'') h k =
        let counts = restored_counts efd fd t h in
        let same = set_virtual_counts delay fd t1.connections now epoch interval t1 k in
        Holds-cons n t t'' _ (same.0 ∙ counts.0) (same.1 ∙ counts.1) (same.2 ∙ counts.2)
          (again n t'')

    body-Holds :
        (z : Bool) (r : Bool × Table)
        → restore_connection false efd fd t ≡ r
        → Holds (suc n) t (body fd fds n t z r)
    body-Holds true r h = Restores-none n t
    body-Holds false (false, t1) h =
        subst
          (λ u. Holds (suc n) u (restore_loop delay false efd fds (suc n) now epoch interval t1))
          (not_restored efd fd t h) (again (suc n) t1)
    body-Holds false (true, t1) h = body_times t1 _ h refl

  restore_loop-Holds :
      (fds : List ℕ) (n : ℕ) (t : Table)
      → Holds n t (restore_loop delay false efd fds n now epoch interval t)
  unfolding restore_loop
  restore_loop-Holds fds zero t = Restores-zero t
  restore_loop-Holds [] (suc n) t = Restores-none n t
  restore_loop-Holds (fd ∷ fds) (suc n) t =
      body-Holds fd fds n t (restore_loop-Holds fds) (is_zero t.dead_connections)
        (restore_connection false efd fd t) refl

  -- A call to restore connections that ends, and does not take the missing return for a success,
  -- moves all but those left over from the dead to the active ones, and sets the count of the dead
  -- ones to zero if some are left over.
  pub restore_connections-Restores :
      (num : ℕ) (t : Table) {left : ℕ} {t' : Table}
      → restore_connections delay false efd num now epoch interval t ≡ some (left, t')
      → Restores num t left t'
  unfolding restore_connections
  restore_connections-Restores num t e =
      subst (Holds num t) e (restore_loop-Holds t.conns_map num t)
