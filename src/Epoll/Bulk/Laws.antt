-- ===== src/Epoll/Bulk/Laws.antt =====
-- Closing and restoring many connections: either all that was asked for, or all there are.
use da_bao.Base.{
  ℕ, zero, suc, ◌≤◌, ◌<◌, ◌≡◌, refl, sym, ap, ◌∙◌, arith, true, false, List, [], ◌∷◌, drop, All,
  if◌then◌else◌, ◌⊎◌, inl, inr, Bool-cases,
}
use mathlib.Core.Path.{subst}
use da_bao.Base.Int.{pos, ◌+ℤ◌, ◌-ℤ◌, sub_zero, add_zero, sub_suc, add_suc}
use da_bao.Epoll.{Table, close_connection}
use da_bao.Epoll.Bulk.{close_loop, close_connections}
use da_bao.Epoll.Laws.{
  is_open, close-is_open, close_still_closed, close_then_closed, closed_entry, not_closed,
}

-- What a call to close `n` of the connections `fds` did: it closed `closed`.
pub record Closes (efd : ℕ) (fds : List ℕ) (n : ℕ) (t t' : Table) : Type 0 where
  pub closed : ℕ
  pub at_most : closed ≤ n
  pub active : t'.active_connections ≡ t.active_connections -ℤ pos closed
  pub dead : t'.dead_connections ≡ t.dead_connections +ℤ pos closed
  pub all : t'.connections ≡ t.connections
  pub complete : (closed ≡ n) ⊎ All (λ fd. is_open efd t' fd ≡ false) fds

close_loop_still_closed :
    (efd other : ℕ) (fds : List ℕ) (n : ℕ) (t : Table)
    → is_open efd t other ≡ false
    → is_open efd (close_loop efd fds n t) other ≡ false
unfolding close_loop
close_loop_still_closed efd other fds zero t h = h
close_loop_still_closed efd other [] (suc n) t h = h
close_loop_still_closed efd other (fd ∷ fds) (suc n) t h =
    close_loop_still_closed efd other fds _ _ (close_still_closed efd fd other t h)

-- One connection is closed, and then some of the others.
Closes-cons :
    {efd fd n : ℕ} {fds : List ℕ} {t next t' : Table}
    → Closes efd fds n next t'
    → next.active_connections ≡ t.active_connections -ℤ pos 1
    → next.dead_connections ≡ t.dead_connections +ℤ pos 1
    → next.connections ≡ t.connections
    → is_open efd t' fd ≡ false
    → Closes efd (fd ∷ fds) (suc n) t t'
Closes-cons {t} c a d e o = record {
  closed = suc c.closed;
  at_most = omega (arith, c.at_most);
  active = c.active ∙ ap (λ x. x -ℤ pos c.closed) a ∙ sub_suc t.active_connections c.closed;
  dead = c.dead ∙ ap (λ x. x +ℤ pos c.closed) d ∙ add_suc t.dead_connections c.closed;
  all = c.all ∙ e;
  complete = elim c.complete [ inl same ↦ inl (ap suc same) | inr rest ↦ inr (o, rest) ];
}

-- A connection that is not open is passed over.
Closes-skip :
    {efd fd n : ℕ} {fds : List ℕ} {t t' : Table}
    → Closes efd fds n t t'
    → is_open efd t' fd ≡ false
    → Closes efd (fd ∷ fds) n t t'
Closes-skip c o = record {
  closed = c.closed;
  at_most = c.at_most;
  active = c.active;
  dead = c.dead;
  all = c.all;
  complete = elim c.complete [ inl same ↦ inl same | inr rest ↦ inr (o, rest) ];
}

close_loop_open :
    (efd fd n : ℕ) (fds : List ℕ) (t : Table)
    → is_open efd t fd ≡ true
    → close_loop efd (fd ∷ fds) (suc n) t ≡ close_loop efd fds n (close_connection efd fd t).1
unfolding close_loop
close_loop_open efd fd n fds t o =
    ap (λ b. close_loop efd fds (if b then n else suc n) (close_connection efd fd t).1)
      (close-is_open efd fd t ∙ o)

close_loop_passed :
    (efd fd n : ℕ) (fds : List ℕ) (t : Table)
    → is_open efd t fd ≡ false
    → close_loop efd (fd ∷ fds) (suc n) t ≡ close_loop efd fds (suc n) t
unfolding close_loop
close_loop_passed efd fd n fds t o =
    ap (λ r. close_loop efd fds (if r.0 then n else suc n) r.1) (not_closed efd fd t o)

close_loop-Closes :
    (efd : ℕ) (fds : List ℕ) (n : ℕ) (t : Table)
    → 0 < efd
    → Closes efd fds n t (close_loop efd fds n t)
unfolding close_loop
close_loop-Closes efd fds zero t h = record {
  closed = 0;
  at_most = omega arith;
  active = sub_zero t.active_connections;
  dead = add_zero t.dead_connections;
  all = refl;
  complete = inl refl;
}
close_loop-Closes efd [] (suc n) t h = record {
  closed = 0;
  at_most = omega arith;
  active = sub_zero t.active_connections;
  dead = add_zero t.dead_connections;
  all = refl;
  complete = inr tt;
}
close_loop-Closes efd (fd ∷ fds) (suc n) t h = elim (Bool-cases (is_open efd t fd)) [
  | inl o ↦ subst (Closes efd (fd ∷ fds) (suc n) t) (sym (close_loop_open efd fd n fds t o)) (
      Closes-cons (close_loop-Closes efd fds n (close_connection efd fd t).1 h)
        (ap (λ r. r.1.active_connections) (closed_entry efd fd t o))
        (ap (λ r. r.1.dead_connections) (closed_entry efd fd t o))
        (ap (λ r. r.1.connections) (closed_entry efd fd t o))
        (close_loop_still_closed efd fd fds n _ (close_then_closed efd fd t h)))
  | inr o ↦ subst (Closes efd (fd ∷ fds) (suc n) t) (sym (close_loop_passed efd fd n fds t o)) (
      Closes-skip (close_loop-Closes efd fds (suc n) t h)
        (close_loop_still_closed efd fd fds (suc n) t o))
]

-- For a positive epoll descriptor, closing a number of its connections moves that many from the
-- active to the dead ones, or fewer, and then none of those that the shuffled table lists behind
-- its first entry is left open.
pub close_connections-Closes :
    (efd num : ℕ) (t : Table)
    → 0 < efd
    → Closes efd (drop 1 t.conns_map) num t (close_connections efd num t)
unfolding close_connections
close_connections-Closes efd num t h = close_loop-Closes efd (drop 1 t.conns_map) num t h
