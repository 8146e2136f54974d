-- ===== src/Client/Start/Passes.antt =====
-- Which connections a pass of `updateEvents` of client/client.c asks to send.
use da_bao.Base.{
  ℕ, zero, suc, ◌+◌, ◌≤◌, ◌<◌, ◌≡◌, ◌≢◌, refl, ap, sym, ◌∙◌, arith, Bool, Bool-cases, inl, inr,
  true, false, not, ◌&&◌, ◌==◌, ==_iff, List, [], ◌∷◌, Option, some, none, All, length,
  get_or-set_self, get_or-set_ne, length-set, if◌then◌else◌,
}
use da_bao.Base.Int.{ℤ, pos, ◌+ℤ◌, add_zero, add_pos}
use da_bao.Base.Options.{Holds, >>=-Holds}
use mathlib.Core.Path.{subst}
use da_bao.Epoll.{
  Timeval, PacketTime, Table, entry, modify_epoll_event, add_epoll_event, set_event_time_efd,
}
use da_bao.Epoll.Times.{can_send_pkt}
use da_bao.Client.Start.{Control, test_event, update_events}

-- What a pass of `updateEvents` leaves of the entries, and which descriptors it asks.
abbrev pub flag_of : Table → ℕ → Bool
flag_of t f = (entry t f).sending_flag

abbrev pub one_if : Bool → ℕ
one_if true = 1
one_if false = 0

-- What is done for one descriptor: it stays as it was, or it was not marked and is asked, and then
-- it is left marked if the modification succeeded, and else counted once more.
pub record Tested (fd : ℕ) (modified : Bool) (t t' : Table) (asked : Bool) : Type 0 where
  pub size : length t'.packets_time ≡ length t.packets_time
  pub others : (f : ℕ) → fd ≢ f → entry t' f ≡ entry t f
  pub kept : flag_of t fd ≡ true → flag_of t' fd ≡ true
  pub was : asked ≡ true → flag_of t fd ≡ false
  pub marked : asked ≡ true → flag_of t' fd ≡ modified
  pub active : t'.active_connections ≡ t.active_connections +ℤ pos (one_if (asked && not modified))

test_event-Tested :
    (now : Timeval) (control : Control) (epoch : ℤ) (fd : ℕ) (t : Table) {t' : Table} {asked : Bool}
    → fd < length t.packets_time
    → test_event now control epoch fd t ≡ some (t', asked)
    → Tested fd control.modified t t' asked
unfolding test_event can_send_pkt modify_epoll_event add_epoll_event set_event_time_efd
test_event-Tested now control epoch fd t h e = record {
  size = grind (arith, length-set);
  others = λ f ne. grind (arith, get_or-set_ne);
  kept = λ k. grind (arith, get_or-set_self, length-set);
  was = λ k. grind arith;
  marked = λ k. grind (arith, get_or-set_self, length-set);
  active = grind (arith, add_zero);
}

==_ne : (a b : ℕ) → (a == b) ≡ false → a ≢ b
==_ne a b h = ground arith

-- How many of the descriptors `epoll_ctl` did not know.
abbrev pub unknown : (ℕ → Control) → List ℕ → ℕ
unknown control [] = 0
unknown control (fd ∷ fds) = one_if (not (control fd).modified) + unknown control fds

-- A pass from `fd` on.
pub record Passed (control : ℕ → Control) (fd : ℕ) (t : Table) (outcome : Table × List ℕ)
    : Type 0 where
  pub size : length outcome.0.packets_time ≡ length t.packets_time
  pub before : (f : ℕ) → f < fd → entry outcome.0 f ≡ entry t f
  pub kept : (f : ℕ) → flag_of t f ≡ true → flag_of outcome.0 f ≡ true
  pub from : All (λ f. fd ≤ f) outcome.1
  pub were : All (λ f. flag_of t f ≡ false) outcome.1
  pub marked : All (λ f. flag_of outcome.0 f ≡ (control f).modified) outcome.1
  pub active :
      outcome.0.active_connections ≡ t.active_connections +ℤ pos (unknown control outcome.1)

All-map_lem {κ} : {P Q : ℕ → Type κ} (xs : List ℕ) → ((x : ℕ) → P x → Q x) → All P xs → All Q xs
All-map_lem [] f h = tt
All-map_lem (x ∷ xs) f h = (f x h.0, All-map_lem xs f h.1)

module _ (control : ℕ → Control) (fd : ℕ) (t t1 : Table) (outcome : Table × List ℕ) where
  kept_one :
      {asked : Bool}
      → Tested fd (control fd).modified t t1 asked
      → (f : ℕ) → flag_of t f ≡ true
      → flag_of t1 f ≡ true
  kept_one tested f e = elim (Bool-cases (fd == f)) [
    | inl same ↦
        let found : fd ≡ f = (==_iff fd f).0 same in rw (← found) (tested.kept (rw found e))
    | inr other ↦ ap (λ (p : PacketTime). p.sending_flag) (tested.others f (==_ne fd f other)) ∙ e
  ]

  before_lem :
      {asked : Bool}
      → Tested fd (control fd).modified t t1 asked
      → (xs : List ℕ) → All (λ f. suc fd ≤ f) xs
      → All (λ f. flag_of t1 f ≡ false) xs
      → All (λ f. flag_of t f ≡ false) xs
  before_lem tested [] le h' = tt
  before_lem tested (x ∷ xs) le h' = (
    ap (λ (p : PacketTime). p.sending_flag) (sym (tested.others x (omega arith))) ∙ h'.0,
    before_lem tested xs le.1 h'.1,
  )

  -- A descriptor that is not asked.
  skip-Passed :
      Tested fd (control fd).modified t t1 false
      → Passed control (suc fd) t1 outcome
      → Passed control fd t outcome
  skip-Passed tested h = record {
    size = h.size ∙ tested.size;
    before = λ f lt. h.before f (omega arith) ∙ tested.others f (omega arith);
    kept = λ f e. h.kept f (kept_one tested f e);
    from = All-map_lem outcome.1 (λ f le. omega arith) h.from;
    were = before_lem tested outcome.1 h.from h.were;
    marked = h.marked;
    active =
        h.active
        ∙ ap (λ x. x +ℤ pos (unknown control outcome.1))
            (tested.active ∙ sym (add_zero t.active_connections));
  }

  -- A descriptor that is asked.
  ask-Passed :
      Tested fd (control fd).modified t t1 true
      → Passed control (suc fd) t1 outcome
      → Passed control fd t (outcome.0, fd ∷ outcome.1)
  ask-Passed tested h = record {
    size = h.size ∙ tested.size;
    before = λ f lt. h.before f (omega arith) ∙ tested.others f (omega arith);
    kept = λ f e. h.kept f (kept_one tested f e);
    from = (omega arith, All-map_lem outcome.1 (λ f le. omega arith) h.from);
    were = (tested.was refl, before_lem tested outcome.1 h.from h.were);
    marked = (
      ap (λ (p : PacketTime). p.sending_flag) (h.before fd (omega arith)) ∙ tested.marked refl,
      h.marked,
    );
    active =
        h.active
        ∙ ap (λ x. x +ℤ pos (unknown control outcome.1)) tested.active
        ∙ add_pos t.active_connections (one_if (not (control fd).modified))
            (unknown control outcome.1);
  }

  first-Passed :
      (asked : Bool)
      → Tested fd (control fd).modified t t1 asked
      → Passed control (suc fd) t1 outcome
      → Passed control fd t (outcome.0, if asked then fd ∷ outcome.1 else outcome.1)
  first-Passed true tested h = ask-Passed tested h
  first-Passed false tested h = skip-Passed tested h

-- The first descriptor of a pass, if the program goes on.
test_event-Holds :
    (now : Timeval) (control : Control) (epoch : ℤ) (fd : ℕ) (t : Table)
    → fd < length t.packets_time
    → Holds (λ r. Tested fd control.modified t r.0 r.1) (test_event now control epoch fd t)
test_event-Holds now control epoch fd t h =
    after (test_event now control epoch fd t)
      (λ t' asked e. test_event-Tested now control epoch fd t h e)
  where
    after :
        (o : Option (Table × Bool))
        → ((t' : Table) (asked : Bool)
            → o ≡ some (t', asked)
            → Tested fd control.modified t t' asked)
        → Holds (λ r. Tested fd control.modified t r.0 r.1) o
    after none k = tt
    after (some (t', asked)) k = k t' asked refl

update_events-Holds :
    (now : ℕ → Timeval) (control : ℕ → Control) (epoch : ℤ) (n fd : ℕ) (t : Table)
    → fd + n ≤ length t.packets_time
    → Holds (Passed control fd t) (update_events now control epoch n fd t)
unfolding update_events
update_events-Holds now control epoch zero fd t h = record {
  size = refl;
  before = λ f lt. refl;
  kept = λ f e. e;
  from = tt;
  were = tt;
  marked = tt;
  active = add_zero t.active_connections;
}
update_events-Holds now control epoch (suc n) fd t h =
    >>=-Holds _ (Passed control fd t) (test_event (now fd) (control fd) epoch fd t) _
      (test_event-Holds (now fd) (control fd) epoch fd t (omega arith))
      λ (t1, asked) tested.
        >>=-Holds (Passed control (suc fd) t1) (Passed control fd t)
          (update_events now control epoch n (suc fd) t1) _
          (update_events-Holds now control epoch n (suc fd) t1 (omega (arith, tested.size)))
          λ outcome passed. first-Passed control fd t t1 outcome asked tested passed

-- A pass over descriptors of the table that goes to its end while no other thread changes the table
-- asks only descriptors that were not marked as sending, clears no mark that was set before, leaves
-- a descriptor that it asks marked if epoll_ctl could modify it and not marked if it was added, and
-- counts one active connection more for each that was added, whatever the clock shows.
pub update_events-Passed :
    (now : ℕ → Timeval) (control : ℕ → Control) (epoch : ℤ) (n fd : ℕ) (t t' : Table) (fds : List ℕ)
    → fd + n ≤ length t.packets_time
    → update_events now control epoch n fd t ≡ some (t', fds)
    → Passed control fd t (t', fds)
update_events-Passed now control epoch n fd t t' fds h e =
    subst (Holds (Passed control fd t)) e (update_events-Holds now control epoch n fd t h)
