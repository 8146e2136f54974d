-- ===== src/Client/Start/Laws.antt =====
-- Which addresses the client takes.
use da_bao.Base.{
  ℕ, suc, ◌+◌, ◌≤◌, ◌<◌, ◌≡◌, refl, ap, sym, ◌∙◌, arith, Bool-cases, inl, inr, false, List, [], ◌∷◌,
  ◌++◌, Option, some, none, All, length, length-append, length-map, lt→ltb, ltb, if◌then◌else◌,
}
use native.Mathlib.Decide.{dec_lt}
use mathlib.Core.List.{append-nil, append_assoc}
use da_bao.Client.Start.{
  max_ips, Interface, is_alias, alias_loop, get_alias_ips, SockAddr, create_clients,
}

abbrev pub host_or : Option (List ℕ) → List ℕ
host_or none = []
host_or (some host) = host

-- The addresses of the interfaces that are taken.
abbrev pub aliases : List ℕ → List Interface → List (List ℕ)
aliases dev [] = []
aliases dev (ifa ∷ ifaddr) =
    if is_alias dev ifa then host_or ifa.host ∷ aliases dev ifaddr else aliases dev ifaddr

-- Whether `getnameinfo` gives a text.
abbrev pub Named : Interface → Type 0
Named ifa = (host : List ℕ) × (ifa.host ≡ some host)

not_lt→ltb : (a b : ℕ) → ¬ (a < b) → ltb a b ≡ false
not_lt→ltb a b h = ground arith

alias_loop_lem :
    (dev : List ℕ) (ifaddr : List Interface) (stored : List (List ℕ))
    → All Named ifaddr
    → length stored + length (aliases dev ifaddr) ≤ max_ips
    → alias_loop dev ifaddr stored ≡ some (stored ++ aliases dev ifaddr)
unfolding alias_loop
alias_loop_lem dev [] stored named room = ap some (sym (append-nil stored))
alias_loop_lem dev (ifa ∷ ifaddr) stored named room =
    let (host, e) = named.0 in
    elim (Bool-cases (is_alias dev ifa)) [
      | inl taken ↦
          let room' : length stored + suc (length (aliases dev ifaddr)) ≤ max_ips =
            rw taken at room in
          rw taken (
            rw e (
              rw (lt→ltb (length stored) max_ips (omega arith)) (
                alias_loop_lem dev ifaddr (stored ++ (host ∷ [])) named.1
                  (omega (arith, length-append stored (host ∷ [])))
                ∙ ap some (append_assoc stored (host ∷ []) (aliases dev ifaddr)))))
      | inr passed ↦ rw passed (alias_loop_lem dev ifaddr stored named.1 (rw passed at room))
    ]

-- One more address is written behind the array.
alias_loop_over :
    (dev : List ℕ) (ifaddr : List Interface) (stored : List (List ℕ))
    → All Named ifaddr
    → length stored ≤ max_ips
    → max_ips < length stored + length (aliases dev ifaddr)
    → alias_loop dev ifaddr stored ≡ none
unfolding alias_loop
alias_loop_over dev [] stored named room over = absurd (omega arith)
alias_loop_over dev (ifa ∷ ifaddr) stored named room over =
    let (host, e) = named.0 in
    elim (Bool-cases (is_alias dev ifa)) [
      | inl taken ↦
          let over' : max_ips < length stored + suc (length (aliases dev ifaddr)) =
            rw taken at over in
          rw taken (
            rw e (elim (dec_lt (length stored) max_ips) [
              | yes fits ↦ rw (lt→ltb (length stored) max_ips fits) (
                  alias_loop_over dev ifaddr (stored ++ (host ∷ [])) named.1
                    (omega (arith, length-append stored (host ∷ [])))
                    (omega (arith, length-append stored (host ∷ []))))
              | no full ↦ rw (not_lt→ltb (length stored) max_ips full) refl
            ]))
      | inr passed ↦ rw passed (alias_loop_over dev ifaddr stored named.1 room (rw passed at over))
    ]

-- If every interface has a text for its address, fewer than 300 aliases are all stored and the
-- assertion of createClients holds for them, and more than 300 are written behind the end of the
-- array.
pub get_alias_ips_lem :
    (inet_addr : List ℕ → ℕ) (dev : List ℕ) (ifaddr : List Interface)
    → All Named ifaddr
    → (length (aliases dev ifaddr) < max_ips
        → (get_alias_ips dev (some ifaddr) ≡ some (aliases dev ifaddr))
          × ((clients : List SockAddr) × (create_clients inet_addr (aliases dev ifaddr)
                ≡ some clients)
              × (length clients ≡ length (aliases dev ifaddr))))
      × (max_ips < length (aliases dev ifaddr) → get_alias_ips dev (some ifaddr) ≡ none)
unfolding get_alias_ips create_clients
get_alias_ips_lem inet_addr dev ifaddr named = (
  λ few. (
    alias_loop_lem dev ifaddr [] named (omega arith),
    rw (lt→ltb (length (aliases dev ifaddr)) max_ips few)
        (_, refl, length-map _ (aliases dev ifaddr)),
  ),
  λ many. alias_loop_over dev ifaddr [] named (omega arith) (omega arith),
)
