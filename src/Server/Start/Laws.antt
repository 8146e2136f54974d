-- ===== src/Server/Start/Laws.antt =====
-- What the start of the server gives.
use da_bao.Base.{
  ℕ, zero, suc, ◌<◌, ◌≡◌, ◌⊎◌, refl, ap, arith, Bool-cases, inl, inr, true, false, ◌&&◌, List, [],
  ◌∷◌, ◌++◌, Option, some, none, All, length, le→leb, if◌then◌else◌,
}
use da_bao.Base.Int.{ℤ, pos, negsuc, is_zero, ◌≤ℤ◌}
use da_bao.Ring.{RingBuffer, ring_buffer_init}
use da_bao.Ring.Laws.{IsValid, contents, init-IsValid, contents-init}
use da_bao.ServerConfig.{Configs, ConfigFile, Locals, Outcome, get_configs}
use da_bao.ServerConfig.Laws.{get_configs-IsUsable}
use da_bao.Server.Database.{same_text}
use da_bao.Server.Start.{
  minus_one, is_minus_one, Address, bind_loop, create_and_bind, Interface, success, exited,
  local_ip_loop, get_local_ip, min_threads, max_threads, threads_loop, init_threads,
}

-- An address whose socket could not be made or bound.
abbrev pub Refused : Address → Type 0
Refused rp = (is_minus_one rp.sfd ≡ true) ⊎ (is_zero rp.bound ≡ false)

-- The sockets that were made for some addresses.
abbrev pub made : List Address → List ℤ
made [] = []
made (rp ∷ result) = if is_minus_one rp.sfd then made result else rp.sfd ∷ made result

-- The socket of the first of the addresses that are left, which is bound; -1 if none is left.
abbrev pub IsBound : List Address → ℤ → Type 0
IsBound [] sfd = sfd ≡ minus_one
IsBound (rp ∷ result) sfd =
    (is_minus_one rp.sfd ≡ false) × (is_zero rp.bound ≡ true) × (sfd ≡ rp.sfd)

-- The addresses that were tried and refused, with their sockets closed, and those that are left.
abbrev pub Tried : List Address → ℤ × List ℤ → Type 0
Tried result outcome =
    (tried : List Address) × (left : List Address) × (result ≡ tried ++ left)
    × All Refused tried
    × (outcome.1 ≡ made tried)
    × IsBound left (outcome.0)

bind_loop_lem : (result : List Address) → Tried result (bind_loop result)
unfolding bind_loop
bind_loop_lem [] = ([], [], refl, tt, refl, refl)
bind_loop_lem (rp ∷ result) =
    let (tried, left, parts, refused, closed, bound) = bind_loop_lem result in
    elim (Bool-cases (is_minus_one rp.sfd)) [
      | inl missing ↦ rw missing (
        rp ∷ tried,
        left,
        ap (λ l. rp ∷ l) parts,
        (inl missing, refused),
        rw missing closed,
        bound,
      )
      | inr there ↦ rw there (elim (Bool-cases (is_zero rp.bound)) [
        | inl ok ↦ rw ok ([], rp ∷ result, refl, tt, refl, (there, ok, refl))
        | inr bad ↦ rw bad (
          rp ∷ tried,
          left,
          ap (λ l. rp ∷ l) parts,
          (inr bad, refused),
          rw there (ap (λ l. rp.sfd ∷ l) closed),
          bound,
        )
      ])
    ]

pub create_and_bind-Tried :
    (s : ℤ) (result : List Address) → is_zero s ≡ true → Tried result (create_and_bind s result)
unfolding create_and_bind
create_and_bind-Tried s result ok = rw ok (bind_loop_lem result)

-- An interface that `getLocalIP` passes over.
abbrev pub Passed : List ℕ → Interface → Type 0
Passed device ifa = (ifa.has_addr ≡ false) ⊎ ((same_text ifa.name device && ifa.inet) ≡ false)

-- The interface whose address is taken, behind others that are passed over.
abbrev pub Chosen : List ℕ → List Interface → List ℕ → Type 0
Chosen device ifaddr ip =
    (before : List Interface) × (ifa : Interface) × (behind : List Interface) × (ifaddr
      ≡ before ++ (ifa ∷ behind))
    × All (Passed device) before
    × (ifa.has_addr ≡ true)
    × ((same_text ifa.name device && ifa.inet) ≡ true)
    × (ifa.host ≡ some ip)

host_lem :
    (host : Option (List ℕ)) (ip : List ℕ)
    → (elim host [ none ↦ exited | some found ↦ success found ]) ≡ success ip
    → host ≡ some ip
host_lem none ip e = cc
host_lem (some found) ip e = cc

local_ip_loop-Chosen :
    (device : List ℕ) (ifaddr : List Interface) (ip : List ℕ)
    → local_ip_loop device ifaddr ≡ success ip
    → Chosen device ifaddr ip
unfolding local_ip_loop
local_ip_loop-Chosen device [] ip e = cc
local_ip_loop-Chosen device (ifa ∷ ifaddr) ip e = elim (Bool-cases ifa.has_addr) [
  | inl has ↦ elim (Bool-cases (same_text ifa.name device && ifa.inet)) [
    | inl same ↦
        ([], ifa, ifaddr, refl, tt, has, same, host_lem ifa.host ip (rw same at (rw has at e)))
    | inr differs ↦
        skip (inr differs) (local_ip_loop-Chosen device ifaddr ip (rw differs at (rw has at e)))
  ]
  | inr lacks ↦ skip (inl lacks) (local_ip_loop-Chosen device ifaddr ip (rw lacks at e))
]
  where
    skip : Passed device ifa → Chosen device ifaddr ip → Chosen device (ifa ∷ ifaddr) ip
    skip passed (before, chosen, behind, parts, all, has, same, host) =
        (ifa ∷ before, chosen, behind, ap (λ l. ifa ∷ l) parts, (passed, all), has, same, host)

-- A worker's ring at the start.
abbrev pub IsEmpty : RingBuffer → Type 0
IsEmpty r = IsValid r × (contents r ≡ [])

abbrev pub Threads : Option (List RingBuffer) → ℕ → Type 0
Threads o n = (rings : List RingBuffer) × (o ≡ some rings) × (length rings ≡ n) × All IsEmpty rings

threads_loop-Threads :
    (rc : ℕ → ℤ) (n thread : ℕ)
    → ((i : ℕ) → is_zero (rc i) ≡ true)
    → Threads (threads_loop rc n thread) n
unfolding threads_loop
threads_loop-Threads rc zero thread ok = ([], refl, refl, tt)
threads_loop-Threads rc (suc n) thread ok =
    let (rings, e, sized, empty) = threads_loop-Threads rc n (suc thread) ok in
    rw (ok thread)
      (rw e (ring_buffer_init ∷ rings, refl, ap suc sized, ((init-IsValid, contents-init), empty)))

init_threads_lem :
    (rc : ℕ → ℤ) (threads_num : ℤ)
    → ((i : ℕ) → is_zero (rc i) ≡ true)
    → pos min_threads ≤ℤ threads_num
    → threads_num ≤ℤ pos max_threads
    → (n : ℕ) × (threads_num ≡ pos n) × (0 < n) × Threads (init_threads rc threads_num) n
unfolding init_threads
init_threads_lem rc (negsuc n) ok low high = absurd (omega arith)
init_threads_lem rc (pos n) ok low high = (
  n,
  refl,
  omega arith,
  rw (le→leb min_threads n (omega arith))
      (rw (le→leb n max_threads (omega arith)) (threads_loop-Threads rc n 0 ok)),
)

-- If the settings were read with success and every thread can be created, the server has as many
-- workers as the settings say, at least one, each with a valid and empty ring.
pub init_threads-get_configs :
    {D : Type 0} (locals : Locals D) (file : Option (ConfigFile D)) (conf conf' : Configs D)
    (rc : ℕ → ℤ)
    → get_configs locals file conf ≡ Outcome.success conf'
    → ((i : ℕ) → is_zero (rc i) ≡ true)
    → (n : ℕ) × (conf'.threads_num ≡ pos n)
      × (0 < n)
      × Threads (init_threads rc conf'.threads_num) n
init_threads-get_configs locals file conf conf' rc e ok =
    let usable = get_configs-IsUsable locals file conf e in
    init_threads_lem rc conf'.threads_num ok usable.threads_low usable.threads_high

pub get_local_ip-Chosen :
    (device : List ℕ) (ifaddr : List Interface) (ip : List ℕ)
    → get_local_ip device (some ifaddr) ≡ success ip
    → Chosen device ifaddr ip
unfolding get_local_ip
get_local_ip-Chosen device ifaddr ip e = local_ip_loop-Chosen device ifaddr ip e
