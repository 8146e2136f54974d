-- ===== src/Cluster/Slots/Laws.antt =====
-- Which node a hash slot is routed to.
use da_bao.Base.{
  ℕ, zero, suc, ◌+◌, ◌-◌, ◌≤◌, ◌<◌, ◌≡◌, refl, ap, ◌∙◌, arith, Bool, true, false, ◌&&◌, ◌||◌,
  Bool-cases, inl, inr, List, [], ◌∷◌, map, Option, some, none, All, length, ltb, leb,
  if◌then◌else◌,
}
use da_bao.Base.Int.{ℤ, pos, negsuc}
use da_bao.Cluster.{ParseArgv, ClusterInfo, slots_num}
use da_bao.Cluster.Slots.{
  rounds, update, assign_range, assign_bounds, assign_node, assign_nodes, assign_slot,
}

-- Whether a slot is one of `count` slots from `start` on.
abbrev pub within : ℕ → ℕ → ℕ → Bool
within start count j = leb start j && ltb j (start + count)

abbrev pub between_slots : ℤ → ℤ → ℕ → Bool
between_slots (pos start) end j = within start (rounds end start) j
between_slots (negsuc _) end j = false

module _ {C : Type 0} where
  -- A node without its array `slots`.
  abbrev pub plain : ParseArgv C → ParseArgv C
  plain node = record node { slots = λ _. none }

  assign_range_lem :
      (i start count : ℕ) (node : ParseArgv C) (f : ℕ → Option ℕ)
      → start + count ≤ slots_num
      → (node' : ParseArgv C) × (f' : ℕ → Option ℕ) × (assign_range i start count node f
          ≡ some (node', f'))
        × (plain node' ≡ plain node)
        × ((j : ℕ) → f' j ≡ (if within start count j then some i else f j))
  unfolding assign_range update
  assign_range_lem i start zero node f h = (node, f, refl, refl, λ j. ground arith)
  assign_range_lem i start (suc count) node f h =
      let (node', f', e, same, lookup) =
        assign_range_lem i (suc start) count (record node { slots = update node.slots i (some 1) })
          (update f start (some i)) (omega arith) in
      (node', f', ground (arith, e), same, λ j. ground (arith, lookup j))

  -- A range that lies in the table.
  pub record Fits (node : ParseArgv C) : Type 0 where
    pub first : ℕ
    pub last : ℕ
    pub first_lem : node.start_slot ≡ pos first
    pub last_lem : node.end_slot ≡ pos last
    pub ordered : first ≤ last
    pub fits : last < slots_num

  -- Whether the range of a node has the slot.
  abbrev pub serves : ParseArgv C → ℕ → Bool
  serves node j = between_slots node.start_slot node.end_slot j

  -- The last of the nodes, numbered from `i` on, whose range has the slot.
  abbrev pub owner : ℕ → List (ParseArgv C) → ℕ → Option ℕ → Option ℕ
  owner i [] j known = known
  owner i (node ∷ parse) j known = owner (suc i) parse j (if serves node j then some i else known)

  assign_bounds_lem :
      (i : ℕ) {start end : ℤ} (first last : ℕ) (node : ParseArgv C) (f : ℕ → Option ℕ)
      → start ≡ pos first
      → end ≡ pos last
      → first ≤ last
      → last < slots_num
      → (node' : ParseArgv C) × (f' : ℕ → Option ℕ) × (assign_bounds i start end node f
          ≡ some (node', f'))
        × (plain node' ≡ plain node)
        × ((j : ℕ) → f' j ≡ (if between_slots start end j then some i else f j))
  unfolding assign_bounds
  assign_bounds_lem i first last node f e e' ordered fits =
      rw e (rw e' (assign_range_lem i first (suc last - first) node f (omega arith)))

  assign_node_lem :
      (i : ℕ) (node : ParseArgv C) (f : ℕ → Option ℕ)
      → Fits node
      → (node' : ParseArgv C) × (f' : ℕ → Option ℕ) × (assign_node i node f ≡ some (node', f'))
        × (plain node' ≡ plain node)
        × ((j : ℕ) → f' j ≡ (if serves node j then some i else f j))
  unfolding assign_node
  assign_node_lem i node f h =
      assign_bounds_lem i h.first h.last
        (record node { slots = λ j. if ltb j slots_num then some 0 else none }) f h.first_lem
        h.last_lem h.ordered h.fits

  assign_nodes_lem :
      (i : ℕ) (parse : List (ParseArgv C)) (f : ℕ → Option ℕ)
      → All Fits parse
      → (parse' : List (ParseArgv C)) × (f' : ℕ → Option ℕ) × (assign_nodes i parse f
          ≡ some (parse', f'))
        × (map plain parse' ≡ map plain parse)
        × ((j : ℕ) → f' j ≡ owner i parse j (f j))
  unfolding assign_nodes
  assign_nodes_lem i [] f h = ([], f, refl, refl, λ j. refl)
  assign_nodes_lem i (node ∷ parse) f h =
      let (node', f', e, same, lookup) = assign_node_lem i node f h.0 in
      let (parse', f'', e', same', lookup') = assign_nodes_lem (suc i) parse f' h.1 in
      (
        node' ∷ parse',
        f'',
        rw e (rw e' refl),
        λ k. same k ∷ same' k,
        λ j. lookup' j ∙ ap (owner (suc i) parse j) (lookup j),
      )

  -- Whether a node has the slot.
  abbrev pub covers : List (ParseArgv C) → ℕ → Bool
  covers [] j = false
  covers (node ∷ parse) j = serves node j || covers parse j

  owner_none :
      (i : ℕ) (parse : List (ParseArgv C)) (j : ℕ) (known : Option ℕ)
      → covers parse j ≡ false
      → owner i parse j known ≡ known
  owner_none i [] j known h = refl
  owner_none i (node ∷ parse) j known h = ground (arith, owner_none (suc i) parse j known)

  pub owner_lem :
      (i : ℕ) (parse : List (ParseArgv C)) (j : ℕ) (known : Option ℕ)
      → covers parse j ≡ true
      → (k : ℕ) × (owner i parse j known ≡ some (i + k)) × (k < length parse)
  owner_lem i [] j known h = cc
  owner_lem i (node ∷ parse) j known h = elim (Bool-cases (covers parse j)) [
    | inl later ↦
        let (k, e, lt) =
          owner_lem (suc i) parse j (if serves node j then some i else known) later in
        (suc k, e ∙ ap some (omega arith), omega arith)
    | inr last ↦ (
      0,
      owner_none (suc i) parse j (if serves node j then some i else known) last ∙ ground arith,
      omega arith,
    )
  ]

  -- If the range of every node lies in the table, the assignment ends, a slot is routed to the last
  -- node whose range has it and to what stood there before if no range has it, and of a node only
  -- the array of its slots is changed.
  pub assign_slot_lem :
      (cluster : ClusterInfo C)
      → All Fits cluster.parse
      → (cluster' : ClusterInfo C) × (assign_slot cluster ≡ some cluster')
        × (map plain cluster'.parse ≡ map plain cluster.parse)
        × ((j : ℕ) → cluster'.slot_to_host j ≡ owner 0 cluster.parse j (cluster.slot_to_host j))
  unfolding assign_slot
  assign_slot_lem cluster h =
      let (parse', f', e, same, lookup) = assign_nodes_lem 0 cluster.parse cluster.slot_to_host h in
      (record cluster { parse = parse'; slot_to_host = f' }, rw e refl, same, lookup)
