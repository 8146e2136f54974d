-- ===== src/Cluster/Slots.antt =====
-- `assign_slot` of server/redis/connect.c: each hash slot is given the node that serves it.
pub mod Laws
use da_bao.Base.{
  ℕ, zero, suc, ◌+◌, ◌-◌, List, [], ◌∷◌, length, ltb, leb, ◌==◌, Option, some, none, if◌then◌else◌,
}
use da_bao.Base.Int.{ℤ, pos, negsuc, ltb_ℤ}
use da_bao.Cluster.{ParseArgv, ClusterInfo, slots_num}
use da_bao.Base.Options.{◌>>=◌}

-- How often the inner loop runs.
abbrev pub rounds : ℤ → ℕ → ℕ
rounds (pos end) start = suc end - start
rounds (negsuc _) start = 0

-- A write to an array.
unfoldable pub update {ℓ} : {A : Type ℓ} → (ℕ → A) → ℕ → A → ℕ → A
update f i v j = if i == j then v else f j

module _ {C : Type 0} where
  -- The inner loop for the slots from `j` on: `slot_to_host[j]` is node `i`, and `slots[i]`, not
  -- `slots[j]`, is set. `none` is a write behind an array.
  unfoldable pub assign_range :
      ℕ → ℕ → ℕ → ParseArgv C → (ℕ → Option ℕ) → Option (ParseArgv C × (ℕ → Option ℕ))
  unfolding update
  assign_range i j zero node slot_to_host = some (node, slot_to_host)
  assign_range i j (suc count) node slot_to_host =
      if ltb j slots_num
      then assign_range i (suc j) count (record node { slots = update node.slots i (some 1) })
          (update slot_to_host j (some i))
      else none

  -- The inner loop for a range, whose ends are `int`s.
  unfoldable pub assign_bounds :
      ℕ → ℤ → ℤ → ParseArgv C → (ℕ → Option ℕ) → Option (ParseArgv C × (ℕ → Option ℕ))
  unfolding assign_range
  assign_bounds i (pos start) end node slot_to_host =
      assign_range i start (rounds end start) node slot_to_host
  assign_bounds i (negsuc s) end node slot_to_host =
      if ltb_ℤ end (negsuc s) then some (node, slot_to_host) else none

  -- `memset` of `slots`, then the loop over the range of the node.
  unfoldable pub assign_node :
      ℕ → ParseArgv C → (ℕ → Option ℕ) → Option (ParseArgv C × (ℕ → Option ℕ))
  unfolding assign_bounds
  assign_node i node slot_to_host =
      assign_bounds i node.start_slot node.end_slot
        (record node { slots = λ j. if ltb j slots_num then some 0 else none }) slot_to_host

  unfoldable pub assign_nodes :
      ℕ → List (ParseArgv C) → (ℕ → Option ℕ) → Option (List (ParseArgv C) × (ℕ → Option ℕ))
  unfolding assign_node
  assign_nodes i [] slot_to_host = some ([], slot_to_host)
  assign_nodes i (node ∷ parse) slot_to_host = do
    assigned ← assign_node i node slot_to_host
    rest ← assign_nodes (suc i) parse assigned.1
    some (assigned.0 ∷ rest.0, rest.1)

  unfoldable pub assign_slot : ClusterInfo C → Option (ClusterInfo C)
  unfolding assign_nodes
  assign_slot mycluster = do
    assigned ← assign_nodes 0 mycluster.parse mycluster.slot_to_host
    some (record mycluster { parse = assigned.0; slot_to_host = assigned.1 })
