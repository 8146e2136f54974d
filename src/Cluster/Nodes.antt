-- ===== src/Cluster/Nodes.antt =====
-- `from_str_to_cluster` and `process_cluterInfo` of server/redis/connect.c: the answer to
-- `cluster nodes` is cut into one line for each master, and each line into its fields.
pub mod Laws
pub mod Lines
use da_bao.Base.{
  ℕ, zero, suc, ◌+◌, ◌-◌, List, [], ◌∷◌, ◌++◌, length, take, drop, ltb, Option, some, none,
  if◌then◌else◌,
}
use da_bao.Base.Int.{ℤ}
use da_bao.Cluster.{ParseArgv, Context, ClusterInfo, nodes_max}
use da_bao.Cluster.Text.{codes, strchr, strstr, between, atoi}
use da_bao.Base.Options.{◌>>=◌}

-- The loop of `from_str_to_cluster` on at most `fuel` lines. `heap i` is what the memory of the i-th
-- copy holds behind the copied characters: the search for "slave" runs before the terminator is
-- stored. `none` is a write behind the 50 entries of `argv`.
unfoldable pub lines_loop : (ℕ → List ℕ) → ℕ → ℕ → List ℕ → List (List ℕ) → Option (List (List ℕ))
unfolding strchr strstr
lines_loop heap zero i temp argv = none
lines_loop heap (suc fuel) i temp argv =
    if ltb (length argv) nodes_max
    then elim (strchr temp b'\n') [
      | none ↦ some argv
      | some point ↦
          let line = between temp point in
          elim (strstr (line ++ heap i) (codes "slave")) [
            | some _ ↦ lines_loop heap fuel (suc i) (drop 1 point) argv
            | none ↦ lines_loop heap fuel (suc i) (drop 1 point) (argv ++ (line ∷ []))
          ]
    ]
    else none

-- The lines, for `argv` and `len`. Each round takes a line end, so that the length is fuel enough.
unfoldable pub from_str_to_cluster : (ℕ → List ℕ) → List ℕ → Option (List (List ℕ))
unfolding lines_loop
from_str_to_cluster heap temp = lines_loop heap (suc (length temp)) 0 temp []

module _ {C : Type 0} where
  -- One round of `process_cluterInfo`. A pointer that is null is read at once: `none`.
  unfoldable pub process_node : List ℕ → Option (ParseArgv C)
  unfolding strchr strstr atoi
  process_node argv = do
    ip_space ← strchr argv b' '
    let ip_start = drop 1 ip_space
    port_colon ← strchr ip_start b':'
    let port_start = drop 1 port_colon
    port_end ← strchr port_start b' '
    connect_start ← strstr port_end (codes "connected")
    slot_space ← strchr connect_start b' '
    let slot_start = drop 1 slot_space
    slot_dash ← strchr slot_start b'-'
    some record {
      ip = between ip_start port_colon;
      link = Context.uninitialised;
      port = atoi (between port_start port_end);
      start_slot = atoi (between slot_start slot_dash);
      end_slot = atoi (drop 1 slot_dash);
      slots = λ _. none;
    }

  -- `process_cluterInfo`
  unfoldable pub process_cluter_info : List (List ℕ) → Option (List (ParseArgv C))
  unfolding process_node
  process_cluter_info [] = some []
  process_cluter_info (line ∷ argv) = do
    node ← process_node line
    parse ← process_cluter_info argv
    some (node ∷ parse)
