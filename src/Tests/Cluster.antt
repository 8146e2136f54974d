-- ===== src/Tests/Cluster.antt =====
-- A cluster of two masters and a slave, behind a hiredis that is a function.
use da_bao.Base.{
  ℕ, suc, ◌≤◌, ◌≡◌, ◌≢◌, refl, ap₂, arith, ==_iff, Bool, Bool-cases, inl, inr, true, false, ◌&&◌,
  not, List, [], ◌∷◌, map, Option, some, none, All, length, ltb, ◌==◌, if◌then◌else◌,
}
use da_bao.Base.Int.{pos}
use da_bao.Cluster.{
  ParseArgv, uninitialised, context, ClusterInfo, ReplyType, RedisReply, RedisCommand,
  cluster_nodes, set_command, get_command, flushdb, Hiredis,
}
use da_bao.Cluster.Text.{codes, strstr, starts_with, scan}
use da_bao.Cluster.Nodes.{from_str_to_cluster}
use da_bao.Cluster.Nodes.Laws.{Master, IsMaster, print_master, node_of}
use da_bao.Cluster.Nodes.Lines.{print_lines, without_slaves, line_ends, from_str_to_cluster-ends}
use da_bao.Cluster.Slots.{assign_slot}
use da_bao.Cluster.Slots.Laws.{Fits, plain, owner, assign_slot_lem}
use da_bao.Cluster.Connect.{add_context_to_cluster, connect_cluster, disconnect_database}
use da_bao.Cluster.Connect.Laws.{IsAccepting, Describes, route_of, connect_cluster-IsServing}
use da_bao.Cluster.Connect.Close.{link_at, IsFreeing, disconnect_database-none}
use da_bao.Cluster.Command.{redis_of}
use da_bao.Cluster.Command.Laws.{answer, IsKeyValue, IsServing, redis_of-IsStore}
use da_bao.Server.Database.{same_text}
use da_bao.Server.Database.Laws.{IsStore, same_text_refl}

abbrev north : Master
north = record {
  id = codes "07c37df";
  ip = codes "10.0.0.1";
  port = 30001;
  flags = codes "myself,master - 0 0 1 ";
  start = 0;
  end = 8191;
  more = codes " 9-10";
}

abbrev south : Master
south = record {
  id = codes "67ed2db";
  ip = codes "10.0.0.2";
  port = 30002;
  flags = codes "master - 0 14262 2 ";
  start = 8192;
  end = 16383;
  more = [];
}

abbrev masters : List Master
masters = north ∷ south ∷ []

abbrev lines : List (List ℕ)
lines =
    print_master north
    ∷ codes "292f8b3 10.0.0.3:30003 slave 67ed2db 0 14262 3 connected"
    ∷ print_master south
    ∷ []

north-IsMaster : IsMaster north
unfolding scan
north-IsMaster = record {
  id_plain = ground arith;
  ip_plain = ground arith;
  port_fits = omega arith;
  flags_plain = ground arith;
  start_fits = omega arith;
  end_fits = omega arith;
  more_stops = λ n. refl;
}

south-IsMaster : IsMaster south
unfolding scan
south-IsMaster = record {
  id_plain = ground arith;
  ip_plain = ground arith;
  port_fits = omega arith;
  flags_plain = ground arith;
  start_fits = omega arith;
  end_fits = omega arith;
  more_stops = λ n. refl;
}

masters_kept : without_slaves lines ≡ map print_master masters
unfolding strstr starts_with
masters_kept = refl

whole : All (All (λ x. x ≢ b'\n')) lines
whole = ground arith

abbrev heap : ℕ → List ℕ
heap i = []

no_heap : (i : ℕ) → heap i ≡ []
no_heap i = refl

from_str_to_cluster-ends_example :
    (argv : List (List ℕ)) × (from_str_to_cluster heap (print_lines lines) ≡ some argv)
    × (length argv ≤ line_ends (print_lines lines))
from_str_to_cluster-ends_example = from_str_to_cluster-ends heap (print_lines lines) (omega arith)

-- Contexts are numbered in the order in which they are connected; all nodes share one store.
record World : Type 0 where
  next : ℕ
  closed : ℕ → Bool
  store : List ℕ → Option (List ℕ)

both : (a b : Bool) → (a && b) ≡ true → (a ≡ true) × (b ≡ true)
both true b e = (refl, e)
both false b e = cc

same_text→eq : (s t : List ℕ) → same_text s t ≡ true → s ≡ t
unfolding same_text
same_text→eq [] [] e = refl
same_text→eq [] (y ∷ t) e = cc
same_text→eq (x ∷ s) [] e = cc
same_text→eq (x ∷ s) (y ∷ t) e =
    let (first, rest) = both (x == y) (same_text s t) e in
    ap₂ (λ z zs. z ∷ zs) ((==_iff x y).0 first) (same_text→eq s t rest)

abbrev run : RedisCommand → World → Option RedisReply × World
run cluster_nodes w = (some record { type = ReplyType.reply_string; str = print_lines lines }, w)
run (set_command key value) w = (
  some record { type = ReplyType.reply_status; str = codes "OK" },
  record w { store = λ key'. if same_text key key' then some value else w.store key' },
)
run (get_command key) w = (some (answer (w.store key)), w)
run flushdb w = (some record { type = ReplyType.reply_status; str = codes "OK" }, w)

abbrev hiredis : Hiredis World ℕ
hiredis = record {
  redis_connect = λ ip port w. (
    w.next,
    record w { next = suc w.next; closed = λ c. if w.next == c then false else w.closed c },
  );
  err = λ c. false;
  alive = λ w c. ltb c w.next && not (w.closed c);
  redis_free = λ c w. record w { closed = λ c'. if c == c' then true else w.closed c' };
  redis_command = λ c. run;
  crc16 = length;
}

abbrev world : World
world = record { next = 0; closed = λ c. false; store = λ key. none }

hiredis-IsAccepting : IsAccepting hiredis
hiredis-IsAccepting = record {
  accepts = λ ip port w. refl;
  connect_alive = λ ip port w. ground arith;
  connect_keeps = λ ip port w c h. ground arith;
}

described_masters : Describes ℕ lines masters
described_masters = record {
  whole_lines = whole;
  master_lines = masters_kept;
  few = omega arith;
  are_masters = (north-IsMaster, (south-IsMaster, tt));
  in_table = ((omega arith, omega arith), ((omega arith, omega arith), tt));
  covered = λ j h. ground arith;
}

connect_cluster-IsServing_example :
    (cluster : ClusterInfo ℕ) × (w' : World) × (connect_cluster hiredis heap
        (codes "10.0.0.1")
        (pos 30001)
        world
      ≡ some (cluster, w'))
    × IsServing hiredis cluster (route_of hiredis cluster) w'
connect_cluster-IsServing_example =
    connect_cluster-IsServing hiredis hiredis-IsAccepting heap (codes "10.0.0.1") (pos 30001) world
      lines masters no_heap described_masters (λ c w. refl)

hiredis-IsKeyValue : IsKeyValue hiredis (λ w c. w.store)
hiredis-IsKeyValue = record {
  set_reply = λ w c key value. refl;
  get_reply = λ w c key. refl;
  stored_self = λ w c key value. rw (same_text_refl key) refl;
  stored_other = λ w c c' key key' value ne. elim (Bool-cases (same_text key key')) [
    | inl same ↦ absurd (ne (same_text→eq key key' same))
    | inr differs ↦ rw differs refl
  ];
  set_alive = λ w c c' key value. refl;
}

abbrev connected : ClusterInfo ℕ
connected = connect_cluster-IsServing_example.0

redis_of-IsStore_example :
    IsStore (redis_of hiredis connected) (IsServing hiredis connected (route_of hiredis connected))
redis_of-IsStore_example =
    redis_of-IsStore hiredis (λ w c. w.store) hiredis-IsKeyValue connected
      (route_of hiredis connected)

hiredis-IsFreeing : IsFreeing hiredis
hiredis-IsFreeing = record {
  freed = λ c w. ground arith;
  stays_freed = λ c c' w dead. ground arith;
}

-- The second of three nodes refuses the connection.
abbrev refusing : Hiredis World ℕ
refusing = record hiredis { err = λ c. c == 1 }

abbrev nodes : List (ParseArgv ℕ)
nodes = node_of north ∷ node_of south ∷ node_of south ∷ []

refused : link_at (add_context_to_cluster refusing nodes world).0 1 ≡ some uninitialised
unfolding add_context_to_cluster
refused = refl

abbrev parsed : ClusterInfo ℕ
parsed = record {
  len = 2;
  argv = map print_master masters;
  parse = map node_of masters;
  slot_to_host = λ j. none;
  global_context = 0;
}

fits : All (Fits {C = ℕ}) (map node_of masters)
fits = (
  record {
    first = 0;
    last = 8191;
    first_lem = refl;
    last_lem = refl;
    ordered = omega arith;
    fits = omega arith;
  },
  (
    record {
      first = 8192;
      last = 16383;
      first_lem = refl;
      last_lem = refl;
      ordered = omega arith;
      fits = omega arith;
    },
    tt,
  ),
)

assign_slot_lem_example :
    (cluster' : ClusterInfo ℕ) × (assign_slot parsed ≡ some cluster')
    × (map plain cluster'.parse ≡ map plain parsed.parse)
    × ((j : ℕ) → cluster'.slot_to_host j ≡ owner 0 parsed.parse j none)
assign_slot_lem_example = assign_slot_lem parsed fits

-- Context 0 asked for the nodes, context 1 is connected to the first of them.
abbrev opened : ClusterInfo ℕ
opened = record parsed { parse = record (node_of north) { link = context 1 } ∷ [] }

abbrev two_open : World
two_open = record world { next = 2 }

disconnect_database-none_example : disconnect_database hiredis opened two_open ≡ none
disconnect_database-none_example =
    disconnect_database-none hiredis hiredis-IsFreeing opened two_open (omega arith)
