-- ===== src/Cluster/Nodes/Laws.antt =====
-- A description of a cluster that was printed is read back.
use mathlib.Core.List.{append-nil}
use da_bao.Base.{
  ℕ, ◌^◌, ◌<◌, ◌≡◌, ◌≢◌, refl, ap, sym, ◌∙◌, arith, List, [], ◌∷◌, ◌++◌, map, some, none, All,
}
use da_bao.Base.Decimal.{digits, IsDigit, digits-IsDigit}
use da_bao.Base.Int.{pos}
use da_bao.Cluster.{ParseArgv, Context}
use da_bao.Cluster.Text.{codes, strstr, scan, atoi}
use da_bao.Cluster.Text.Laws.{strchr-append, between-append, strstr-append, atoi-digits}
use da_bao.Cluster.Nodes.{process_node, process_cluter_info}

-- A master in the answer to `cluster nodes`: `flags` stands between the address and the word
-- "connected", `more` behind the first range of slots.
pub record Master : Type 0 where
  pub id : List ℕ
  pub ip : List ℕ
  pub port : ℕ
  pub flags : List ℕ
  pub start : ℕ
  pub end : ℕ
  pub more : List ℕ

-- The line of a master, without its end.
abbrev pub print_master : Master → List ℕ
print_master m =
    m.id
    ++ (b' '
        ∷ (m.ip
            ++ (b':'
                ∷ (digits 5 m.port
                    ++ (b' '
                        ∷ (m.flags
                            ++ (codes "connected"
                                ++ (b' '
                                    ∷ (digits 5 m.start
                                        ++ (b'-' ∷ (digits 5 m.end ++ m.more)))))))))))

-- What Redis promises of such a line.
pub record IsMaster (m : Master) : Type 0 where
  pub id_plain : All (λ x. x ≢ b' ') m.id
  pub ip_plain : All (λ x. x ≢ b':') m.ip
  pub port_fits : m.port < 10 ^ 5
  pub flags_plain : All (λ x. x ≢ b'c') m.flags
  pub start_fits : m.start < 10 ^ 5
  pub end_fits : m.end < 10 ^ 5
  pub more_stops : (n : ℕ) → scan n m.more ≡ n

digits_not_dash : (s : List ℕ) → All IsDigit s → All (λ x. x ≢ b'-') s
digits_not_dash [] h = tt
digits_not_dash (x ∷ s) h = (omega arith, digits_not_dash s h.1)

digits_not_space : (s : List ℕ) → All IsDigit s → All (λ x. x ≢ b' ') s
digits_not_space [] h = tt
digits_not_space (x ∷ s) h = (omega arith, digits_not_space s h.1)

atoi_decimal : (n : ℕ) → n < 10 ^ 5 → atoi (digits 5 n) ≡ pos n
unfolding scan
atoi_decimal n h =
    ap atoi (sym (append-nil (digits 5 n))) ∙ atoi-digits 4 n [] h (omega arith) (λ m. refl)

module _ {C : Type 0} where
  -- The node that a line stands for.
  abbrev pub node_of : Master → ParseArgv C
  node_of m = record {
    ip = m.ip;
    link = Context.uninitialised;
    port = pos m.port;
    start_slot = pos m.start;
    end_slot = pos m.end;
    slots = λ _. none;
  }

  -- The fields of a line, whatever digits stand in it.
  process_node_fields :
      (id ip port flags start rest : List ℕ)
      → All (λ x. x ≢ b' ') id
      → All (λ x. x ≢ b':') ip
      → All (λ x. x ≢ b' ') port
      → All (λ x. x ≢ b'c') flags
      → All (λ x. x ≢ b'-') start
      → process_node {C = C} (
          id
          ++ (b' '
              ∷ (ip
                  ++ (b':'
                      ∷ (port
                          ++ (b' '
                              ∷ (flags
                                  ++ (codes "connected" ++ (b' ' ∷ (start ++ (b'-' ∷ rest)))))))))))
        ≡ some record {
          ip = ip;
          link = Context.uninitialised;
          port = atoi port;
          start_slot = atoi start;
          end_slot = atoi rest;
          slots = λ _. none;
        }
  unfolding process_node
  process_node_fields id ip port flags start rest h0 h1 h2 h3 h4 =
      rw (strchr-append id text1 b' ' h0) (
        rw (strchr-append ip text2 b':' h1) (
          rw (strchr-append port text3 b' ' h2) (
            rw found (
              rw (strchr-append start rest b'-' h4) (λ i. some record {
                ip = between-append ip (b':' ∷ text2) i;
                link = Context.uninitialised;
                port = atoi (between-append port (b' ' ∷ text3) i);
                start_slot = atoi (between-append start (b'-' ∷ rest) i);
                end_slot = atoi rest;
                slots = λ _. none;
              })))))
    where
      text5 : List ℕ
      text5 = start ++ (b'-' ∷ rest)

      text4 : List ℕ
      text4 = b' ' ∷ text5

      text3 : List ℕ
      text3 = flags ++ (codes "connected" ++ text4)

      text2 : List ℕ
      text2 = port ++ (b' ' ∷ text3)

      text1 : List ℕ
      text1 = ip ++ (b':' ∷ text2)

      found : strstr (b' ' ∷ text3) (codes "connected") ≡ some (codes "connected" ++ text4)
      found = strstr-append (b' ' ∷ flags) (codes "onnected") text4 b'c' ((omega arith), h3)

  pub process_node-print_master :
      (m : Master) → IsMaster m → process_node (print_master m) ≡ some (node_of m)
  unfolding process_node
  process_node-print_master m h =
      process_node_fields m.id m.ip (digits 5 m.port) m.flags (digits 5 m.start)
        (digits 5 m.end ++ m.more) h.id_plain h.ip_plain
        (digits_not_space _ (digits-IsDigit 5 m.port)) h.flags_plain
        (digits_not_dash _ (digits-IsDigit 5 m.start))
      ∙ λ i. some record {
        ip = m.ip;
        link = Context.uninitialised;
        port = atoi_decimal m.port h.port_fits i;
        start_slot = atoi_decimal m.start h.start_fits i;
        end_slot = atoi-digits 4 m.end m.more h.end_fits (omega (arith, h.end_fits)) h.more_stops i;
        slots = λ _. none;
      }

  -- Lines printed for masters are read back as their addresses, ports and first ranges, if the
  -- fields of each fit, the identifier has no blank, the address no colon, the flags no letter c,
  -- and no digit follows the range.
  pub process_cluter_info-map :
      (masters : List Master)
      → All IsMaster masters
      → process_cluter_info (map print_master masters) ≡ some (map node_of masters)
  unfolding process_cluter_info
  process_cluter_info-map [] h = refl
  process_cluter_info-map (m ∷ masters) h =
      rw (process_node-print_master m h.0) (rw (process_cluter_info-map masters h.1) refl)
