-- ===== src/Cluster/Connect/Close.antt =====
-- Connections that are refused, and closing a cluster.
use da_bao.Base.{
  ℕ, zero, suc, ◌≤◌, ◌<◌, ◌≡◌, refl, ap, arith, Bool-cases, inl, inr, false, List, [], ◌∷◌, Option,
  some, none, All, length,
}
use da_bao.Cluster.{ParseArgv, Context, uninitialised, null, context, ClusterInfo, Hiredis}
use da_bao.Cluster.Text.Laws.{>>=-some, >>=-none}
use da_bao.Cluster.Connect.{
  command, add_context_to_cluster, free, remove_context, remove_context_from_cluster,
  global_disconnect, flush_nodes, flush_context, flush_db, disconnect_database,
}

module _ {C : Type 0} where
  -- The context of a node, by its index.
  abbrev pub link_at : List (ParseArgv C) → ℕ → Option (Context C)
  link_at [] k = none
  link_at (node ∷ parse) zero = some node.link
  link_at (node ∷ parse) (suc k) = link_at parse k

  abbrev pub IsFresh : ParseArgv C → Type 0
  IsFresh node = node.link ≡ uninitialised

  link_at_fresh :
      (parse : List (ParseArgv C)) (m : ℕ)
      → All IsFresh parse
      → m < length parse
      → link_at parse m ≡ some uninitialised
  link_at_fresh [] m h lt = absurd (omega arith)
  link_at_fresh (node ∷ parse) zero h lt = ap some h.0
  link_at_fresh (node ∷ parse) (suc m) h lt = link_at_fresh parse m h.1 (omega arith)

module _ {W C : Type 0} (hiredis : Hiredis W C) where
  -- A node that accepted stands before the others.
  accepted_first :
      (c : C) (node : ParseArgv C) (parse : List (ParseArgv C)) (k m size : ℕ)
      → ((k' m' : ℕ)
          → k' ≤ m'
          → m' < size
          → link_at parse k' ≡ some uninitialised
          → link_at parse m' ≡ some uninitialised)
      → k ≤ m
      → m < suc size
      → link_at (record node { link = context c } ∷ parse) k ≡ some uninitialised
      → link_at (record node { link = context c } ∷ parse) m ≡ some uninitialised
  accepted_first c node parse zero m size ih le lt e = cc
  accepted_first c node parse (suc k) zero size ih le lt e = absurd (omega arith)
  accepted_first c node parse (suc k) (suc m) size ih le lt e = ih k m (omega arith) (omega arith) e

  -- If a node of a list in which no node has a context is left without one, every later node is
  -- left without one.
  pub add_context_to_cluster_prefix :
      (parse : List (ParseArgv C)) (w : W) (k m : ℕ)
      → All IsFresh parse
      → k ≤ m
      → m < length parse
      → link_at (add_context_to_cluster hiredis parse w).0 k ≡ some uninitialised
      → link_at (add_context_to_cluster hiredis parse w).0 m ≡ some uninitialised
  unfolding add_context_to_cluster
  add_context_to_cluster_prefix [] w k m fresh le lt unlinked = absurd (omega arith)
  add_context_to_cluster_prefix (node ∷ parse) w k m fresh le lt unlinked =
      elim (Bool-cases (hiredis.err (hiredis.redis_connect node.ip node.port w).0)) [
        | inl refused ↦ rw refused (link_at_fresh (node ∷ parse) m fresh lt)
        | inr accepted ↦ rw accepted (
            accepted_first (hiredis.redis_connect node.ip node.port w).0 node _ k m (length parse)
              (λ k' m' le' lt'.
                add_context_to_cluster_prefix parse (hiredis.redis_connect node.ip node.port w).1 k'
                  m' fresh.1 le' lt')
              le lt (rw accepted at unlinked))
      ]

  -- What hiredis documents of a context that is freed.
  pub record IsFreeing : Type 0 where
    pub freed : (c : C) (w : W) → hiredis.alive (hiredis.redis_free c w) c ≡ false
    pub stays_freed :
        (c c' : C) (w : W)
        → hiredis.alive w c ≡ false
        → hiredis.alive (hiredis.redis_free c' w) c ≡ false

  module _ (freeing : IsFreeing) where
    free_freed :
        (w w' : W) (c c' : C)
        → hiredis.alive w c ≡ false
        → free hiredis c' w ≡ some w'
        → hiredis.alive w' c ≡ false
    unfolding free
    free_freed w w' c c' dead e = ground (arith, freeing.stays_freed c c' w dead)

    free_dead : (w w' : W) (c : C) → free hiredis c w ≡ some w' → hiredis.alive w' c ≡ false
    unfolding free
    free_dead w w' c e = ground (arith, freeing.freed c w)

    remove_context_freed :
        (link : Context C) (w w' : W) (c : C)
        → hiredis.alive w c ≡ false
        → remove_context hiredis link w ≡ some w'
        → hiredis.alive w' c ≡ false
    unfolding remove_context
    remove_context_freed uninitialised w w' c dead e = cc
    remove_context_freed null w w' c dead e = ground arith
    remove_context_freed (context c') w w' c dead e = free_freed w w' c c' dead e

    remove_context_from_cluster_freed :
        (parse : List (ParseArgv C)) (w w' : W) (c : C)
        → hiredis.alive w c ≡ false
        → remove_context_from_cluster hiredis parse w ≡ some w'
        → hiredis.alive w' c ≡ false
    unfolding remove_context_from_cluster
    remove_context_from_cluster_freed [] w w' c dead e = ground arith
    remove_context_from_cluster_freed (node ∷ parse) w w' c dead e =
        let (w1, e1, e2) =
          >>=-some (remove_context hiredis node.link w) (remove_context_from_cluster hiredis parse)
            e in
        remove_context_from_cluster_freed parse w1 w' c
          (remove_context_freed node.link w w1 c dead e1) e2

    -- The context of a node that was removed cannot be used.
    flush_context_freed :
        (link : Context C) (parse : List (ParseArgv C)) (w w1 w2 : W)
        → remove_context hiredis link w ≡ some w1
        → remove_context_from_cluster hiredis parse w1 ≡ some w2
        → flush_context hiredis link w2 ≡ none
    unfolding flush_context command remove_context free
    flush_context_freed uninitialised parse w w1 w2 e e' = refl
    flush_context_freed null parse w w1 w2 e e' = refl
    flush_context_freed (context c) parse w w1 w2 e e' =
        rw (remove_context_from_cluster_freed parse w1 w2 c (free_dead w w1 c e) e') refl

    -- `flushDb` after the contexts were removed uses the first of them.
    flush_freed :
        (parse : List (ParseArgv C)) (w w' : W)
        → 0 < length parse
        → remove_context_from_cluster hiredis parse w ≡ some w'
        → flush_nodes hiredis parse w' ≡ none
    unfolding flush_nodes remove_context_from_cluster
    flush_freed [] w w' h e = absurd (omega arith)
    flush_freed (node ∷ parse) w w' h e =
        let (w1, e1, e2) =
          >>=-some (remove_context hiredis node.link w) (remove_context_from_cluster hiredis parse)
            e in
        rw (flush_context_freed node.link parse w w1 w' e1 e2) refl

    -- If a context that is freed stays freed, disconnecting a cluster with at least one node never
    -- ends well: it uses a context that it has freed, one that was never stored or one that is
    -- null.
    pub disconnect_database-none :
        (cluster : ClusterInfo C) (w : W)
        → 0 < length cluster.parse
        → disconnect_database hiredis cluster w ≡ none
    unfolding disconnect_database flush_db
    disconnect_database-none cluster w h =
        >>=-none (global_disconnect hiredis cluster w) _ (λ closed _.
          >>=-none (remove_context_from_cluster hiredis cluster.parse closed) _
            (λ removed e. rw (flush_freed cluster.parse closed removed h e) refl))
