-- ===== src/Raft/Linearizable/InStep.antt =====
-- What metadata the node has at each step of processApplyCh.
use chronus.Base.{ℕ, suc, ◌≤◌, ◌≡◌, refl, ap, Bool, true, false, arith}
use chronus.Raft.Linearizable.{
  Log, after_entries, Phase, ready, executed, restoring, Replica, NodeStep, execute, set_index,
  restore_data, restore_index, node_step,
}

-- Does a restored snapshot's index stand without its data?
unfoldable pub is_restoring : Phase → Bool
is_restoring ready = false
is_restoring executed = false
is_restoring restoring = true

-- No restored snapshot's index stands without its data.
abbrev pub IsSettled : {D : Type 0} → Replica D → Type 0
IsSettled r = is_restoring r.phase ≡ false

module _ {D : Type 0} (log : Log D) where
  -- The metadata is what the entries up to the applied index make, or up to the one that was executed.
  abbrev pub InStep : Replica D → Phase → Type 0
  InStep r ready = r.metadata ≡ after_entries log r.applied
  InStep r executed = r.metadata ≡ after_entries log (suc r.applied)
  InStep r restoring = Unit

  pub node_step-InStep :
      (a : NodeStep) (p : Phase) (r : Replica D)
      → r.phase ≡ p
      → InStep r p
      → InStep (node_step log a p r) (node_step log a p r).phase
  unfolding node_step after_entries
  node_step-InStep execute ready r at h = ap (log.effect (suc r.applied)) h
  node_step-InStep execute executed r at h = rw at h
  node_step-InStep execute restoring r at h = rw at tt
  node_step-InStep set_index executed r at h = h
  node_step-InStep set_index ready r at h = rw at h
  node_step-InStep set_index restoring r at h = rw at tt
  node_step-InStep (restore_index n) ready r at h = tt
  node_step-InStep (restore_index n) executed r at h = rw at h
  node_step-InStep (restore_index n) restoring r at h = rw at tt
  node_step-InStep restore_data restoring r at h = refl
  node_step-InStep restore_data ready r at h = rw at h
  node_step-InStep restore_data executed r at h = rw at h

  -- The index never goes back.
  pub node_step_grows :
      (a : NodeStep) (p : Phase) (r : Replica D) → r.applied ≤ (node_step log a p r).applied
  unfolding node_step
  node_step_grows execute ready r = omega arith
  node_step_grows execute executed r = omega arith
  node_step_grows execute restoring r = omega arith
  node_step_grows set_index executed r = omega arith
  node_step_grows set_index ready r = omega arith
  node_step_grows set_index restoring r = omega arith
  node_step_grows (restore_index n) ready r = omega arith
  node_step_grows (restore_index n) executed r = omega arith
  node_step_grows (restore_index n) restoring r = omega arith
  node_step_grows restore_data restoring r = omega arith
  node_step_grows restore_data ready r = omega arith
  node_step_grows restore_data executed r = omega arith

  -- The metadata is what the first entries of the log make, and these are no fewer than `c`.
  abbrev pub IsFresh : ℕ → Replica D → Type 0
  IsFresh c r = (j : ℕ) × (c ≤ j) × (r.metadata ≡ after_entries log j)

  -- But behind a snapshot's index, the metadata is as new as the index says.
  pub InStep-current :
      (p : Phase) (r : Replica D) (c : ℕ)
      → InStep r p
      → is_restoring p ≡ false
      → c ≤ r.applied
      → IsFresh c r
  unfolding is_restoring
  InStep-current ready r c h calm enough = (r.applied, enough, h)
  InStep-current executed r c h calm enough = (suc r.applied, omega (arith, enough), h)
  InStep-current restoring r c h calm enough = cc (calm)
