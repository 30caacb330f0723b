-- ===== src/Pool/Submit.antt =====
-- `ShieldedPool::submit`: the checks, then the changes. A nullifier that is spent already is found
-- only while the changes are made.
pub mod Tags
pub mod Recorded
pub mod Safety
pub mod Spends
pub mod Errors
use arm_noir.Prelude.{
  Bool, true, false, List, [], ◌∷◌, ◌++◌, Option, none, some, if◌then◌else◌, bytes_Eq, contains,
  insert,
}
use arm_noir.Circuit.{BarretenbergCircuit}
use arm_noir.Instance.{ResourceLogicInstance}
use arm_noir.Pool.Outcome.{Outcome, ok, err, panic, duplicate_nullifier}
use arm_noir.Pool.State.{Transaction, ShieldedPool, Backend, Proof, cmt_node_new, commitment_root}
use arm_noir.Pool.Check.{unsigned, validate}

module _ {F : Type 0} (backend : Backend F) where
  -- One logic instance: spend its nullifier (`none` if it is spent), or append its commitment.
  unfoldable pub record_logic : ResourceLogicInstance → ShieldedPool F → Option (ShieldedPool F)
  record_logic l self =
      if l.is_consumed
      then (if contains l.tag self.nullifiers
          then none
          else some (record self { nullifiers = insert l.tag self.nullifiers }))
      else some (record self { commitments = self.commitments ++ cmt_node_new backend l.tag ∷ [] })

  unfoldable pub record_logics :
      List (ResourceLogicInstance × Proof) → ShieldedPool F → ShieldedPool F × Outcome (Unit {0})
  unfolding record_logic
  record_logics [] self = (self, ok tt)
  record_logics ((l, _) ∷ ls) self = elim (record_logic l self) [
    | none ↦ (self, err duplicate_nullifier)
    | some self' ↦ record_logics ls self'
  ]

  -- The new anchor and the transaction.
  unfoldable pub record_transaction :
      Transaction F → ShieldedPool F → ShieldedPool F × Outcome (Unit {0})
  record_transaction tx self = elim (commitment_root backend self.commitments) [
    | none ↦ (self, panic)
    | some anchor ↦ (
      record self {
        anchors = insert anchor self.anchors;
        transactions = self.transactions ++ unsigned backend tx ∷ [];
      },
      ok tt,
    )
  ]

  -- The next step, unless the one before ended the call.
  unfoldable pub and_then :
      ShieldedPool F × Outcome (Unit {0})
      → (ShieldedPool F → ShieldedPool F × Outcome (Unit {0}))
      → ShieldedPool F × Outcome (Unit {0})
  and_then (self, panic) next = (self, panic)
  and_then (self, err e) next = (self, err e)
  and_then (self, ok _) next = next self

  unfoldable pub submit :
      ShieldedPool F → BarretenbergCircuit → Transaction F → ShieldedPool F × Outcome (Unit {0})
  unfolding validate record_logics record_transaction and_then
  submit self compliance_circuit tx =
      and_then (self, validate backend self compliance_circuit tx)
        (λ pool. and_then (record_logics tx.logic_instances pool) (record_transaction tx))
