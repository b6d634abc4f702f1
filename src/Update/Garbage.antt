-- ===== src/Update/Garbage.antt =====
-- yrs/src/block.rs: `TransactionMut::integrate_gc` and `TransactionMut::integrate_skip`, without offset,
-- and the transaction as the loop of `Update::integrate` uses it for an update of garbage, whose blocks
-- have no dependencies. An item in such an update has no integration here.
use y_crdt.Common.{ℕ, Option, none, some}
use y_crdt.Encoding.{Result, ok, err, panic, ◌>>=◌}
use y_crdt.Ids.{Merge}
use y_crdt.IdMap.{IdMap}
use y_crdt.IdMap.Build.{insert_id}
use y_crdt.BlockStore.{BlockStore, gc, skip_block, push, get_clock}
use y_crdt.Update.{Target}

-- What the integration of garbage changes of a transaction.
pub record Transaction : Type 0 where
  pub blocks : BlockStore
  pub delete_set : IdMap Unit
  pub insert_set : IdMap Unit

abbrev pub result {ℓ} : {A : Type ℓ} → Result A → Option A
result (ok a) = some a
result (err e) = none
result panic = none

-- The instance is that of the values of an `IdSet`.
module _ ⦃m : Merge Unit⦄ where
  unfoldable pub integrate_gc : Transaction → ℕ → ℕ → ℕ → Result Transaction
  integrate_gc t client clock len = insert_id t.delete_set client clock len >>= (λ deleted.
      insert_id t.insert_set client clock len >>= (λ inserted.
        push t.blocks client (record { clock = clock; len = len; kind = gc }) >>= (λ pushed.
          ok (record { blocks = pushed; delete_set = deleted; insert_set = inserted }))))

  unfoldable pub integrate_skip : Transaction → ℕ → ℕ → ℕ → Result Transaction
  integrate_skip t client clock len = insert_id t.blocks.skips client clock len >>= (λ skips.
      push (record t.blocks { skips = skips }) client (skip_block clock len)
      >>= (λ pushed. ok (record t { blocks = pushed })))

  -- The clock of a client. Whether its sum overflows is tested before the dependencies of a block.
  abbrev noted_clock : BlockStore → ℕ → ℕ
  noted_clock blocks client = elim (get_clock blocks client) [
    | ok clock ↦ clock
    | err e ↦ 0
    | panic ↦ 0
  ]

  abbrev pub garbage : Target Transaction
  garbage = record {
    get_clock = λ t client. noted_clock t.blocks client;
    missing_dependency = λ t b. result (get_clock t.blocks b.client >>= (λ clock. ok (none, t)));
    integrate_skip = λ t client clock len. result (integrate_skip t client clock len);
    integrate_block = λ t b. result (integrate_gc t b.client b.clock b.len);
  }
