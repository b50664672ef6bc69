-- ===== src/BlockProcessing/SerialTransactionValidator/Accepts.antt =====
-- What validation makes of a transaction, on every branch.
use mathlib.Core.Option
use speedex.Prelude.{◌≡◌, ◌⊎◌, Bool, true, false}
use speedex.Types.{is_success, SignedTransaction, Transaction}
use speedex.BlockProcessing.Interfaces.{Components}
use speedex.BlockProcessing.SerialTransactionHandler.{State}
use speedex.BlockProcessing.Outcomes.{Accepted, reserved, paid, with_fee}
use speedex.BlockProcessing.SerialTransactionValidator.Steps.{Rejected}

module _ (c : Components) (signed_tx : SignedTransaction) where
  abbrev tx : Transaction
  tx = signed_tx.transaction

  -- Accepted, or rejected.
  abbrev pub Validated : State c → State c → Bool → Type 0
  Validated s s' ok =
      ((ok ≡ true) × Accepted c signed_tx s s') ⊎ ((ok ≡ false) × Rejected c signed_tx s s')

  -- After the calls before the loop.
  module _ (source : c.Ptr) (s s' : State c) (ok : Bool)
      (granted : is_success (reserved c signed_tx source s).1 ≡ true)
      (charged : is_success (paid c signed_tx source s).1 ≡ true) where
    abbrev start : State c
    start = with_fee c signed_tx source s
