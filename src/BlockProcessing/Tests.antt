-- ===== src/BlockProcessing/Tests.antt =====
-- Transactions on the views of a small database: production's, which buffers what accounts receive,
-- and validation's, which does not. A view is `none` once it has thrown an error.
use mathlib.Core.Option
use speedex.Prelude.{
  ℕ, ◌+◌, ◌^◌, ◌≡◌, refl, Bool, true, false, if◌then◌else◌, ◌==◌, ◌&&◌, not, Option, none, some,
  ◌⊎◌, List, [], ◌∷◌, inl, inr,
}
use speedex.Prelude.Int.{ℤ, pos}
use speedex.Types.{
  TransactionProcessingStatus, insufficient_balance, new_account_already_exists, OfferCategory,
  Offer, SignedTransaction, Operation, create_sell_offer, cancel_sell_offer, payment,
}
use speedex.MemoryDatabase.RevertableAsset.{of_amount}
use speedex.MemoryDatabase.UserAccount.{UserAccount, new_account}
use speedex.MemoryDatabase.MemoryDatabase.{CommitmentTrie, MemoryDatabase}
use speedex.MemoryDatabase.MemoryDatabase
use speedex.MemoryDatabase.MemoryDatabaseView.{
  UserAccountPtr, stored, AccountCreationView, new_creation_view, unbuffered_escrow,
  unbuffered_transfer_available, commit_creation_view, unwind_creation_view,
}
use speedex.MemoryDatabase.MemoryDatabaseView
use speedex.MemoryDatabase.MemoryDatabaseView.Buffered.{BufferedMemoryDatabaseView}
use speedex.MemoryDatabase.MemoryDatabaseView.Buffered
use speedex.BlockProcessing.Interfaces.{Components, no_stats}
use speedex.BlockProcessing.SerialTransactionHandler.{State}
use speedex.BlockProcessing.SerialTransactionProcessor.{process_transaction}
use speedex.BlockProcessing.SerialTransactionProcessor.Handled.{Handled}
use speedex.BlockProcessing.SerialTransactionValidator.{validate_transaction}

abbrev no_trie : CommitmentTrie
no_trie = record {
  Trie = Unit;
  trie_insert = λ id commitment trie. trie;
  perform_deletion = λ id trie. trie;
}

-- Account 7 has 200 units of asset 0.
abbrev database : MemoryDatabase no_trie
database = record {
  user_id_to_idx_map = (7, 0) ∷ (9, 1) ∷ [];
  reserved_account_ids = [];
  database =
      record (new_account 7 70) { owned_assets = of_amount (pos 200) ∷ [] } ∷ new_account 9 90 ∷ [];
  uncommitted_db = [];
  commitment_trie = tt;
  account_creation_thunks = [];
}

abbrev Base : Type 0
Base = AccountCreationView no_trie

abbrev Buffer : Type 0
Buffer = BufferedMemoryDatabaseView no_trie

abbrev buffer : Base → Buffer
buffer base = record { base = base; accounts = [] }

-- The answer of a call of a view.
abbrev answer :
    {V : Type 0}
    → Option V
    → (V → Option (V × TransactionProcessingStatus))
    → Option V × TransactionProcessingStatus
answer v call = elim (Option.bind v call) [
  | none ↦ (none, insufficient_balance)
  | some (v', status) ↦ (some v', status)
]

abbrev create :
    {V : Type 0}
    → Option V
    → (V → V × (TransactionProcessingStatus ⊎ UserAccountPtr))
    → Option V × (TransactionProcessingStatus ⊎ UserAccountPtr)
create none call = (none, inl new_account_already_exists)
create (some v) call = let (v', made) = call v in (some v', made)

abbrev in_base :
    Buffer
    → Option (Base × TransactionProcessingStatus)
    → Option (Buffer × TransactionProcessingStatus)
in_base v r = Option.map (λ x. (record v { base = x.0 }, x.1)) r

-- The new offers, and whether the one offer of the book, number 5, is deleted.
record Book : Type 0 where
  new_offers : List Offer
  deleted : Bool

abbrev sell_0_for_1 : OfferCategory
sell_0_for_1 = record { sell_asset = 0; buy_asset = 1; offer_type = 0 }

abbrev offer_5 : Offer
offer_5 = record {
  category = sell_0_for_1;
  offer_id = 5;
  owner = 7;
  amount = 40;
  min_price = 2 ^ 24;
}

abbrev remove : ℕ → List Offer → List Offer
remove id [] = []
remove id (o ∷ os) = if o.offer_id == id then os else o ∷ remove id os

abbrev delete_5 : Book → ℕ → Book × Option Offer
delete_5 b id =
    if (id == 5) && not b.deleted then (record b { deleted = true }, some offer_5) else (b, none)

abbrev stored_user : ℕ → Option UserAccountPtr
stored_user id = Option.map stored (MemoryDatabase.lookup_user no_trie database id)

abbrev log : List ℕ → SignedTransaction → List ℕ
log l tx = tx.transaction.metadata.sequence_number ∷ l

abbrev production : Components
production = record {
  View = Option Buffer;
  Ptr = UserAccountPtr;
  Manager = Book;
  Log = List ℕ;
  stored_user = stored_user;
  get_pk = λ p. 0;
  lookup_user = λ v id. Option.bind v (λ b. MemoryDatabaseView.lookup_user no_trie b.base id);
  create_new_account = λ v id pk. create v (λ b.
      let (base, made) = MemoryDatabaseView.create_new_account no_trie b.base id pk in
      (record b { base = base }, made));
  escrow = λ v p asset amount. answer v (λ b. Buffered.escrow no_trie b p asset amount);
  transfer_available =
      λ v p asset amount. answer v (λ b. Buffered.transfer_available no_trie b p asset amount);
  reserve_sequence_number = λ v p n.
      answer v (λ b. in_base b (MemoryDatabaseView.reserve_sequence_number no_trie b.base p n));
  commit = λ v. Option.bind v (λ b. Option.map buffer (Buffered.commit no_trie b));
  unwind =
      λ v. Option.bind v (λ b. Option.map (λ base. some (buffer base)) (Buffered.unwind no_trie b));
  validate_category = λ category. category.offer_type == 0;
  look_up_idx = λ category. if category.offer_type == 0 then some 0 else none;
  add_offer = λ m v l i o. (record m { new_offers = o ∷ m.new_offers }, v, l);
  unwind_add_offer = λ m i o. record m { new_offers = remove o.offer_id m.new_offers };
  delete_offer = λ m i price owner id. delete_5 m id;
  undelete_offer = λ m i price owner id. record m { deleted = false };
  maintain_account_log = true;
  log_new_self_transaction = log;
  log_other_modification = λ l owner n other. other ∷ l;
  check_sigs = false;
  sig_check = λ tx signature pk. false;
}

abbrev validation : Components
validation = record {
  View = Option Base;
  Ptr = UserAccountPtr;
  Manager = Book;
  Log = List ℕ;
  stored_user = stored_user;
  get_pk = λ p. 0;
  lookup_user = λ v id. Option.bind v (λ b. MemoryDatabaseView.lookup_user no_trie b id);
  create_new_account =
      λ v id pk. create v (λ b. MemoryDatabaseView.create_new_account no_trie b id pk);
  escrow = λ v p asset amount. answer v (λ b. unbuffered_escrow no_trie b p asset amount);
  transfer_available =
      λ v p asset amount. answer v (λ b. unbuffered_transfer_available no_trie b p asset amount);
  reserve_sequence_number =
      λ v p n. answer v (λ b. MemoryDatabaseView.reserve_sequence_number no_trie b p n);
  commit = λ v. Option.bind v (commit_creation_view no_trie);
  unwind = λ v. Option.map some (Option.bind v (unwind_creation_view no_trie));
  validate_category = λ category. category.offer_type == 0;
  look_up_idx = λ category. if category.offer_type == 0 then some 0 else none;
  add_offer = λ m v l i o. (record m { new_offers = o ∷ m.new_offers }, v, l);
  unwind_add_offer = λ m i o. record m { new_offers = remove o.offer_id m.new_offers };
  delete_offer = λ m i price owner id. delete_5 m id;
  undelete_offer = λ m i price owner id. record m { deleted = false };
  maintain_account_log = true;
  log_new_self_transaction = log;
  log_other_modification = λ l owner n other. other ∷ l;
  check_sigs = false;
  sig_check = λ tx signature pk. false;
}

abbrev produced : State production
produced = record {
  manager = record { new_offers = []; deleted = false };
  view = some (buffer (new_creation_view no_trie database));
  log = [];
  local_stats = no_stats;
  block_stats = no_stats;
}

abbrev received : State validation
received = record {
  manager = record { new_offers = []; deleted = false };
  view = some (new_creation_view no_trie database);
  log = [];
  local_stats = no_stats;
  block_stats = no_stats;
}

abbrev transaction : List Operation → SignedTransaction
transaction ops = record {
  transaction = record {
    metadata = record { source_account = 7; sequence_number = 512 };
    operations = ops;
    max_fee = 100;
  };
  signature = 0;
}

abbrev sell_100 : Operation
sell_100 =
    create_sell_offer (record { category = sell_0_for_1; amount = pos 100; min_price = 2 ^ 24 })

abbrev cancel_5 : Operation
cancel_5 = cancel_sell_offer (record { category = sell_0_for_1; offer_id = 5; min_price = 2 ^ 24 })

abbrev pay : ℕ → Operation
pay amount = payment (record { receiver = 9; asset = 0; amount = pos amount })

-- A sale, a cancellation and a payment that the account cannot make.
abbrev overdrawn : SignedTransaction
overdrawn = transaction (sell_100 ∷ cancel_5 ∷ pay 1000 ∷ [])

abbrev affordable : SignedTransaction
affordable = transaction (sell_100 ∷ cancel_5 ∷ pay 50 ∷ [])

-- The state that a call returns.
abbrev state_of : {S A : Type 0} → S → Option (S × A) → S
state_of start none = start
state_of start (some (s, a)) = s

abbrev result_of : {S A : Type 0} → Option (S × A) → Option A
result_of none = none
result_of (some (s, a)) = some a

-- Production refuses a payment that the account cannot make, and puts the offers back.
abbrev refused : State production
refused = state_of produced (process_transaction production overdrawn produced)

overdrawn_refused :
    result_of (process_transaction production overdrawn produced) ≡ some insufficient_balance
unfolding process_transaction Option.bind MemoryDatabaseView.reserve_sequence_number
    speedex.MemoryDatabase.UserAccount.reserve_sequence_number
    speedex.MemoryDatabase.SequenceTracker.reserve_sequence_number
    speedex.MemoryDatabase.SequenceTracker.uint64_get_seq_num_offset Buffered.transfer_available
    speedex.MemoryDatabase.UserAccountView.transfer_available speedex.Prelude.Int.add64
    speedex.Prelude.Int.wrap64 speedex.Prelude.Int.◌+ℤ◌ speedex.Prelude.Int.neg64
    speedex.Prelude.Int.◌-ℤ◌ speedex.MemoryDatabase.UserAccount.conditional_transfer_available
    speedex.MemoryDatabase.RevertableAsset.conditional_transfer_available
    speedex.BlockProcessing.SerialTransactionHandler.process_create_sell_offer Buffered.escrow
    speedex.BlockProcessing.SerialTransactionHandler.process_cancel_sell_offer
    speedex.BlockProcessing.SerialTransactionHandler.process_payment
    speedex.BlockProcessing.SerialTransactionProcessor.unwind_cancel_sell_offer
    speedex.BlockProcessing.SerialTransactionProcessor.unwind_create_sell_offer
    speedex.MemoryDatabase.UserAccount.conditional_escrow
    speedex.MemoryDatabase.RevertableAsset.conditional_escrow
    speedex.MemoryDatabase.UserAccountView.conditional_escrow MemoryDatabaseView.lookup_user
    Buffered.unwind speedex.Prelude.Int.sub64
    speedex.MemoryDatabase.UserAccount.release_sequence_number
    speedex.MemoryDatabase.SequenceTracker.release_sequence_number
    speedex.MemoryDatabase.UserAccountView.unwind
    speedex.MemoryDatabase.UserAccount.transfer_available
overdrawn_refused = refl

-- Validation accepts it: the balance below 0 is for the end of the block to find.
abbrev accepted : State validation
accepted = state_of received (validate_transaction validation overdrawn received)

overdrawn_accepted : result_of (validate_transaction validation overdrawn received) ≡ some true
unfolding validate_transaction Option.bind MemoryDatabaseView.reserve_sequence_number
    speedex.MemoryDatabase.UserAccount.reserve_sequence_number
    speedex.MemoryDatabase.SequenceTracker.reserve_sequence_number
    speedex.MemoryDatabase.SequenceTracker.uint64_get_seq_num_offset unbuffered_transfer_available
    speedex.BlockProcessing.SerialTransactionHandler.process_create_sell_offer unbuffered_escrow
    speedex.BlockProcessing.SerialTransactionHandler.process_cancel_sell_offer
    speedex.BlockProcessing.SerialTransactionHandler.process_payment MemoryDatabaseView.lookup_user
overdrawn_accepted = refl
