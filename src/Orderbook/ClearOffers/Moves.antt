-- ===== src/Orderbook/ClearOffers/Moves.antt =====
-- The order in which offers are cleared does not matter to the accounts and the log.
use mathlib.Core.Option
use speedex.Prelude.{
  ℕ, ◌≡◌, refl, subst, ◌∙◌, ◌||◌, ◌==◌, [], ◌∷◌, Option, none, some, Bool-cases, Option-cases, inl,
  inr,
}
use speedex.Prelude.Int.{ℤ}
use speedex.Types.{Offer}
use speedex.Price.{a_over_b_lt_c}
use speedex.Orderbook.Clearing.{clear_offer_full}
use speedex.Orderbook.Interfaces.{Entries, Accounts, AccountsLaws}
use speedex.Orderbook.ClearOffers.{complete_clearing, clear_all}

module _ (a : Accounts) (laws : AccountsLaws a) (sell_price buy_price tax_rate : ℕ) where
  abbrev complete : Offer → a.Db × a.Log → Option (a.Db × a.Log)
  complete = complete_clearing a sell_price buy_price tax_rate

  abbrev all : Entries → a.Db × a.Log → Option (a.Db × a.Log)
  all = clear_all a sell_price buy_price tax_rate

  module _ (p : a.Ptr) (asset : ℕ) (x : ℤ) (owner id : ℕ) where
    -- A transfer and a log entry.
    abbrev pub move : a.Db × a.Log → a.Db × a.Log
    move (db, log) = (a.transfer_available db p asset x, a.log_self_modification log owner id)

    complete-move :
        (o : Offer) (s : a.Db × a.Log) → complete o (move s) ≡ Option.map move (complete o s)
    unfolding complete_clearing clear_offer_full
    complete-move o (db, log) =
        elim (Bool-cases (a_over_b_lt_c sell_price buy_price o.min_price || o.amount == 0)) [
          | inl bad ↦ rw bad refl
          | inr good ↦ elim (Option-cases (a.lookup_user db o.owner)) [
            | inl nobody ↦ rw (good, laws.lookup_transfer db p asset o.owner x, nobody) refl
            | inr (idx, found) ↦
                rw
                  (
                    good,
                    laws.lookup_transfer db p asset o.owner x,
                    found,
                    laws.transfer_comm db p idx asset o.category.buy_asset x _,
                    laws.log_comm log owner o.owner id o.offer_id,
                  )
                  refl
          ]
        ]

    -- A transfer may be made after the clearing in place of before it.
    pub clear_all-move :
        (es : Entries) (s : a.Db × a.Log) → all es (move s) ≡ Option.map move (all es s)
    unfolding clear_all
    clear_all-move [] s = refl
    clear_all-move ((key, o) ∷ es) s = elim (Option-cases (complete o s)) [
      | inl failed ↦ rw (complete-move o s, failed, clear_all) refl
      | inr (next, done) ↦ rw (complete-move o s, done, clear_all) (clear_all-move es next)
    ]

  -- The clearing moves no account.
  abbrev pub SameUsers : a.Db → Option (a.Db × a.Log) → Type 0
  SameUsers db none = Unit
  SameUsers db (some (db', log')) = (owner : ℕ) → a.lookup_user db' owner ≡ a.lookup_user db owner

  complete-SameUsers : (o : Offer) (db : a.Db) (log : a.Log) → SameUsers db (complete o (db, log))
  unfolding complete_clearing clear_offer_full
  complete-SameUsers o db log =
      elim (Bool-cases (a_over_b_lt_c sell_price buy_price o.min_price || o.amount == 0)) [
        | inl bad ↦ rw bad tt
        | inr good ↦ elim (Option-cases (a.lookup_user db o.owner)) [
          | inl nobody ↦ rw (good, nobody) tt
          | inr (idx, found) ↦
              rw (good, found) (λ owner. laws.lookup_transfer db idx o.category.buy_asset owner _)
        ]
      ]

  then_SameUsers :
      (db : a.Db) (next : a.Db × a.Log) (r : Option (a.Db × a.Log))
      → SameUsers db (some next)
      → SameUsers next.0 r
      → SameUsers db r
  then_SameUsers db next none first rest = tt
  then_SameUsers db (db', log') (some (db'', log'')) first rest = λ owner. rest owner ∙ first owner

  pub clear_all-SameUsers : (es : Entries) (s : a.Db × a.Log) → SameUsers s.0 (all es s)
  unfolding clear_all
  clear_all-SameUsers [] (db, log) = λ owner. refl
  clear_all-SameUsers ((key, o) ∷ es) (db, log) = elim (Option-cases (complete o (db, log))) [
    | inl failed ↦ rw (failed, clear_all) tt
    | inr (next, done) ↦
        let first : SameUsers db (some next) =
          subst (SameUsers db) done (complete-SameUsers o db log) in
        rw (done, clear_all)
          (then_SameUsers db next (all es next) first (clear_all-SameUsers es next))
  ]
