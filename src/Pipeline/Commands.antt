-- ===== src/Pipeline/Commands.antt =====
-- Commands applied to a well-formed book, as the consumer of bench/bench_pipeline.cpp does.
use mathlib.Core.Path.{subst, subst₂}
use lowlat_matching_engine.Common.{
  ℕ, ◌*◌, ◌^◌, ◌<◌, ◌≡◌, ◌≢◌, refl, sym, ap, ◌∙◌, inl, inr, arith, Bool, none, some, List, [], ◌∷◌,
  Option-cases,
}
use lowlat_matching_engine.Types.{buy, sell, CommandType, add_limit, cancel, OrderCommand}
use lowlat_matching_engine.Sink.{Sink}
use lowlat_matching_engine.Index
use lowlat_matching_engine.Index.{IsId}
use lowlat_matching_engine.Index.Probing.{IsCapacity}
use lowlat_matching_engine.Clob.{Clob, cancel_order}
use lowlat_matching_engine.Clob.View.{Entry, View, Represents, withdraw}
use lowlat_matching_engine.Clob.Requests.{lookup}
use lowlat_matching_engine.Clob.Cancel.{
  IsResting, contains-IsResting, cancel_order_accepts, cancel_order_refuses,
}
use lowlat_matching_engine.Clob.Session.{submit-IsUncrossed}
use lowlat_matching_engine.Clob.Apart.{IsUncrossed}
use lowlat_matching_engine.Pipeline.{Engine, apply_all, apply_command, run_commands}

-- The ids of the commands are what the index asserts, and the quantities are 64-bit words, as their
-- type has them.
abbrev pub AreCommands : List OrderCommand → Type 0
AreCommands [] = Unit
AreCommands (command ∷ rest) = IsId command.order_id × (command.qty < 2 ^ 64) × AreCommands rest

withdraw_nonempty : (order_id : ℕ) (q : List Entry) → withdraw order_id q ≢ [] → q ≢ []
unfolding withdraw
withdraw_nonempty order_id [] h e = h refl
withdraw_nonempty order_id (x ∷ q) h e = cc

withdraw-IsUncrossed :
    (lo hi order_id : ℕ) (v : View)
    → IsUncrossed lo hi v
    → IsUncrossed lo hi (λ s p. withdraw order_id (v s p))
withdraw-IsUncrossed lo hi order_id v u bid ask bl bh al ah bne ane =
    u bid ask bl bh al ah (withdraw_nonempty order_id (v buy bid) bne)
      (withdraw_nonempty order_id (v sell ask) ane)

module _ (max_orders : ℕ) (hash : ℕ → ℕ) (cap : IsCapacity (2 * max_orders)) where
  -- The book is well formed and every bid is below every ask.
  pub record IsSound (c : Clob) : Type 0 where
    pub view : View
    pub stored : Represents max_orders hash cap c view
    pub apart : IsUncrossed c.min_price c.max_price view

  cancel_order-IsSound :
      {c : Clob} (order_id : ℕ) → IsSound c → IsSound (cancel_order max_orders hash c order_id).1
  unfolding Index.contains
  cancel_order-IsSound {c} order_id s =
      elim (Option-cases (lookup max_orders hash cap c order_id)) [
        | inr (idx, found) ↦
            let (c', is, range, r) =
              cancel_order_accepts max_orders hash cap order_id idx s.stored found in
            subst IsSound (sym (ap (λ (p : Bool × Clob). p.1) is)) (record {
              view = λ side p. withdraw order_id (s.view side p);
              stored = r;
              apart =
                  subst₂
                    (λ (lo hi : ℕ). IsUncrossed lo hi (λ side p. withdraw order_id (s.view side p)))
                    (sym range.0) (sym range.1)
                    (withdraw-IsUncrossed c.min_price c.max_price order_id s.view s.apart);
            })
        | inl missing ↦
            let is = cancel_order_refuses max_orders hash cap order_id s.stored (absent missing) in
            subst IsSound (sym (ap (λ (p : Bool × Clob). p.1) is)) s
      ]
    where
      absent : lookup max_orders hash cap c order_id ≡ none → ¬ IsResting c s.view order_id
      absent missing w =
          let there = (contains-IsResting max_orders hash cap order_id s.stored).1 w in
          ground (arith, missing, there)

  module _ {S : Type 0} (sink : Sink S) where
    apply_command-IsSound :
        (e : Engine S) (command : OrderCommand)
        → IsSound e.book
        → IsId command.order_id
        → command.qty < 2 ^ 64
        → (e' : Engine S) × (apply_command max_orders hash sink e command ≡ some e')
          × IsSound e'.book
    unfolding apply_command
    apply_command-IsSound e command s id word = by_type command.type refl
      where
        by_type :
            (t : CommandType)
            → command.type ≡ t
            → (e' : Engine S) × (apply_command max_orders hash sink e command ≡ some e')
              × IsSound e'.book
        by_type add_limit is =
            let (o, ran, v, r, apart) =
              submit-IsUncrossed max_orders hash cap sink command.order_id command.side
                command.price command.qty e.executions id s.stored word s.apart in
            (
              record { book = o.book; executions = o.executions },
              ground (arith, is, ran),
              record { view = v; stored = r; apart = apart },
            )
        by_type cancel is = (
          record {
            book = (cancel_order max_orders hash e.book command.order_id).1;
            executions = e.executions;
          },
          ground (arith, is),
          cancel_order-IsSound command.order_id s,
        )

    -- Any sequence of commands with ids other than 0 and 64-bit quantities, applied one after
    -- another to a well-formed book in which every bid is below every ask, runs to its end and
    -- leaves such a book.
    pub run_commands-IsSound :
        (e : Engine S) (commands : List OrderCommand)
        → IsSound e.book
        → AreCommands commands
        → (e' : Engine S) × (run_commands max_orders hash sink e commands ≡ some e')
          × IsSound e'.book
    unfolding apply_all
    run_commands-IsSound e [] s w = (e, refl, s)
    run_commands-IsSound e (command ∷ rest) s w =
        let (e₁, ran, s₁) = apply_command-IsSound e command s w.0 w.1 in
        let (e', on, s') = run_commands-IsSound e₁ rest s₁ w.2 in
        let step : run_commands max_orders hash sink e (command ∷ rest)
            ≡ run_commands max_orders hash sink e₁ rest =
          rw (apply_all, ran) in
        (e', step ∙ on, s')
