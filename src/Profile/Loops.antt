-- ===== src/Profile/Loops.antt =====
-- The two loops of tools/profile_full_match.cpp: every order is accepted, and each buy takes the oldest
-- sell.
use mathlib.Core.Path.{subst}
use lowlat_matching_engine.Common.{
  ℕ, zero, suc, ◌+◌, ◌*◌, ◌%◌, ◌^◌, ◌≤◌, ◌<◌, ◌≡◌, refl, ap, ◌∙◌, inl, inr, arith, true, some, List,
  [], ◌∷◌, ◌++◌, length, add64,
}
use lowlat_matching_engine.Types.{Execution, OrderCommand}
use lowlat_matching_engine.Index.Probing.{IsCapacity}
use lowlat_matching_engine.Sink.{Sink, emit}
use lowlat_matching_engine.Clob.{Clob, Outcome, submit_limit_order}
use lowlat_matching_engine.Clob.View.{Entry, trade}
use lowlat_matching_engine.Clob.Cancel.{HasId}
use lowlat_matching_engine.Workload.OneLevel.Orders.{Waits, Took, sell_lem, buy_lem}
use lowlat_matching_engine.Profile.{ask, bid, submit_each}

abbrev pub entry_of : ℕ → Entry
entry_of i = record { order_id = add64 i 1; qty = i % 100 + 1 }

-- The sells of `rounds` rounds from `i` on, as they wait.
abbrev pub queue_of : ℕ → ℕ → List Entry
queue_of zero i = []
queue_of (suc rounds) i = entry_of i ∷ queue_of rounds (i + 1)

-- What the buys of these rounds trade, of `n` in all.
unfoldable pub trades_of : ℕ → ℕ → ℕ → List Execution
trades_of n zero i = []
trades_of n (suc rounds) i =
    trade (add64 (add64 n i) 1) (add64 i 1) 10000 (i % 100 + 1) ∷ trades_of n rounds (i + 1)

pub length-trades_of : (n rounds i : ℕ) → length (trades_of n rounds i) ≡ rounds
unfolding trades_of
length-trades_of n zero i = refl
length-trades_of n (suc rounds) i = omega (arith, length-trades_of n rounds (i + 1))

length-queue_of : (rounds i : ℕ) → length (queue_of rounds i) ≡ rounds
length-queue_of zero i = refl
length-queue_of (suc rounds) i = omega (arith, length-queue_of rounds (i + 1))

queue_of_snoc :
    (rounds i : ℕ) → queue_of rounds i ++ entry_of (i + rounds) ∷ [] ≡ queue_of (suc rounds) i
queue_of_snoc zero i = ap (λ (j : ℕ). entry_of j ∷ []) (let e : i + 0 ≡ i = omega arith in e)
queue_of_snoc (suc rounds) i =
    ap (λ (q : List Entry). entry_of i ∷ q)
      (ap (λ (j : ℕ). queue_of rounds (i + 1) ++ entry_of j ∷ [])
          (let e : i + suc rounds ≡ i + 1 + rounds = omega arith in e)
        ∙ queue_of_snoc rounds (i + 1))

-- The ids that wait.
queue_of_ids :
    (k rounds i : ℕ)
    → i + rounds < 2 ^ 32
    → HasId k (queue_of rounds i)
    → (i < k) × (k ≤ i + rounds)
queue_of_ids k zero i small h = absurd h
queue_of_ids k (suc rounds) i small (inl here) =
    (omega (arith, here, small), omega (arith, here, small))
queue_of_ids k (suc rounds) i small (inr there) =
    let (l, h) = queue_of_ids k rounds (i + 1) (omega (arith, small)) there in
    (omega (arith, l), omega (arith, h))

module _ (max_orders : ℕ) (hash : ℕ → ℕ) (cap : IsCapacity (2 * max_orders)) {S : Type 0}
    (sink : Sink S) where
  -- A round whose order is accepted.
  accepted_round :
      (order : ℕ → OrderCommand) (rounds i : ℕ) (c : Clob) (executions : S) (o : Outcome S)
      → submit_limit_order max_orders hash sink c
          (order i).order_id
          (order i).side
          (order i).price
          (order i).qty
          executions
        ≡ some o
      → o.accepted ≡ true
      → submit_each max_orders hash sink order (suc rounds) i c executions
        ≡ submit_each max_orders hash sink order rounds (i + 1) o.book o.executions
  unfolding submit_each
  accepted_round order rounds i c executions o ran yes_it = rw (submit_each, ran, yes_it)

  pub asks_lem :
      (rounds i : ℕ) (c : Clob) (executions : S)
      → Waits max_orders hash cap 10000 c (queue_of i 0)
      → i + rounds ≤ max_orders
      → (o : Outcome S) × (submit_each max_orders hash sink ask rounds i c executions ≡ some o)
        × Took max_orders hash cap sink 10000 o (queue_of (i + rounds) 0) executions
  unfolding submit_each
  asks_lem zero i c executions w room = (
    record { accepted = true; book = c; executions = executions },
    refl,
    record {
      accepted = refl;
      waits =
          subst (λ (n : ℕ). Waits max_orders hash cap 10000 c (queue_of n 0))
            (let e : i ≡ i + 0 = omega arith in e) w;
      reports = refl;
    },
  )
  asks_lem (suc rounds) i c executions w room =
      let small = w.stored.book.core.pool.small in
      let (o, ran, took) =
        sell_lem max_orders hash cap sink 10000 (add64 i 1) (i % 100 + 1) executions
          (omega (arith, small, room)) (omega arith) (omega arith) (queue_of i 0) w
          (omega (arith, length-queue_of i 0, room))
          (λ h.
            let ids = queue_of_ids (add64 i 1) i 0 (omega (arith, small, room)) h in
            omega (arith, ids.1, small, room)) in
      let grown : queue_of i 0 ++ entry_of i ∷ [] ≡ queue_of (i + 1) 0 =
        ap (λ (j : ℕ). queue_of i 0 ++ entry_of j ∷ []) (let e : i ≡ 0 + i = omega arith in e)
        ∙ queue_of_snoc i 0
        ∙ ap (λ (n : ℕ). queue_of n 0) (let e : suc i ≡ i + 1 = omega arith in e) in
      let (o', ran', took') =
        asks_lem rounds (i + 1) o.book o.executions
          (subst (λ (q : List Entry). Waits max_orders hash cap 10000 o.book q) grown took.waits)
          (omega (arith, room)) in
      (
        o',
        accepted_round ask rounds i c executions o ran took.accepted ∙ ran',
        record {
          accepted = took'.accepted;
          waits =
              subst (λ (n : ℕ). Waits max_orders hash cap 10000 o'.book (queue_of n 0))
                (let e : i + 1 + rounds ≡ i + suc rounds = omega arith in e) took'.waits;
          reports = took'.reports ∙ took.reports;
        },
      )

  pub bids_lem :
      (n rounds i : ℕ) (c : Clob) (executions : S)
      → Waits max_orders hash cap 10000 c (queue_of rounds i)
      → i + rounds ≤ n
      → n ≤ max_orders
      → (o : Outcome S) × (submit_each max_orders hash sink (bid n) rounds i c executions ≡ some o)
        × Took max_orders hash cap sink 10000 o [] (emit sink executions (trades_of n rounds i))
  unfolding submit_each emit trades_of
  bids_lem n zero i c executions w all few = (
    record { accepted = true; book = c; executions = executions },
    refl,
    record { accepted = refl; waits = w; reports = refl },
  )
  bids_lem n (suc rounds) i c executions w all few =
      let small = w.stored.book.core.pool.small in
      let (o, ran, took) =
        buy_lem max_orders hash cap sink 10000 (add64 (add64 n i) 1) (i % 100 + 1) executions
          (omega (arith, small, all, few)) (omega arith) (omega arith) (entry_of i)
          (queue_of rounds (i + 1)) w refl
          (λ h.
            let ids =
              queue_of_ids (add64 (add64 n i) 1) (suc rounds) i (omega (arith, small, all, few))
                h in
            omega (arith, ids.1, small, all, few)) in
      let (o', ran', took') =
        bids_lem n rounds (i + 1) o.book o.executions took.waits (omega (arith, all)) few in
      (
        o',
        accepted_round (bid n) rounds i c executions o ran took.accepted ∙ ran',
        record {
          accepted = took'.accepted;
          waits = took'.waits;
          reports =
              took'.reports ∙ ap (λ (s : S). emit sink s (trades_of n rounds (i + 1))) took.reports;
        },
      )
