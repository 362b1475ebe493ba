-- ===== src/LatencyProfile/TimedLoop.antt =====
-- The loop of tools/profile_pipeline_latency.cpp over timed commands records three samples for each.
use mathlib.Core.Path.{subst}
use lowlat_matching_engine.Common.{
  ℕ, zero, suc, ◌+◌, ◌≡◌, refl, sym, ap, ap₂, ◌∙◌, inl, inr, arith, true, Bool-cases, Option-cases,
  some, List, [], ◌∷◌, ◌++◌, map, length, length-append, sub64,
}
use lowlat_matching_engine.Types.{OrderCommand, add_limit}
use lowlat_matching_engine.Sink.{Sink}
use lowlat_matching_engine.LatencyStats
use lowlat_matching_engine.LatencyStats.{LatencyStats}
use lowlat_matching_engine.Clob.{Clob, Outcome, submit_limit_order}
use lowlat_matching_engine.Workload.{generate}
use lowlat_matching_engine.Pipeline.{Engine, apply_all}
use lowlat_matching_engine.Pipeline.Sequences.{some_inj}
use lowlat_matching_engine.Profile.{submit_each}
use lowlat_matching_engine.LatencyProfile.{
  TimedOrderCommand, cmd_of, Profiled, finish_timed, apply_timed,
}

size-add :
    (s : LatencyStats) (ns : ℕ) → length (LatencyStats.add s ns).samples ≡ length s.samples + 1
unfolding LatencyStats.add
size-add s ns = length-append s.samples (ns ∷ [])

module _ (max_orders : ℕ) (hash : ℕ → ℕ) {S : Type 0} (sink : Sink S) (clock : ℕ → ℕ) where
  -- `n` more commands have been timed, and the engine is `e`.
  pub record Timed (p : Profiled S) (n : ℕ) (e : Engine S) (p' : Profiled S) : Type 0 where
    pub engine : p'.engine ≡ e
    pub queue : length p'.queue_latency.samples ≡ length p.queue_latency.samples + n
    pub service : length p'.service_latency.samples ≡ length p.service_latency.samples + n
    pub end_to_end : length p'.end_to_end_latency.samples ≡ length p.end_to_end_latency.samples + n

  finish_timed_lem :
      (p : Profiled S) (timed : TimedOrderCommand) (book : Clob) (executions : S)
      → Timed p 1
          (record { book = book; executions = executions })
          (finish_timed max_orders hash sink clock p timed book executions)
  unfolding finish_timed
  finish_timed_lem p timed book executions = record {
    engine = refl;
    queue = size-add p.queue_latency (sub64 (clock p.readings) timed.sent_ns);
    service = size-add p.service_latency (sub64 (clock (p.readings + 1)) (clock p.readings));
    end_to_end = size-add p.end_to_end_latency (sub64 (clock (p.readings + 1)) timed.sent_ns);
  }

  accepted_timed :
      (p : Profiled S) (x : TimedOrderCommand) (o : Outcome S)
      → x.cmd.type ≡ add_limit
      → submit_limit_order max_orders hash sink p.engine.book x.cmd.order_id x.cmd.side x.cmd.price
          x.cmd.qty p.engine.executions
        ≡ some o
      → o.accepted ≡ true
      → apply_timed max_orders hash sink clock p x
        ≡ some (finish_timed max_orders hash sink clock p x o.book o.executions)
  unfolding apply_timed
  accepted_timed p x o kind on fine = rw (apply_timed, kind, on, fine)

  -- A loop whose orders are all accepted, run by the timed consumer.
  pub submit_each-Timed :
      (order : ℕ → OrderCommand)
      → ((i : ℕ) → (order i).type ≡ add_limit)
      → (rounds i : ℕ) (o : Outcome S) (items : List TimedOrderCommand) (p : Profiled S)
      → submit_each max_orders hash sink order rounds i p.engine.book p.engine.executions ≡ some o
      → o.accepted ≡ true
      → map cmd_of items ≡ generate order rounds i
      → (p' : Profiled S) × (apply_all (apply_timed max_orders hash sink clock) p items ≡ some p')
        × Timed p rounds (record { book = o.book; executions = o.executions }) p'
  unfolding submit_each apply_all apply_timed generate finish_timed
  submit_each-Timed order kind zero i o [] p ran yes_it same = (
    p,
    refl,
    record {
      engine =
          ap (λ (x : Outcome S). record { book = x.book; executions = x.executions })
            (some_inj ran);
      queue = omega arith;
      service = omega arith;
      end_to_end = omega arith;
    },
  )
  submit_each-Timed order kind zero i o (x ∷ items) p ran yes_it same =
      absurd (ground (arith, same))
  submit_each-Timed order kind (suc rounds) i o [] p ran yes_it same = absurd (ground (arith, same))
  submit_each-Timed order kind (suc rounds) i o (x ∷ items) p ran yes_it same =
      let this : x.cmd ≡ order i = cc in
      let others : map cmd_of items ≡ generate order rounds (i + 1) = cc in
      elim (Option-cases (
        submit_limit_order max_orders hash sink p.engine.book (order i).order_id (order i).side
          (order i).price (order i).qty p.engine.executions)) [
            | inl lost ↦ absurd (ground (arith, lost, ran))
            | inr (o₁, on) ↦ elim (Bool-cases o₁.accepted) [
              | inr bad ↦
                  let e : some o₁ ≡ some o = ground (arith, on, bad, ran) in
                  let e' : o₁.accepted ≡ true =
                    ap (λ (y : Outcome S). y.accepted) (some_inj e) ∙ yes_it in
                  absurd (ground (arith, bad, e'))
              | inl fine ↦
                  let p₁ = finish_timed max_orders hash sink clock p x o₁.book o₁.executions in
                  let one = finish_timed_lem p x o₁.book o₁.executions in
                  let on' =
                    subst
                      (λ (c : OrderCommand).
                        submit_limit_order max_orders hash sink p.engine.book c.order_id c.side
                          c.price c.qty p.engine.executions
                        ≡ some o₁)
                      (sym this) on in
                  let done =
                    accepted_timed p x o₁ (ap (λ (c : OrderCommand). c.type) this ∙ kind i) on'
                      fine in
                  let (p', ran', rest) =
                    submit_each-Timed order kind rounds (i + 1) o items p₁
                      (ground (arith, on, fine, ran)) yes_it others in
                  let step : apply_all (apply_timed max_orders hash sink clock) p (x ∷ items)
                      ≡ apply_all (apply_timed max_orders hash sink clock) p₁ items =
                    rw (apply_all, done) in
                  (
                    p',
                    step ∙ ran',
                    record {
                      engine = rest.engine;
                      queue = omega (arith, rest.queue, one.queue);
                      service = omega (arith, rest.service, one.service);
                      end_to_end = omega (arith, rest.end_to_end, one.end_to_end);
                    },
                  )
            ]
          ]

-- Items whose sources come in two parts.
pub map_split :
    {A C : Type 0} (f : A → C) (xs ys : List C) (items : List A)
    → map f items ≡ xs ++ ys
    → (us ws : List A) × (items ≡ us ++ ws) × (map f us ≡ xs) × (map f ws ≡ ys)
map_split f [] ys items e = ([], items, refl, refl, e)
map_split f (x ∷ xs) ys [] e = absurd (ground (arith, e))
map_split {A} {C} f (x ∷ xs) ys (a ∷ items) e =
    let first : f a ≡ x = cc in
    let rest : map f items ≡ xs ++ ys = cc in
    let (us, ws, whole, left, right) = map_split f xs ys items rest in
    (
      a ∷ us,
      ws,
      ap (λ (q : List A). a ∷ q) whole,
      ap₂ (λ (y : C) (q : List C). y ∷ q) first left,
      right,
    )

abbrev pub untimed : OrderCommand → TimedOrderCommand
untimed command = record { cmd = command; sent_ns = 0 }
