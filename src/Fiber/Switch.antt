-- ===== src/Fiber/Switch.antt =====
-- include/libzth/fiber.h: run(), the switch between two fibers.
use zth.Base.{
  ℕ, suc, ◌≡◌, ◌⊎◌, ◌≢◌, refl, arith, Option, none, some, inl, inr, false, ◌&&◌, ◌∙◌, ap,
  if◌then◌else◌,
}
use zth.Base.Int.{◌+ℤ◌}
use zth.Time.Interval.{TimeInterval, same, saturates}
use zth.Time.Interval
use zth.Time.Stamp.{Timestamp, diff}
use zth.Time.Stamp
use zth.Time.Arith.{ns, ns-add}
use zth.Fiber.{
  Fiber, Env, switch_to, State, Ran, dispatch, after_init, new, ready, running, init, switch_to,
  run_fuel, run, allow_yield, kill,
}

-- One round ends unless the fiber is new, and otherwise it ends if the round after init() does.
dispatch-ne-none :
    (s : State) (again : Fiber → Option Ran) (env : Env) (self from : Fiber) (now : Timestamp)
    → (s ≡ new → again (init env self now).1 ≢ none)
    → dispatch s again env self from now ≢ none
unfolding dispatch
dispatch-ne-none new again env self from now h = ground (arith, h refl)
dispatch-ne-none ready again env self from now h = ground arith
dispatch-ne-none _ again env self from now h = ground arith

dispatch_new :
    (s : State)
    → s ≡ new
    → (again : Fiber → Option Ran) (env : Env) (self from : Fiber) (now : Timestamp)
    → dispatch s again env self from now ≡ after_init again from (init env self now)
unfolding dispatch
dispatch_new s e again env self from now = rw e

module _ (env : Env) (from : Fiber) (now : Timestamp) where
  settled : (n : ℕ) (self : Fiber) → self.state ≢ new → run_fuel (suc n) env self from now ≢ none
  unfolding run_fuel
  settled n self h = dispatch-ne-none self.state _ env self from now (λ e. absurd (h e))

  prepared :
      (n : ℕ) (self : Fiber)
      → (self.state ≡ new → self.state_next ≢ new)
      → run_fuel (suc (suc n)) env self from now ≢ none
  unfolding run_fuel
  prepared n self h =
      dispatch-ne-none self.state _ env self from now
        λ e. settled n (init env self now).1 (unfold init kill in ground arith)

  -- run() comes to an end from every fiber: the jumps back to its switch are at most as many as
  -- the fuel allows.
  pub run-ne-none : (self : Fiber) → run env self from now ≢ none
  unfolding run run_fuel
  run-ne-none self =
      dispatch-ne-none self.state _ env self from now
        λ e. prepared 0 (init env self now).1 (unfold init kill in ground arith)

-- What a switch to a fiber with this time slice leaves of the two fibers. It starts now, or after
-- the report on the other one, if that ran longer than its limit and such runs are reported.
pub record IsSwitch (env : Env) (slice_length : TimeInterval) (from self' from' : Fiber)
    (now t : Timestamp) : Type 0 where
  pub starts : self'.start_run ≡ (
      if env.check_overrun && Interval.lt from.dt_max (diff now from.start_run)
      then env.after_report
      else now)
  pub runs : self'.state ≡ running
  pub yields : from'.state ≢ running
  pub slice : allow_yield self' t ≡ Stamp.is_before (Stamp.add self'.start_run slice_length) t
  pub account : ns from'.total_time ≡ ns from.total_time +ℤ ns (diff now from.start_run)

module _ (env : Env) (self from : Fiber) (now t : Timestamp)
    (fits : (same (diff now from.start_run).negative from.total_time.negative
        && saturates from.total_time (diff now from.start_run))
      ≡ false) where
  switch_to-IsSwitch :
      (f : Fiber)
      → IsSwitch env f.timeslice from
          (switch_to env f from now).0
          (switch_to env f from now).1
          now
          t
  unfolding switch_to allow_yield
  switch_to-IsSwitch f = record {
    starts = refl;
    runs = refl;
    yields = ground arith;
    slice = refl;
    account = ns-add from.total_time (diff now from.start_run) fits;
  }

  prepared_fiber : Fiber
  prepared_fiber = record self {
    context = env.new_context;
    state = ready;
    state_next = ready;
    start_run = now;
  }

  init_ready :
      self.state ≡ new
      → self.state_next ≡ ready
      → env.create_result ≡ 0
      → init env self now ≡ (0, prepared_fiber)
  unfolding init prepared_fiber
  init_ready p q r = ground arith

  -- With run(), a fiber that is ready, or new and due to become ready with a context that can be
  -- created, takes over: it runs from the time given to run(), or from the end of the report if
  -- the other fiber ran longer than its longest run so far and this is reported; the other does
  -- not run; the fiber may not yield before its time slice from there ends; and the time that
  -- passed is added to that of the other fiber. This is so if adding that time to the total of
  -- the other fiber does not saturate.
  pub run_switches :
      (self.state ≡ ready)
        ⊎ ((self.state ≡ new) × (self.state_next ≡ ready) × (env.create_result ≡ 0))
      → (self' : Fiber) × (from' : Fiber) × (run env self from now ≡ some (0, self', from'))
        × IsSwitch env self.timeslice from self' from' now t
  unfolding run run_fuel prepared_fiber dispatch
  run_switches (inl e) = (
    (switch_to env self from now).0,
    (switch_to env self from now).1,
    rw e,
    switch_to-IsSwitch self,
  )
  run_switches (inr (p, q, r)) =
      let f = prepared_fiber in
      let again = λ (x : Fiber). run_fuel 2 env x from now in
      (
        (switch_to env f from now).0,
        (switch_to env f from now).1,
        dispatch_new self.state p again env self from now
            ∙ ap (after_init again from) (init_ready p q r)
            ∙ refl,
        switch_to-IsSwitch f,
      )
