-- ===== src/Event/Order.antt =====
-- eventLess orders events totally, by time, priority, sequence and identifier.
use simulator.Common.{◌≡◌, true, false, arith}
use simulator.Common.Float.{Float64, IsOrdered}
use simulator.Heap.Order.{IsOrder}
use simulator.Event.{Event, event_less}

module _ (f : Float64) {P : Type 0} (o : IsOrdered f) where
  event_less-asym : (x y : Event f.Time P) → event_less f x y ≡ true → event_less f y x ≡ false
  unfolding event_less
  event_less-asym x y h =
      ground (arith, o.lt_asym x.time y.time, o.eq_iff x.time y.time, o.eq_iff y.time x.time)

  event_less-chain :
      (x y z : Event f.Time P)
      → event_less f y x ≡ false
      → event_less f z y ≡ false
      → event_less f z x ≡ false
  unfolding event_less
  event_less-chain x y z h k = ground (
    arith,
    o.lt_chain x.time y.time z.time,
    o.lt_chain y.time x.time z.time,
    o.lt_chain x.time z.time y.time,
    o.lt_chain z.time x.time y.time,
    o.lt_chain y.time z.time x.time,
    o.lt_chain z.time y.time x.time,
    o.eq_iff y.time x.time,
    o.eq_iff z.time y.time,
    o.eq_iff z.time x.time,
  )

  -- The order that the heap needs.
  pub event_less-IsOrder : IsOrder (event_less f {P = P})
  event_less-IsOrder = record { asym = event_less-asym; chain = event_less-chain }

  -- Two events that do not come before one another have the same sequence number and identifier.
  pub event_less_total :
      (x y : Event f.Time P)
      → event_less f x y ≡ false
      → event_less f y x ≡ false
      → (x.seq ≡ y.seq) × (x.id ≡ y.id)
  unfolding event_less
  event_less_total x y h k = ground (arith, o.eq_iff x.time y.time, o.eq_iff y.time x.time)
