-- ===== src/Delivery/Once.antt =====
-- How often an event is announced by what Delivery dispatches and processes.
use multi_marketplace.Base.{
  ℕ, ◌≤◌, ◌<◌, ◌+◌, ◌*◌, All, refl, sym, subst, String, Bool, true, false, List, [], ◌∷◌, Option,
  none, some, arith, count_where-append, inl, inr,
}
use multi_marketplace.Store.{
  World, Order, SellerOrder, OutboxEvent, Receipt, Signal, Value, send, modify, string_eq,
}
use multi_marketplace.Store.Rules.{Preserved, Preserved-apply, preserved, chains}
use multi_marketplace.Delivery.{
  dispatch_pending, mark_seconds, claim_event, update_event, create_receipt, stock_key, order_key,
  announce_stock, stock_if_changed, announce_order, deliver_order, deliver_new, product_field,
  field, announce_fields, order_if_any, deliver_unless, deliver, deliver_claimed,
  process_outbox_event,
}
use multi_marketplace.Delivery.Marks.{
  is_stock_event, is_order_event, Announced, Sets, unmarked, stock_step, order_step, bound_kept,
  order_signals, announce_stock-effect, announce_order-effect, order_signals-few,
  order_signals-no_stock,
}

module _ (until : ℕ) (e : String) where
  stock-Announced :
      (e' product : String) (quantity : Value) (now : ℕ)
      → Sets until now
      → Preserved (Announced until e) (announce_stock e' product quantity now)
  stock-Announced e' product quantity now (early, long) =
      preserved (Announced until e) (announce_stock e' product quantity now) λ w h.
        elim (announce_stock-effect e' product quantity now w) [
          | inl again ↦ subst (Announced until e) (sym again) h
          | inr (first, went) ↦ subst (Announced until e) (sym went) (
            stock_step until (now + 1000 * mark_seconds) e e' product quantity w.delivered w.signals
                long (unmarked until now (stock_key e') w.delivered early first) h.0,
            bound_kept until (now + 1000 * mark_seconds) (is_order_event e) (order_key e)
                (stock_key e') 2 w.delivered w.signals (Signal.stock_event product quantity e' ∷ [])
                refl h.1,
          )
        ]

  order-Announced :
      (v : OutboxEvent) (o : Order) (s : Option SellerOrder) (now : ℕ)
      → Sets until now
      → Preserved (Announced until e) (announce_order v o s now)
  order-Announced v o s now (early, long) =
      preserved (Announced until e) (announce_order v o s now) λ w h.
        elim (announce_order-effect v o s now w) [
          | inl again ↦ subst (Announced until e) (sym again) h
          | inr (first, went) ↦ subst (Announced until e) (sym went) (
            bound_kept until (now + 1000 * mark_seconds) (is_stock_event e) (stock_key e)
                (order_key v.id) 1 w.delivered w.signals (order_signals v o s)
                (order_signals-no_stock e v o s) h.0,
            order_step until (now + 1000 * mark_seconds) e v.id w.delivered w.signals
                (order_signals v o s) long
                (unmarked until now (order_key v.id) w.delivered early first)
                (order_signals-few e v o s) h.1,
          )
        ]

  claim-Announced :
      (id : String) (now now' : ℕ) → Preserved (Announced until e) (claim_event id now now')
  unfolding claim_event
  claim-Announced id now now' = preserved (Announced until e) (claim_event id now now') (λ w h. h)

  update-Announced :
      (id : String) (f : OutboxEvent → OutboxEvent)
      → Preserved (Announced until e) (update_event id f)
  unfolding update_event
  update-Announced id f =
      preserved (Announced until e) (update_event id f) (λ w h. ground (arith, h))

  receipt-Announced : (id : String) → Preserved (Announced until e) (create_receipt id)
  unfolding create_receipt
  receipt-Announced id =
      preserved (Announced until e) (create_receipt id) (λ w h. ground (arith, h))

  job-Announced : (q n k : String) → Preserved (Announced until e) (send (Signal.job q n k))
  job-Announced q n k = preserved (Announced until e) (send (Signal.job q n k)) λ w h. (
    ground (arith, h.0, count_where-append (is_stock_event e) w.signals (Signal.job q n k ∷ [])),
    ground (arith, h.1, count_where-append (is_order_event e) w.signals (Signal.job q n k ∷ [])),
  )

  stock_if_changed-Announced :
      (v : OutboxEvent) (b : Bool) (now : ℕ)
      → Sets until now
      → Preserved (Announced until e) (stock_if_changed v b now)
  stock_if_changed-Announced v false now sets = search chains
  stock_if_changed-Announced v true now sets =
      fields_announced v.id (product_field (field "productId" v.payload))
        (field "quantity" v.payload)
    where
      fields_announced :
          (id : String) (p : Option String) (q : Option Value)
          → Preserved (Announced until e) (announce_fields id p q now)
      fields_announced id none q = search chains
      fields_announced id (some p) none = search chains
      fields_announced id (some p) (some q) = stock-Announced id p q now sets

  order_if_any-Announced :
      (v : OutboxEvent) (o : Option Order) (s : Option SellerOrder) (now : ℕ)
      → Sets until now
      → Preserved (Announced until e) (order_if_any v o s now)
  order_if_any-Announced v none s now sets = search chains
  order_if_any-Announced v (some o) s now sets = order-Announced v o s now sets

  deliver_order-Announced :
      (v : OutboxEvent) (now : ℕ)
      → Sets until now
      → Preserved (Announced until e) (deliver_order v now)
  unfolding deliver_order
  deliver_order-Announced v now sets = search (chains, order_if_any-Announced)

  deliver_unless-Announced :
      (id : String) (v : OutboxEvent) (r : Option Receipt) (stock_at order_at : ℕ)
      → Sets until stock_at
      → Sets until order_at
      → Preserved (Announced until e) (deliver_unless id v r stock_at order_at)
  unfolding deliver_new
  deliver_unless-Announced id v (some r) stock_at order_at s o = search (chains, update-Announced)
  deliver_unless-Announced id v none stock_at order_at s o =
      search
        (
          chains, stock_if_changed-Announced, deliver_order-Announced, receipt-Announced,
          update-Announced,
        )
        depth 9

  deliver-Announced :
      (id : String) (stock_at order_at : ℕ)
      → Sets until stock_at
      → Sets until order_at
      → Preserved (Announced until e) (deliver id stock_at order_at)
  unfolding deliver
  deliver-Announced id stock_at order_at s o = search (chains, deliver_unless-Announced) depth 9

  deliver_claimed-Announced :
      (id : String) (attempts stock_at order_at now : ℕ) (b : Bool)
      → Sets until stock_at
      → Sets until order_at
      → Preserved (Announced until e) (deliver_claimed id attempts stock_at order_at now b)
  deliver_claimed-Announced id attempts stock_at order_at now true s o = search chains
  deliver_claimed-Announced id attempts stock_at order_at now false s o =
      search (chains, deliver-Announced, update-Announced) depth 9

  process-Announced :
      (id : String) (attempts now now' stock_at order_at now'' : ℕ)
      → Sets until stock_at
      → Sets until order_at
      → Preserved
          (Announced until e)
          (process_outbox_event id attempts now now' stock_at order_at now'')
  unfolding process_outbox_event
  process-Announced id attempts now now' stock_at order_at now'' s o =
      search (chains, claim-Announced, deliver_claimed-Announced)

  requeue-Announced :
      (f : World → List OutboxEvent)
      → Preserved (Announced until e) (modify (λ w. record w { outbox = f w }))
  requeue-Announced f =
      preserved (Announced until e) (modify (λ w. record w { outbox = f w })) (λ w h. h)

  dispatch-Announced : (now now' : ℕ) → Preserved (Announced until e) (dispatch_pending now now')
  unfolding dispatch_pending
  dispatch-Announced now now' = search (chains, requeue-Announced, job-Announced) depth 9

-- What the workers do: a round of the dispatcher, or the processing of a job, with its reads of the
-- clock and the two times at which Redis sets keys.
pub data Work : Type 0 where
  dispatch : ℕ → ℕ → Work
  process : String → ℕ → ℕ → ℕ → ℕ → ℕ → ℕ → Work

-- The tables that a piece of work leaves, whether it returns or raises.
unfoldable pub after : Work → World → World
after (Work.dispatch now now') w = (dispatch_pending now now' w).1
after (Work.process id attempts now now' stock_at order_at now'') w =
    (process_outbox_event id attempts now now' stock_at order_at now'' w).1

-- The tables that one piece of work after another leaves.
unfoldable pub course : List Work → World → World
course [] w = w
course (c ∷ cs) w = course cs (after c w)

-- The time is one of the thirty days, in milliseconds, from `since`.
abbrev pub InPeriod : ℕ → ℕ → Type 0
InPeriod since now = (since ≤ now) × (now < since + 1000 * mark_seconds)

-- What a piece of work sets in Redis, it sets in that period.
abbrev pub IsTimely : ℕ → Work → Type 0
IsTimely since (Work.dispatch now now') = Unit
IsTimely since (Work.process id attempts now now' stock_at order_at now'') =
    InPeriod since stock_at × InPeriod since order_at

after-Announced :
    (since : ℕ) (e : String) (c : Work) (v : World)
    → IsTimely since c
    → Announced (since + 1000 * mark_seconds) e v
    → Announced (since + 1000 * mark_seconds) e (after c v)
unfolding after
after-Announced since e (Work.dispatch now now') v timely =
    Preserved-apply (Announced (since + 1000 * mark_seconds) e) (dispatch_pending now now')
      (dispatch-Announced (since + 1000 * mark_seconds) e now now') v
after-Announced since e (Work.process id attempts now now' stock_at order_at now'') v (s, o) =
    Preserved-apply (Announced (since + 1000 * mark_seconds) e)
      (process_outbox_event id attempts now now' stock_at order_at now'')
      (process-Announced (since + 1000 * mark_seconds) e id attempts now now' stock_at order_at
        now'' (s.1, omega (arith, s.0)) (o.1, omega (arith, o.0)))
      v

-- However often events are dispatched and processed, also again after failures: if Redis sets its keys
-- within thirty days, then an event is announced at most once as a change of stock, and as a change of
-- an order to no more than two users, if its earlier announcements were within these bounds, and
-- marked by keys that last until the end of the thirty days.
pub course-Announced :
    (since : ℕ) (e : String) (cs : List Work) (w : World)
    → All (IsTimely since) cs
    → Announced (since + 1000 * mark_seconds) e w
    → Announced (since + 1000 * mark_seconds) e (course cs w)
unfolding course
course-Announced since e [] w timely h = h
course-Announced since e (c ∷ cs) w (t, ts) h =
    course-Announced since e cs (after c w) ts (after-Announced since e c w t h)
