-- ===== src/Bus/Fifo.antt =====
-- The order and the number of the events of backend/src/voice_runtime/bus.py.
use mathlib.Core.List.{append-nil, append_assoc, map-append}
use event_driven_ai_voice.Prelude.{
  Bool, Bool-cases, List, Option, Text, [], ap, if◌then◌else◌, inl, inr, map, none, refl, some, sym,
  ℕ, ◌++◌, ◌∙◌, ◌∷◌, ◌≡◌, lookup, false, true, ◌<◌, ◌≤◌, arith, length, length-append,
}
use event_driven_ai_voice.Bus.{
  qsize, take_next, Act, Dispatched, EventBus, act, run, publish, register, consume, dispatch_to,
  full, or_wait, handled, handler_error, unhandled_event_type, register_handler, publish_event,
  consume_event, new,
}

module _ {Event : Type 0} (type_of : Event → Text) (answers : ℕ → Event → Bool) where
  abbrev event_of : Dispatched Event → Event
  event_of (handled h e) = e
  event_of (handler_error h e) = e
  event_of (unhandled_event_type e) = e

  -- The events that `publish` takes, in the order in which it takes them.
  unfoldable pub taken : List (Act Event) → EventBus Event → List Event
  taken [] b = []
  taken (publish_event e ∷ acts) b =
      let rest = taken acts (act type_of answers (publish_event e) b) in
      if full b then rest else e ∷ rest
  taken (register_handler t h ∷ acts) b = taken acts (act type_of answers (register_handler t h) b)
  taken (consume_event ∷ acts) b = taken acts (act type_of answers consume_event b)

  -- What was dispatched, and then what still waits.
  abbrev pub passed : EventBus Event → List Event
  passed b = map event_of b.dispatched ++ b.queue

  event_of-dispatch_to : (o : Option ℕ) (e : Event) → event_of (dispatch_to type_of answers o e) ≡ e
  unfolding dispatch_to
  event_of-dispatch_to none e = refl
  event_of-dispatch_to (some h) e = elim (Bool-cases (answers h e)) [
    | inl fine ↦ rw fine refl
    | inr raises ↦ rw raises refl
  ]

  passed-take_next :
      (b : EventBus Event) (queue : List Event)
      → b.queue ≡ queue
      → passed (or_wait b (take_next type_of answers queue b)) ≡ passed b
  passed-take_next b [] e = refl
  passed-take_next b (x ∷ rest) e =
      let d = dispatch_to type_of answers (lookup (type_of x) b.handlers) x in
      ap (λ es. es ++ rest) (map-append event_of b.dispatched (d ∷ []))
      ∙ append_assoc (map event_of b.dispatched) (event_of d ∷ []) rest
      ∙ ap (λ y. map event_of b.dispatched ++ y ∷ rest)
          (event_of-dispatch_to (lookup (type_of x) b.handlers) x)
      ∙ ap (λ q. map event_of b.dispatched ++ q) (sym e)

  passed-consume : (b : EventBus Event) → passed (or_wait b (consume type_of answers b)) ≡ passed b
  unfolding consume
  passed-consume b = passed-take_next b b.queue refl

  -- `later` is what is taken after the event.
  passed-publish :
      (b : EventBus Event) (e : Event) (later : List Event) (is_full : Bool)
      → passed (or_wait b (if is_full then none else some (record b { queue = b.queue ++ e ∷ [] })))
          ++ later
        ≡ passed b ++ (if is_full then later else e ∷ later)
  passed-publish b e later true = refl
  passed-publish b e later false = simp (append_assoc)

  passed-run :
      (acts : List (Act Event)) (b : EventBus Event)
      → passed (run type_of answers acts b) ≡ passed b ++ taken acts b
  unfolding run taken act register publish
  passed-run [] b = sym (append-nil (passed b))
  passed-run (register_handler t h ∷ acts) b = passed-run acts (register t h b)
  passed-run (publish_event e ∷ acts) b =
      let b' = or_wait b (publish e b) in
      passed-run acts b' ∙ passed-publish b e (taken acts b') (full b)
  passed-run (consume_event ∷ acts) b =
      passed-run acts (or_wait b (consume type_of answers b))
      ∙ ap (λ p. p ++ taken acts (or_wait b (consume type_of answers b))) (passed-consume b)

  -- The bus is a queue: whatever is published, registered and consumed, and in whatever order, the
  -- events that the loop has dispatched followed by those that still wait are the events that were
  -- taken, each once and in the order in which they were taken, also where a handler raises or a type
  -- has no handler.
  pub dispatched-run :
      (maxsize : ℕ) (acts : List (Act Event))
      → passed (run type_of answers acts (new maxsize)) ≡ taken acts (new maxsize)
  unfolding new
  dispatched-run maxsize acts = passed-run acts (new maxsize)

  qsize-take_next :
      (b : EventBus Event) (queue : List Event)
      → b.queue ≡ queue
      → length b.queue ≤ b.maxsize
      → ((or_wait b (take_next type_of answers queue b)).maxsize ≡ b.maxsize)
        × (length (or_wait b (take_next type_of answers queue b)).queue ≤ b.maxsize)
  qsize-take_next b [] e fits = (refl, fits)
  qsize-take_next b (x ∷ rest) e fits = (refl, omega (arith, ap length e))

  maxsize-act :
      (a : Act Event) (b : EventBus Event)
      → qsize b ≤ b.maxsize
      → 0 < b.maxsize
      → ((act type_of answers a b).maxsize ≡ b.maxsize)
        × (qsize (act type_of answers a b) ≤ b.maxsize)
  unfolding act register publish full consume qsize
  maxsize-act (register_handler t h) b fits bound = (refl, fits)
  maxsize-act (publish_event e) b fits bound = grind (arith, length-append b.queue (e ∷ []))
  maxsize-act consume_event b fits bound = qsize-take_next b b.queue refl fits

  qsize-run_bounded :
      (maxsize : ℕ) (acts : List (Act Event)) (b : EventBus Event)
      → 0 < maxsize
      → b.maxsize ≡ maxsize
      → qsize b ≤ maxsize
      → qsize (run type_of answers acts b) ≤ maxsize
  unfolding run
  qsize-run_bounded maxsize [] b bound same fits = fits
  qsize-run_bounded maxsize (a ∷ acts) b bound same fits =
      let (kept, fits') = maxsize-act a b (omega arith) (omega (arith, same)) in
      qsize-run_bounded maxsize acts (act type_of answers a b) bound (kept ∙ same) (omega arith)

  -- A bus with a bound above zero never holds more events than the bound.
  qsize-run :
      (maxsize : ℕ) (acts : List (Act Event))
      → 0 < maxsize
      → qsize (run type_of answers acts (new maxsize)) ≤ maxsize
  unfolding new qsize
  qsize-run maxsize acts bound =
      qsize-run_bounded maxsize acts (new maxsize) bound refl (omega arith)
