-- ===== src/Bus.antt =====
-- backend/src/voice_runtime/bus.py: the bounded queue of events and the loop that hands each to the
-- handler of its type. `Event` is an event, `type_of` its `type`, and `answers` tells whether a handler
-- returns (true) or raises on an event.
pub mod Fifo
use event_driven_ai_voice.Prelude.{
  Bool, List, Option, Text, [], false, if◌then◌else◌, leb, length, none, some, ℕ, ◌++◌, ◌==◌, ◌∷◌,
  lookup,
}

-- What the loop of `run` does with an event.
pub data Dispatched (Event : Type 0) : Type 0 where
  handled : ℕ → Event → Dispatched Event
  handler_error : ℕ → Event → Dispatched Event
  unhandled_event_type : Event → Dispatched Event

-- A handler is the number under which it was registered; of a type registered twice the later one
-- counts. `maxsize` is 0 where the queue has no bound.
pub record EventBus (Event : Type 0) : Type 0 where
  pub maxsize : ℕ
  pub queue : List Event
  pub handlers : List (Text × ℕ)
  pub dispatched : List (Dispatched Event)

module _ {Event : Type 0} where
  unfoldable pub new : ℕ → EventBus Event
  new maxsize = record { maxsize = maxsize; queue = []; handlers = []; dispatched = [] }

  unfoldable pub register : Text → ℕ → EventBus Event → EventBus Event
  register event_type handler b = record b { handlers = (event_type, handler) ∷ b.handlers }

  unfoldable pub qsize : EventBus Event → ℕ
  qsize b = length b.queue

  -- `asyncio.Queue.full`
  unfoldable pub full : EventBus Event → Bool
  unfolding qsize
  full b = if b.maxsize == 0 then false else leb b.maxsize (qsize b)

  -- `put`: none while it waits for a place.
  unfoldable pub publish : Event → EventBus Event → Option (EventBus Event)
  unfolding full
  publish e b = if full b then none else some (record b { queue = b.queue ++ e ∷ [] })

  module _ (type_of : Event → Text) (answers : ℕ → Event → Bool) where
    unfoldable pub dispatch_to : Option ℕ → Event → Dispatched Event
    dispatch_to none e = unhandled_event_type e
    dispatch_to (some handler) e =
        if answers handler e then handled handler e else handler_error handler e

    abbrev pub take_next : List Event → EventBus Event → Option (EventBus Event)
    take_next [] b = none
    take_next (e ∷ rest) b = some (record b {
      queue = rest;
      dispatched = b.dispatched ++ dispatch_to (lookup (type_of e) b.handlers) e ∷ [];
    })

    -- One round of `run`; none while `get` waits for an event.
    unfoldable pub consume : EventBus Event → Option (EventBus Event)
    unfolding dispatch_to lookup
    consume b = take_next b.queue b

-- What may happen to the bus.
pub data Act (Event : Type 0) : Type 0 where
  register_handler : Text → ℕ → Act Event
  publish_event : Event → Act Event
  consume_event : Act Event

abbrev pub or_wait : {A : Type 0} → A → Option A → A
or_wait a none = a
or_wait a (some a') = a'

module _ {Event : Type 0} (type_of : Event → Text) (answers : ℕ → Event → Bool) where
  -- A call that waits changes nothing: a `put` that is let in later happens then.
  unfoldable pub act : Act Event → EventBus Event → EventBus Event
  unfolding register publish consume
  act (register_handler event_type handler) b = register event_type handler b
  act (publish_event e) b = or_wait b (publish e b)
  act consume_event b = or_wait b (consume type_of answers b)

  unfoldable pub run : List (Act Event) → EventBus Event → EventBus Event
  unfolding act
  run [] b = b
  run (a ∷ acts) b = run acts (act a b)
