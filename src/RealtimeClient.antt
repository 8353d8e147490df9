-- ===== src/RealtimeClient.antt =====
-- `StubRealtimeClient` of backend/src/voice_runtime/realtime_client.py. A started voice is a task that
-- sleeps; which task wakes next is chosen from outside. What the callback gets is kept in `emitted`.
pub mod Reports
pub mod Cancelled
use event_driven_ai_voice.Coordinator.Monad.{Env}
use event_driven_ai_voice.Coordinator.{
  Body, EventEnvelope, voice_generation_completed, voice_generation_error,
}
use event_driven_ai_voice.Prelude.{
  contains, add, get_elem?, Bool, List, Option, [], codes, false, if◌then◌else◌, none, some, suc,
  true, zero, ℕ, ◌++◌, ◌+◌, ◌∷◌,
}
use event_driven_ai_voice.Types.{
  router, canonical, EventSource, RealtimeVoiceCancel, RealtimeVoiceStart, Uuid,
}

pub record Task : Type 0 where
  pub call_id : Uuid
  pub voice_generation_id : Uuid
  pub ts : ℕ
  pub done : Bool

-- `delay_ms` is `int(self._delay_s * 1000)`.
pub record StubRealtimeClient : Type 0 where
  pub delay_ms : ℕ
  pub has_callback : Bool
  pub tasks : List Task
  pub voice_starts : List RealtimeVoiceStart
  pub voice_cancels : List RealtimeVoiceCancel
  pub cancelled_voice_ids : List Uuid
  pub fail_voice_ids : List Uuid
  pub drawn : ℕ
  pub emitted : List EventEnvelope

unfoldable pub new : ℕ → StubRealtimeClient
new delay_ms = record {
  delay_ms = delay_ms;
  has_callback = false;
  tasks = [];
  voice_starts = [];
  voice_cancels = [];
  cancelled_voice_ids = [];
  fail_voice_ids = [];
  drawn = 0;
  emitted = [];
}

abbrev pub task_of : RealtimeVoiceStart → Task
task_of e = record {
  call_id = e.call_id;
  voice_generation_id = e.voice_generation_id;
  ts = e.ts;
  done = false;
}

unfoldable pub send_voice_start : RealtimeVoiceStart → StubRealtimeClient → StubRealtimeClient
send_voice_start e c = record c {
  voice_starts = c.voice_starts ++ e ∷ [];
  tasks = c.tasks ++ task_of e ∷ [];
}

unfoldable pub send_voice_cancel : RealtimeVoiceCancel → StubRealtimeClient → StubRealtimeClient
unfolding add
send_voice_cancel e c = record c {
  voice_cancels = c.voice_cancels ++ e ∷ [];
  cancelled_voice_ids = add e.voice_generation_id c.cancelled_voice_ids;
}

abbrev pub on_event : StubRealtimeClient → StubRealtimeClient
on_event c = record c { has_callback = true }

-- Every task that is not done is cancelled, and the list is cleared.
abbrev pub close : StubRealtimeClient → StubRealtimeClient
close c = record c { tasks = [] }

-- The tests' control over errors.
abbrev pub fail_voice : Uuid → StubRealtimeClient → StubRealtimeClient
fail_voice v c = record c { fail_voice_ids = add v c.fail_voice_ids }

abbrev pub report_of : Bool → Uuid → Body
report_of true v = voice_generation_error (canonical v) (codes "stub_error")
report_of false v = voice_generation_completed (record {
  voice_generation_id = canonical v;
  transcript = [];
  response_source = router;
  created_to_done_ms = none;
})

-- The tasks with the one at an index done.
unfoldable pub finish : ℕ → List Task → List Task
finish n [] = []
finish zero (task ∷ tasks) = record task { done = true } ∷ tasks
finish (suc n) (task ∷ tasks) = task ∷ finish n tasks

module _ (env : Env) where
  -- `_emit_completed` after its sleep.
  unfoldable pub emit_completed : Task → StubRealtimeClient → StubRealtimeClient
  unfolding contains
  emit_completed task c =
      if contains task.voice_generation_id c.cancelled_voice_ids
      then c
      else if c.has_callback
      then record c {
        drawn = c.drawn + 1;
        emitted =
            c.emitted
            ++ record {
              event_id = env.uuid4 c.drawn;
              call_id = task.call_id;
              ts = task.ts + c.delay_ms;
              body =
                  report_of (contains task.voice_generation_id c.fail_voice_ids)
                    task.voice_generation_id;
              source = EventSource.realtime;
            }
              ∷ [];
      }
      else c

  abbrev pub wake_task : ℕ → Option Task → StubRealtimeClient → StubRealtimeClient
  wake_task n none c = c
  wake_task n (some task) c =
      if task.done then c else emit_completed task (record c { tasks = finish n c.tasks })

  -- The sleep of the task at an index is over.
  abbrev pub wake : ℕ → StubRealtimeClient → StubRealtimeClient
  wake n c = wake_task n (get_elem? c.tasks n) c

-- What may happen to the client.
pub data Act : Type 0 where
  start : RealtimeVoiceStart → Act
  cancel : RealtimeVoiceCancel → Act
  register close_client : Act
  fail_id : Uuid → Act
  wake_up : ℕ → Act

unfoldable pub act : Env → Act → StubRealtimeClient → StubRealtimeClient
unfolding send_voice_start send_voice_cancel emit_completed finish
act env (start e) c = send_voice_start e c
act env (cancel e) c = send_voice_cancel e c
act env register c = on_event c
act env close_client c = close c
act env (fail_id v) c = fail_voice v c
act env (wake_up n) c = wake env n c

unfoldable pub run : Env → List Act → StubRealtimeClient → StubRealtimeClient
unfolding act
run env [] c = c
run env (a ∷ acts) c = run env acts (act env a c)
