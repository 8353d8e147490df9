-- ===== src/RealtimeClient/Cancelled.antt =====
-- A voice that is cancelled, and one that is not, at the stub of
-- backend/src/voice_runtime/realtime_client.py.
use event_driven_ai_voice.Types.{Uuid, EventSource, RealtimeVoiceCancel, RealtimeVoiceStart}
use event_driven_ai_voice.Coordinator.Monad.{Env}
use event_driven_ai_voice.Prelude.{
  Bool, List, [], arith, false, get_elem?, some, ℕ, ◌++◌, ◌+◌, ◌∷◌, ◌≡◌, contains, refl, true,
  Option, none, ap, contains-add, contains-add_self, length, ◌∙◌,
}
use event_driven_ai_voice.RealtimeClient.{
  send_voice_start, send_voice_cancel, task_of, fail_id, wake_up, close_client, register, report_of,
  act, run, wake_task, Task, StubRealtimeClient, Act, start, emit_completed, finish, cancel,
}
use event_driven_ai_voice.RealtimeClient.Reports.{reports, is_about-report_of, reports-append}

abbrev pub is_cancelled : Uuid → StubRealtimeClient → Bool
is_cancelled v c = contains v c.cancelled_voice_ids

reports-emit_cancelled :
    (env : Env) (v : Uuid) (task : Task) (c : StubRealtimeClient)
    → is_cancelled v c ≡ true
    → (reports v (emit_completed env task c).emitted ≡ reports v c.emitted)
      × (is_cancelled v (emit_completed env task c) ≡ true)
unfolding emit_completed reports
reports-emit_cancelled env v task c h = grind (
  arith,
  reports-append v c.emitted,
  is_about-report_of v task.voice_generation_id
      (contains task.voice_generation_id c.fail_voice_ids),
)

reports-wake_cancelled :
    (env : Env) (v : Uuid) (n : ℕ) (o : Option Task) (c : StubRealtimeClient)
    → is_cancelled v c ≡ true
    → (reports v (wake_task env n o c).emitted ≡ reports v c.emitted)
      × (is_cancelled v (wake_task env n o c) ≡ true)
reports-wake_cancelled env v n none c h = (refl, h)
reports-wake_cancelled env v n (some task) c h =
    ground (arith, reports-emit_cancelled env v task (record c { tasks = finish n c.tasks }) h)

reports-act_cancelled :
    (env : Env) (v : Uuid) (a : Act) (c : StubRealtimeClient)
    → is_cancelled v c ≡ true
    → (reports v (act env a c).emitted ≡ reports v c.emitted)
      × (is_cancelled v (act env a c) ≡ true)
unfolding act send_voice_start send_voice_cancel
reports-act_cancelled env v (start e) c h = (refl, h)
reports-act_cancelled env v (cancel e) c h =
    (refl, contains-add e.voice_generation_id v c.cancelled_voice_ids h)
reports-act_cancelled env v register c h = (refl, h)
reports-act_cancelled env v close_client c h = (refl, h)
reports-act_cancelled env v (fail_id w) c h = (refl, h)
reports-act_cancelled env v (wake_up n) c h =
    reports-wake_cancelled env v n (get_elem? c.tasks n) c h

reports-run_cancelled :
    (env : Env) (v : Uuid) (acts : List Act) (c : StubRealtimeClient)
    → is_cancelled v c ≡ true
    → reports v (run env acts c).emitted ≡ reports v c.emitted
unfolding run
reports-run_cancelled env v [] c h = refl
reports-run_cancelled env v (a ∷ acts) c h =
    let (same, kept) = reports-act_cancelled env v a c h in
    reports-run_cancelled env v acts (act env a c) kept ∙ same

-- A voice that is cancelled, before or after it was started, is never reported afterwards, completed or
-- failed, whatever happens to the client from then on.
pub reports-cancelled :
    (env : Env) (e : RealtimeVoiceCancel) (acts : List Act) (c : StubRealtimeClient)
    → reports e.voice_generation_id (run env (cancel e ∷ acts) c).emitted
      ≡ reports e.voice_generation_id c.emitted
unfolding run act send_voice_cancel
reports-cancelled env e acts c =
    reports-run_cancelled env e.voice_generation_id acts (send_voice_cancel e c)
      (contains-add_self e.voice_generation_id c.cancelled_voice_ids)

get_elem?-append :
    (tasks : List Task) (task : Task) → get_elem? (tasks ++ task ∷ []) (length tasks) ≡ some task
get_elem?-append [] task = refl
get_elem?-append (t ∷ tasks) task = get_elem?-append tasks task

emitted-emit_completed :
    (env : Env) (task : Task) (c : StubRealtimeClient)
    → c.has_callback ≡ true
    → is_cancelled task.voice_generation_id c ≡ false
    → (emit_completed env task c).emitted
      ≡ c.emitted
        ++ record {
          event_id = env.uuid4 c.drawn;
          call_id = task.call_id;
          ts = task.ts + c.delay_ms;
          body =
              report_of
                (contains task.voice_generation_id c.fail_voice_ids)
                task.voice_generation_id;
          source = EventSource.realtime;
        }
          ∷ []
unfolding emit_completed
emitted-emit_completed env task c callback live = grind arith

-- A voice that was started and is not cancelled is reported when its sleep is over, where a callback is
-- registered: completed, or failed where its id is one that fails, under its own id and call and at the
-- time of its start plus the delay.
emitted-wake :
    (env : Env) (e : RealtimeVoiceStart) (c : StubRealtimeClient)
    → c.has_callback ≡ true
    → is_cancelled e.voice_generation_id c ≡ false
    → (run env (start e ∷ wake_up (length c.tasks) ∷ []) c).emitted
      ≡ c.emitted
        ++ record {
          event_id = env.uuid4 c.drawn;
          call_id = e.call_id;
          ts = e.ts + c.delay_ms;
          body = report_of (contains e.voice_generation_id c.fail_voice_ids) e.voice_generation_id;
          source = EventSource.realtime;
        }
          ∷ []
unfolding run act send_voice_start
emitted-wake env e c callback live =
    ap (λ (o : Option Task). (wake_task env (length c.tasks) o (send_voice_start e c)).emitted)
      (get_elem?-append c.tasks (task_of e))
    ∙ emitted-emit_completed env (task_of e)
        (record (send_voice_start e c) {
          tasks = finish (length c.tasks) (c.tasks ++ task_of e ∷ []);
        })
        callback live
