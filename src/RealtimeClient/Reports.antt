-- ===== src/RealtimeClient/Reports.antt =====
-- What the stub of backend/src/voice_runtime/realtime_client.py reports of its voices.
use event_driven_ai_voice.Types.{Uuid, IdText, canonical}
use event_driven_ai_voice.Coordinator.Monad.{Env}
use event_driven_ai_voice.Prelude.{
  Bool, List, [], arith, false, get_elem?, if◌then◌else◌, not, some, suc, zero, ℕ, ◌&&◌, ◌++◌, ◌+◌,
  ◌==◌, ◌∷◌, ◌≡◌, ◌≤◌, contains, refl, true, Bool-cases, Option, inl, inr, none, ap,
}
use event_driven_ai_voice.Coordinator.{
  Body, EventEnvelope, voice_generation_completed, voice_generation_error,
}
use event_driven_ai_voice.RealtimeClient.{
  send_voice_start, send_voice_cancel, task_of, fail_id, wake_up, close_client, register, report_of,
  act, run, new, wake_task, Task, StubRealtimeClient, Act, start, emit_completed, finish, cancel,
}

-- The reports about a voice.
abbrev pub names_id : Uuid → IdText → Bool
names_id v (canonical id) = id == v
names_id v _ = false

abbrev pub is_about : Uuid → Body → Bool
is_about v (voice_generation_completed p) = names_id v p.voice_generation_id
is_about v (voice_generation_error id error) = names_id v id
is_about v _ = false

unfoldable pub reports : Uuid → List EventEnvelope → ℕ
reports v [] = 0
reports v (e ∷ es) = (if is_about v e.body then 1 else 0) + reports v es

-- The voices that were started, and those that are asleep.
unfoldable pub starts : Uuid → List Act → ℕ
starts v [] = 0
starts v (start e ∷ acts) = (if e.voice_generation_id == v then 1 else 0) + starts v acts
starts v (_ ∷ acts) = starts v acts

unfoldable pub asleep : Uuid → List Task → ℕ
asleep v [] = 0
asleep v (task ∷ tasks) =
    (if not task.done && (task.voice_generation_id == v) then 1 else 0) + asleep v tasks

pub is_about-report_of : (v w : Uuid) (fails : Bool) → is_about v (report_of fails w) ≡ (w == v)
is_about-report_of v w true = refl
is_about-report_of v w false = refl

pub reports-append :
    (v : Uuid) (es fs : List EventEnvelope) → reports v (es ++ fs) ≡ reports v es + reports v fs
unfolding reports
reports-append v [] fs = omega arith
reports-append v (e ∷ es) fs = ground (arith, reports-append v es fs)

asleep-append : (v : Uuid) (ts us : List Task) → asleep v (ts ++ us) ≡ asleep v ts + asleep v us
unfolding asleep
asleep-append v [] us = omega arith
asleep-append v (t ∷ ts) us = ground (arith, asleep-append v ts us)

-- A task that wakes is no longer asleep.
asleep-finish :
    (v : Uuid) (n : ℕ) (tasks : List Task) (task : Task)
    → get_elem? tasks n ≡ some task
    → task.done ≡ false
    → asleep v (finish n tasks) + (if task.voice_generation_id == v then 1 else 0) ≡ asleep v tasks
unfolding asleep finish
asleep-finish v n [] task e awake = cc
asleep-finish v zero (t ∷ tasks) task e awake = grind arith
asleep-finish v (suc n) (t ∷ tasks) task e awake =
    grind (arith, asleep-finish v n tasks task e awake)

reports-emit_completed :
    (env : Env) (v : Uuid) (task : Task) (c : StubRealtimeClient)
    → reports v (emit_completed env task c).emitted
      ≤ reports v c.emitted + (if task.voice_generation_id == v then 1 else 0)
unfolding emit_completed reports
reports-emit_completed env v task c = grind (
  arith,
  reports-append v c.emitted,
  is_about-report_of v task.voice_generation_id
      (contains task.voice_generation_id c.fail_voice_ids),
)

-- What is reported and what may still be reported.
abbrev owed : Uuid → StubRealtimeClient → ℕ
owed v c = reports v c.emitted + asleep v c.tasks

tasks-emit_completed :
    (env : Env) (task : Task) (c : StubRealtimeClient) → (emit_completed env task c).tasks ≡ c.tasks
unfolding emit_completed
tasks-emit_completed env task c = grind arith

owed-wake :
    (env : Env) (v : Uuid) (n : ℕ) (o : Option Task) (c : StubRealtimeClient)
    → get_elem? c.tasks n ≡ o
    → owed v (wake_task env n o c) ≤ owed v c
owed-wake env v n none c e = omega arith
owed-wake env v n (some task) c e = elim (Bool-cases task.done) [
  | inl done ↦ rw done (omega arith)
  | inr awake ↦
      let c' = record c { tasks = finish n c.tasks } in
      let at : owed v (wake_task env n (some task) c) ≡ owed v (emit_completed env task c') =
        ap (λ b. owed v (if b then c else emit_completed env task c')) awake in
      omega (
        arith,
        at,
        reports-emit_completed env v task c',
        ap (asleep v) (tasks-emit_completed env task c'),
        asleep-finish v n c.tasks task e awake,
      )
]

owed-act :
    (env : Env) (v : Uuid) (a : Act) (c : StubRealtimeClient)
    → owed v (act env a c) ≤ owed v c + starts v (a ∷ [])
unfolding act starts send_voice_start send_voice_cancel asleep
owed-act env v (start e) c = ground (arith, asleep-append v c.tasks (task_of e ∷ []))
owed-act env v (cancel e) c = omega arith
owed-act env v register c = omega arith
owed-act env v close_client c = omega arith
owed-act env v (fail_id w) c = omega arith
owed-act env v (wake_up n) c = omega (arith, owed-wake env v n (get_elem? c.tasks n) c refl)

starts-cons :
    (v : Uuid) (a : Act) (acts : List Act) → starts v (a ∷ acts) ≡ starts v (a ∷ []) + starts v acts
unfolding starts
starts-cons v (start e) acts = omega arith
starts-cons v (cancel e) acts = omega arith
starts-cons v register acts = omega arith
starts-cons v close_client acts = omega arith
starts-cons v (fail_id w) acts = omega arith
starts-cons v (wake_up n) acts = omega arith

owed-run :
    (env : Env) (v : Uuid) (acts : List Act) (c : StubRealtimeClient)
    → owed v (run env acts c) ≤ owed v c + starts v acts
unfolding run
owed-run env v [] c = omega arith
owed-run env v (a ∷ acts) c =
    omega (arith, owed-run env v acts (act env a c), owed-act env v a c, starts-cons v a acts)

-- Whatever happens to the client, and in whatever order the tasks wake, a voice is reported at most
-- as often as it was started: no voice is reported twice for one start, and none that was not started.
reports-run :
    (env : Env) (delay_ms : ℕ) (v : Uuid) (acts : List Act)
    → reports v (run env acts (new delay_ms)).emitted ≤ starts v acts
unfolding reports asleep new
reports-run env delay_ms v acts = omega (arith, owed-run env v acts (new delay_ms))
