-- ===== src/Coordinator/Coherence/Keeps.antt =====
-- Code of the coordinator (coordinator.py) that keeps it coherent and returns, put together from
-- parts.
use event_driven_ai_voice.Prelude.{Bool, arith, false, refl, true, ◌≡◌}
use event_driven_ai_voice.Coordinator.Monad.{
  M, Coordinator, Io, bind_ok, gets, modify_io, ok, when, ◌>>=◌, ◌>>◌,
}
use event_driven_ai_voice.Coordinator.Coherence.{IsCoherent}

-- In a coherent state the code returns, and leaves a coherent state.
abbrev pub KeepsAt : Coordinator → M (Unit {0}) → Type 0
KeepsAt c m = IsCoherent c → IsCoherent (m c).0 × ((m c).1 ≡ ok tt)

abbrev pub Keeps : M (Unit {0}) → Type 0
Keeps m = (c : Coordinator) → KeepsAt c m

pub keeps_then :
    (m k : M (Unit {0})) (c : Coordinator) → KeepsAt c m → KeepsAt (m c).0 k → KeepsAt c (m >> k)
keeps_then m k c hm hk h = let (h', r) = hm h in rw (bind_ok m (λ _. k) c r) (hk h')

pub keeps_gets :
    {A : Type 0} (g : Coordinator → A) (f : A → M (Unit {0})) (c : Coordinator)
    → KeepsAt c (f (g c))
    → KeepsAt c (gets g >>= f)
keeps_gets g f c k h = k h

pub Keeps-io : (f : Io → Io) → Keeps (modify_io f)
Keeps-io f c h = ground arith

pub keeps_when :
    (b : Bool) (m : M (Unit {0})) (c : Coordinator) → KeepsAt c m → KeepsAt c (when b m)
keeps_when true m c k h = k h
keeps_when false m c k h = (h, refl)
