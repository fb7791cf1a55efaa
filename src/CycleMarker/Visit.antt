-- ===== src/CycleMarker/Visit.antt =====
-- A visit keeps what is below it on the stack, and leaves a root for its container.
use py_pointless.Base.{ℕ, Bool, List}
use py_pointless.CycleMarker.{CycleMarkerInfo, JudyL, State, Marked}
use py_pointless.CycleMarker.Safety.{Above, At, IsState, Safe}

module _ (judy : JudyL) where
  module _ (info : CycleMarkerInfo) (has_room : List ℕ → Bool) where
    -- What a visit of `w` promises
    abbrev Visits : ℕ → (ℕ → State judy → Marked judy) → Type 0
    Visits w visit' =
        (s : State judy)
        → IsState judy s
        → Safe judy s (λ s'. At judy s'.root (info.container_id w) × Above s.stack s'.stack)
            (visit' w s)
