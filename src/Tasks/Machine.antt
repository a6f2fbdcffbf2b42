-- ===== src/Tasks/Machine.antt =====
-- The state machine as a relation: which statuses a task can still reach.
use coes_platform.Base.{Bool, true, false, ◌≡◌, ◌⊎◌, inl, inr, refl, ◌∙◌, arith}
use coes_platform.Tasks.State.{
  TaskStatus, draft, assigned, accepted, in_progress, on_hold, completed, verified, returned,
  cannot_execute, cancelled, closed,
}
use coes_platform.Tasks.Status.{may_go}

pub data Reaches : TaskStatus → TaskStatus → Type 0 where
  here : {s : TaskStatus} → Reaches s s
  next : {s t u : TaskStatus} → may_go s t ≡ true → Reaches t u → Reaches s u

-- From every status a task can still be closed.
pub Reaches-closed : (s : TaskStatus) → Reaches s closed
unfolding may_go
Reaches-closed draft = next {t = cancelled} refl (next refl here)
Reaches-closed assigned = next {t = cancelled} refl (next refl here)
Reaches-closed accepted = next {t = cancelled} refl (next refl here)
Reaches-closed in_progress = next {t = cancelled} refl (next refl here)
Reaches-closed on_hold = next {t = cancelled} refl (next refl here)
Reaches-closed completed = next refl here
Reaches-closed verified = next refl here
Reaches-closed returned = next {t = in_progress} refl (next {t = cancelled} refl (next refl here))
Reaches-closed cannot_execute = next {t = cancelled} refl (next refl here)
Reaches-closed cancelled = next refl here
Reaches-closed closed = here

-- The statuses after which no work is done any more.
abbrev pub is_settled : TaskStatus → Bool
is_settled verified = true
is_settled cancelled = true
is_settled closed = true
is_settled _ = false

settled-step : (s t : TaskStatus) → is_settled s ≡ true → may_go s t ≡ true → t ≡ closed
unfolding may_go
settled-step s t h e = ground arith

-- From verified, cancelled or closed the state machine reaches nothing but that status and closed.
pub Reaches-settled :
    {s u : TaskStatus} → Reaches s u → is_settled s ≡ true → (u ≡ s) ⊎ (u ≡ closed)
Reaches-settled here h = inl refl
Reaches-settled (next {s = s} {t = t} e r) h =
    let last = settled-step s t h e in
    let more = Reaches-settled r (rw last refl) in
    inr (elim more [ inl same ↦ same ∙ last | inr done ↦ done ])
