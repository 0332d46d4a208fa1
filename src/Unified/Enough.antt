-- ===== src/Unified/Enough.antt =====
-- Steps that do not fail as a loop does that runs out of fuel.
use minicore_agent.Prelude.{
  ◌≡◌, refl, ◌≢◌, Bool, true, false, Option, none, some, if◌then◌else◌, Result, ok, err, ◌>>=◌,
  ◌>>◌, guard, ok_or,
}
use minicore_agent.Patch.{ToolError, invalid_invocation, internal}

abbrev pub Enough : {A : Type 0} → Result ToolError A → Type 0
Enough m = m ≢ err internal

pub Enough-ok : {A : Type 0} (a : A) → Enough (ok a)
Enough-ok a e = cc

pub Enough-err : {A : Type 0} → Enough {A = A} (err invalid_invocation)
Enough-err e = cc

pub Enough-ok_or : {A : Type 0} (o : Option A) → Enough (ok_or o invalid_invocation)
Enough-ok_or none e = cc
Enough-ok_or (some a) e = cc

pub Enough-guard : (t : Bool) → Enough (guard t invalid_invocation)
Enough-guard true e = cc
Enough-guard false e = cc

pub Enough->>= :
    {A B : Type 0} (m : Result ToolError A) (f : A → Result ToolError B)
    → Enough m
    → ((a : A) → m ≡ ok a → Enough (f a))
    → Enough (m >>= f)
Enough->>= (ok a) f h k = k a refl
Enough->>= (err invalid_invocation) f h k = λ e. cc
Enough->>= (err ToolError.failed) f h k = λ e. cc
Enough->>= (err internal) f h k = absurd (h refl)

pub Enough-if :
    {A : Type 0} (t : Bool) {x y : Result ToolError A}
    → (t ≡ true → Enough x)
    → (t ≡ false → Enough y)
    → Enough (if t then x else y)
Enough-if true h k = h refl
Enough-if false h k = k refl

pub Enough-guard->> :
    {A : Type 0} (t : Bool) (m : Result ToolError A)
    → (t ≡ true → Enough m)
    → Enough (guard t invalid_invocation >> m)
Enough-guard->> true m h = h refl
Enough-guard->> false m h = λ e. cc
