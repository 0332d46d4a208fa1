-- ===== src/Preview/Holds.antt =====
-- Steps that do not panic.
use minicore_agent.Prelude.{Bool, true, false, if◌then◌else◌, Result, ok, err, ◌>>=◌}
use minicore_agent.Preview.Escapes.{Panic}

-- A step that does not panic, and what holds of its result.
abbrev pub Holds : {A : Type 0} → Result Panic A → (A → Type 0) → Type 0
Holds (ok a) P = P a
Holds (err e) P = ⊥

pub Holds->>= :
    {A B : Type 0} (P : A → Type 0) (Q : B → Type 0) (m : Result Panic A) (f : A → Result Panic B)
    → Holds m P
    → ((a : A) → P a → Holds (f a) Q)
    → Holds (m >>= f) Q
Holds->>= P Q (ok a) f h k = k a h
Holds->>= P Q (err e) f h k = absurd h

pub Holds-map :
    {A : Type 0} {P Q : A → Type 0}
    → ((a : A) → P a → Q a)
    → (m : Result Panic A) → Holds m P
    → Holds m Q
Holds-map f (ok a) h = f a h
Holds-map f (err e) h = absurd h

pub Holds-if :
    {A : Type 0} (P : A → Type 0) (t : Bool) (x y : Result Panic A)
    → Holds x P
    → Holds y P
    → Holds (if t then x else y) P
Holds-if P true x y h k = h
Holds-if P false x y h k = k
