-- ===== src/Outbound/Sql/Store/Endings.antt =====
-- Rules on how a method may end, with an answer, an error or a panic.
use status_list_server.Base.{Outcome, ok, err, panic, ◌≡◌}
use status_list_server.Base.Action.{Action, after, reword}
use status_list_server.Outbound.Sql.Database.Contract.{Ends}

-- The rule for a chain, from what its first step leaves.
pub Ends-after :
    {E A B S : Type 0} (F G : S → Type 0) (P : A → S → Type 0) (R : B → S → Type 0)
    (k : A → Action E S B) (x : Outcome E A × S)
    → Ends F G P x
    → ((a : A) (s : S) → P a s → Ends F G R (k a s))
    → Ends F G R (after k x)
Ends-after F G P R k (ok a, s) h next = next a s h
Ends-after F G P R k (err e, s) h next = h
Ends-after F G P R k (panic, s) h next = h

pub Ends-reword :
    {E F A S : Type 0} (X G : S → Type 0) (P : A → S → Type 0) (f : E → F) (x : Outcome E A × S)
    → Ends X G P x
    → Ends X G P (reword f x)
Ends-reword X G P f (ok a, s) h = h
Ends-reword X G P f (err e, s) h = h
Ends-reword X G P f (panic, s) h = h

pub Ends-mono :
    {E A S : Type 0} (F G X Y : S → Type 0) (P Q : A → S → Type 0) (x : Outcome E A × S)
    → ((s : S) → F s → X s)
    → ((s : S) → G s → Y s)
    → ((a : A) (s : S) → P a s → Q a s)
    → Ends F G P x
    → Ends X Y Q x
Ends-mono F G X Y P Q (ok a, s) f g p h = p a s h
Ends-mono F G X Y P Q (err e, s) f g p h = f s h
Ends-mono F G X Y P Q (panic, s) f g p h = g s h

-- An answer that is not a success.
abbrev pub IsFailure : {E S : Type 0} → Outcome E (Unit {0}) × S → S → Type 0
IsFailure (ok done, s) s' = ⊥
IsFailure (err e, s) s' = s ≡ s'
IsFailure (panic, s) s' = s ≡ s'
