-- ===== src/Certificates/Storage/Told.antt =====
-- Rules on what a call of the storage tells when it is answered with `Ok`.
use status_list_server.Base.{Outcome, ok, err, panic}
use status_list_server.Base.Action.{Action, after}

-- What a call that is answered with `Ok` tells.
unfoldable pub Told : {E S A : Type 0} → (A → S → Type 0) → Outcome E A × S → Type 0
Told Q (ok a, t) = Q a t
Told Q (err e, t) = Unit
Told Q (panic, t) = Unit

pub after-Told :
    {E S A B : Type 0} (Q : A → S → Type 0) (R : B → S → Type 0) (f : A → Action E S B)
    (x : Outcome E A × S)
    → Told Q x
    → ((a : A) (t : S) → Q a t → Told R (f a t))
    → Told R (after f x)
unfolding Told
after-Told Q R f (ok a, t) told next = next a t told
after-Told Q R f (err e, t) told next = tt
after-Told Q R f (panic, t) told next = tt

pub map-Told :
    {E S A : Type 0} (Q R : A → S → Type 0) (x : Outcome E A × S)
    → ((a : A) (t : S) → Q a t → R a t)
    → Told Q x
    → Told R x
unfolding Told
map-Told Q R (ok a, t) weaker told = weaker a t told
map-Told Q R (err e, t) weaker told = tt
map-Told Q R (panic, t) weaker told = tt
