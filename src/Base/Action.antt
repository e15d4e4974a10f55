-- ===== src/Base/Action.antt =====
-- A method on shared state: it returns an outcome and the state that it leaves.
use mathlib.Core.Path.{◌≡◌, refl}
use status_list_server.Base.Results.{Outcome, ok, err, panic}

abbrev pub Action : Type 0 → Type 0 → Type 0 → Type 0
Action E S A = S → Outcome E A × S

-- What follows a method, from what it returned.
abbrev pub after : {E S A B : Type 0} → (A → Action E S B) → Outcome E A × S → Outcome E B × S
after f (ok a, s) = f a s
after f (err e, s) = (err e, s)
after f (panic, s) = (panic, s)

infixl 5 ◌>>=◌ ◌>>◌
abbrev pub ◌>>=◌ : {E S A B : Type 0} → Action E S A → (A → Action E S B) → Action E S B
◌>>=◌ m f s = after f (m s)

abbrev pub ◌>>◌ : {E S B : Type 0} → Action E S (Unit {0}) → Action E S B → Action E S B
m >> k = m >>= λ _. k

abbrev pub pure : {E S A : Type 0} → A → Action E S A
pure a s = (ok a, s)

abbrev pub throw : {E S A : Type 0} → E → Action E S A
throw e s = (err e, s)

-- A computation that does not touch the state.
abbrev pub lift : {E S A : Type 0} → Outcome E A → Action E S A
lift m s = (m, s)

abbrev pub resume :
    {E S A B : Type 0} → (Outcome E A → Action E S B) → Outcome E A × S → Outcome E B × S
resume f (ok a, s) = f (ok a) s
resume f (err e, s) = f (err e) s
resume f (panic, s) = (panic, s)

-- A result that is looked at, not passed on by `?`. A panic is not caught.
abbrev pub attempt : {E S A B : Type 0} → Action E S A → (Outcome E A → Action E S B) → Action E S B
attempt m f s = resume f (m s)

-- What holds of each way in which a first step may end holds of the chain.
pub bind_rule {ℓ} :
    {E S A B : Type 0} (Q : Outcome E B × S → Type ℓ) (m : Action E S A) (f : A → Action E S B)
    (s : S)
    → ((a : A) (s' : S) → m s ≡ (ok a, s') → Q (f a s'))
    → ((e : E) (s' : S) → m s ≡ (err e, s') → Q (err e, s'))
    → ((s' : S) → m s ≡ (panic, s') → Q (panic, s'))
    → Q ((m >>= f) s)
bind_rule {E} {S} {A} Q m f s done failed lost = split (m s) refl
  where
    split : (x : Outcome E A × S) → m s ≡ x → Q (after f x)
    split (ok a, s') e = done a s' e
    split (err e, s') h = failed e s' h
    split (panic, s') h = lost s' h

pub lift_rule {ℓ} :
    {E S A B : Type 0} (Q : Outcome E B × S → Type ℓ) (m : Outcome E A) (f : A → Action E S B)
    (s : S)
    → ((a : A) → m ≡ ok a → Q (f a s))
    → ((e : E) → Q (err e, s))
    → Q (panic, s)
    → Q ((lift m >>= f) s)
lift_rule Q (ok a) f s done failed lost = done a refl
lift_rule Q (err e) f s done failed lost = failed e
lift_rule Q panic f s done failed lost = lost

pub attempt_rule {ℓ} :
    {E S A B : Type 0} (Q : Outcome E B × S → Type ℓ) (m : Action E S A)
    (f : Outcome E A → Action E S B) (s : S)
    → ((r : Outcome E A) (s' : S) → m s ≡ (r, s') → Q (f r s'))
    → ((s' : S) → m s ≡ (panic, s') → Q (panic, s'))
    → Q (attempt m f s)
attempt_rule {E} {S} {A} Q m f s done lost = split (m s) refl
  where
    split : (x : Outcome E A × S) → m s ≡ x → Q (resume f x)
    split (ok a, s') e = done (ok a) s' e
    split (err e, s') h = done (err e) s' h
    split (panic, s') h = lost s' h

-- `map_err` of a method, also where `?` turns its error into another.
abbrev pub reword : {E F S A : Type 0} → (E → F) → Outcome E A × S → Outcome F A × S
reword f (ok a, s) = (ok a, s)
reword f (err e, s) = (err (f e), s)
reword f (panic, s) = (panic, s)

abbrev pub answering : {E F S A : Type 0} → (E → F) → Action E S A → Action F S A
answering f m s = reword f (m s)

abbrev pub fmap : {E S A B : Type 0} → (A → B) → Action E S A → Action E S B
fmap f m = m >>= λ a. pure (f a)
