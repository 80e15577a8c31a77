-- ===== src/Exec/Rules.antt =====
-- Proof rules for `Exec`, one for each way to build an action. `Keeps P m`: `m` keeps `P`, whether
-- it returns or raises. `Gives P m Q`: from `P`, whatever `m` returns satisfies `Q` with the state.
use adf.Prelude.{Bool, true, false, ◌≡◌, refl, sym, ap, ◌∙◌, subst, if◌then◌else◌}
use adf.Errors.{Error, Result, ok, err}
use adf.Exec.{Exec, pure, raise, lift, gets, when, continue, ◌>>=◌}

pub record Keeps {ℓ} {State A : Type ℓ} (P : State → Type ℓ) (action : Exec State A) : Type ℓ where
  pub at : (before : State) → P before → P (action before).1

module _ {ℓ} {S A : Type ℓ} {P : S → Type ℓ} where
  -- an action that leaves the state as it was
  Keeps-reader : (m : Exec S A) → ((s : S) → (m s).1 ≡ s) → Keeps P m
  Keeps-reader m same = record { at = λ s p. subst P (sym (same s)) p }

  pub Keeps-gets : (f : S → A) → Keeps P (gets f)
  unfolding gets
  Keeps-gets f = Keeps-reader (gets f) (λ s. refl)

  pub Keeps-lift : (r : Result A) → Keeps P (lift r)
  unfolding lift
  Keeps-lift r = Keeps-reader (lift r) (λ s. refl)

  pub Keeps-pure : (a : A) → Keeps P (pure a)
  unfolding pure
  Keeps-pure a = Keeps-lift (ok a)

  pub Keeps-raise : (e : Error) → Keeps P (raise {A = A} e)
  unfolding raise
  Keeps-raise e = Keeps-lift (err e)

  pub Keeps-if : (b : Bool) (m n : Exec S A) → Keeps P m → Keeps P n → Keeps P (if b then m else n)
  Keeps-if false m n first second = second
  Keeps-if true m n first second = first

  Keeps-continue :
      {B : Type ℓ} (r : Result B) (next : B → Exec S A)
      → ((b : B) → Keeps P (next b))
      → Keeps P (continue r next)
  Keeps-continue (err e) next rest = Keeps-reader _ (λ s. refl)
  Keeps-continue (ok b) next rest = rest b

  pub Keeps-bind :
      {B : Type ℓ} (m : Exec S B) (next : B → Exec S A)
      → Keeps P m
      → ((b : B) → Keeps P (next b))
      → Keeps P (m >>= next)
  unfolding ◌>>=◌
  Keeps-bind m next first rest = record {
    at = λ s p. (Keeps-continue (m s).0 next rest).at (m s).1 (first.at s p);
  }

module _ {S : Type 0} {P : S → Type 0} where
  pub Keeps-when : (b : Bool) (m : Exec S (Unit {0})) → Keeps P m → Keeps P (when b m)
  unfolding when
  Keeps-when true m km = km
  Keeps-when false m km = Keeps-pure tt

pub ruleset keeps_rules =
    (Keeps-pure, Keeps-raise, Keeps-lift, Keeps-gets, Keeps-if, Keeps-when, Keeps-bind)

abbrev pub Post {ℓ} : {S A : Type ℓ} → (A → S → Type ℓ) → Result A × S → Type ℓ
Post Q (ok a, s) = Q a s
Post Q (err e, s) = Unit

pub record Gives {ℓ} {S A : Type ℓ} (P : S → Type ℓ) (m : Exec S A) (Q : A → S → Type ℓ)
    : Type ℓ where
  pub at : (s : S) → P s → Post Q (m s)

module _ {ℓ} {S A : Type ℓ} where
  lift_at :
      (P : S → Type ℓ) (r : Result A) (s : S) → P s → Post (λ a s. P s × (r ≡ ok a)) (lift r s)
  unfolding lift
  lift_at P (ok a) s p = (p, refl)
  lift_at P (err e) s p = tt

  kept_at : (P : S → Type ℓ) (r : Result A × S) → P r.1 → Post (λ a s. P s) r
  kept_at P (ok a, s) p = p
  kept_at P (err e, s) p = tt

  any_at : (r : Result A × S) → Post (λ a s. Unit {ℓ}) r
  any_at (ok a, s) = tt
  any_at (err e, s) = tt

  weaken_at :
      (Q R : A → S → Type ℓ) (r : Result A × S)
      → ((a : A) (s : S) → Q a s → R a s)
      → Post Q r
      → Post R r
  weaken_at Q R (ok a, s) w q = w a s q
  weaken_at Q R (err e, s) w q = tt

module _ {ℓ} {S A B : Type ℓ} where
  bind_at :
      (Q : A → S → Type ℓ) (R : B → S → Type ℓ) (f : A → Exec S B) (r : Result A × S)
      → ((a : A) → Gives (Q a) (f a) R)
      → Post Q r
      → Post R (continue r.0 f r.1)
  bind_at Q R f (ok a, s) g q = (g a).at s q
  bind_at Q R f (err e, s) g q = tt

module _ {ℓ} {S A : Type ℓ} where
  pub Gives-known :
      {F : Type ℓ} {m : Exec S A} {Q : A → S → Type ℓ}
      → (F → Gives (λ s. Unit) m Q)
      → Gives (λ s. F) m Q
  Gives-known g = record { at = λ s f. (g f).at s tt }

module _ {ℓ} {S A : Type ℓ} {P : S → Type ℓ} where
  pub Gives-pure : (a : A) → Gives P (pure a) (λ b s. P s × (b ≡ a))
  unfolding pure
  Gives-pure a = record { at = λ s p. (p, refl) }

  pub Gives-raise : {Q : A → S → Type ℓ} (e : Error) → Gives P (raise e) Q
  unfolding raise
  Gives-raise e = record { at = λ s p. tt }

  pub Gives-lift : (r : Result A) → Gives P (lift r) (λ a s. P s × (r ≡ ok a))
  Gives-lift r = record { at = lift_at P r }

  pub Gives-gets : (f : S → A) → Gives P (gets f) (λ a s. P s × (a ≡ f s))
  unfolding gets
  Gives-gets f = record { at = λ s p. (p, refl) }

  -- an action that keeps `P` has `P` behind it where it returns
  pub Gives-keeps : {m : Exec S A} → Keeps P m → Gives P m (λ a s. P s)
  Gives-keeps {m} k = record { at = λ s p. kept_at P (m s) (k.at s p) }

  -- a fact that does not depend on the state
  pub Gives-fact :
      {F : Type ℓ} {m : Exec S A} {Q : A → S → Type ℓ}
      → (F → Gives P m Q)
      → Gives (λ s. P s × F) m Q
  Gives-fact g = record { at = λ s (p, f). (g f).at s p }

  pub Gives-if :
      (b : Bool) {m n : Exec S A} {Q : A → S → Type ℓ}
      → (b ≡ true → Gives P m Q)
      → (b ≡ false → Gives P n Q)
      → Gives P (if b then m else n) Q
  Gives-if true g h = g refl
  Gives-if false g h = h refl

  pub Gives-any : {m : Exec S A} → Gives P m (λ a s. Unit)
  Gives-any {m} = record { at = λ s p. any_at (m s) }

  pub Gives-weaken :
      {m : Exec S A} {Q R : A → S → Type ℓ}
      → ((a : A) (s : S) → Q a s → R a s)
      → Gives P m Q
      → Gives P m R
  Gives-weaken {m} {Q} {R} w g = record { at = λ s p. weaken_at Q R (m s) w (g.at s p) }

module _ {ℓ} {S A B : Type ℓ} {P : S → Type ℓ} where
  pub Gives-bind :
      {m : Exec S A} {f : A → Exec S B} {Q : A → S → Type ℓ} {R : B → S → Type ℓ}
      → Gives P m Q
      → ((a : A) → Gives (Q a) (f a) R)
      → Gives P (m >>= f) R
  unfolding ◌>>=◌
  Gives-bind {m} {f} {Q} {R} g h = record { at = λ s p. bind_at Q R f (m s) h (g.at s p) }

module _ {S : Type 0} {P : S → Type 0} where
  -- `if b: raise`: behind it, `b` is false
  pub Gives-unless :
      (b : Bool) {m : Exec S (Unit {0})}
      → Gives P m (λ _ _. ⊥)
      → Gives P (when b m) (λ _ s. P s × (b ≡ false))
  unfolding when pure
  Gives-unless true g = Gives-weaken (λ a s none_such. elim none_such [ ]) g
  Gives-unless false g = record { at = λ s p. (p, refl) }

  pub Gives-when :
      (b : Bool) {m : Exec S (Unit {0})} → Gives P m (λ _ s. P s) → Gives P (when b m) (λ _ s. P s)
  unfolding when pure
  Gives-when true g = g
  Gives-when false g = record { at = λ s p. p }

-- What an action gives, where it is known to return.
pub Gives-returned {ℓ} :
    {S A : Type ℓ} {P : S → Type ℓ} {Q : A → S → Type ℓ} {m : Exec S A}
    → Gives P m Q
    → {s t : S} {a : A} → P s
    → m s ≡ (ok a, t)
    → Q a t
Gives-returned {Q} g {s} p e = subst (Post Q) e (g.at s p)

-- `m` never raises.
pub record Returns {ℓ} {S A : Type ℓ} (m : Exec S A) : Type ℓ where
  pub at : (s : S) → (a : A) × ((m s).0 ≡ ok a)

module _ {ℓ} {S A : Type ℓ} where
  pub Returns-pure : (a : A) → Returns {S = S} (pure a)
  unfolding pure
  Returns-pure a = record { at = λ s. (a, refl) }

  pub Returns-gets : (f : S → A) → Returns (gets f)
  unfolding gets
  Returns-gets f = record { at = λ s. (f s, refl) }

  pub Returns-if :
      (b : Bool) {m n : Exec S A}
      → (b ≡ true → Returns m)
      → (b ≡ false → Returns n)
      → Returns (if b then m else n)
  Returns-if true g h = g refl
  Returns-if false g h = h refl

module _ {ℓ} {S A B : Type ℓ} where
  Returns-continue :
      (r : Result A) (a : A) (f : A → Exec S B) (s : S)
      → r ≡ ok a
      → ((a : A) → Returns (f a))
      → (b : B) × ((continue r f s).0 ≡ ok b)
  Returns-continue r a f s e h =
      let (b, done) = (h a).at s in (b, ap (λ r. (continue r f s).0) e ∙ done)

  pub Returns-bind :
      (m : Exec S A) (f : A → Exec S B) → Returns m → ((a : A) → Returns (f a)) → Returns (m >>= f)
  unfolding ◌>>=◌
  Returns-bind m f g h = record {
    at = λ s. Returns-continue (m s).0 (g.at s).0 f (m s).1 (g.at s).1 h;
  }

module _ {S : Type 0} where
  pub Returns-when : (b : Bool) (m : Exec S (Unit {0})) → Returns m → Returns (when b m)
  unfolding when
  Returns-when false m r = Returns-pure tt
  Returns-when true m r = r

-- The rest of a block, where its first action is known to return.
pub bind-returned {ℓ} :
    {S A B : Type ℓ} (m : Exec S A) (f : A → Exec S B) (s t : S) (a : A)
    → m s ≡ (ok a, t)
    → (m >>= f) s ≡ f a t
unfolding ◌>>=◌
bind-returned m f s t a e = ap (λ r. continue r.0 f r.1) e

pub ruleset returns_rules = (Returns-pure, Returns-gets, Returns-when, Returns-bind)
