-- ===== src/Effects/Logs.antt =====
-- Invariants of the world and of its log, one rule for each way to build an action.
use ocr_serving.Base.{◌≡◌, refl, ap, sym, ◌∙◌, Bool, true, false, if◌then◌else◌, List, ◌∷◌}
use ocr_serving.Effects.{
  Error, Result, ok, err, Call, World, Exec, pure, raise, continue, handled, catch, perform, ◌>>=◌,
}

-- `m` keeps `P` true of the world, whether it returns or raises.
pub record Keeps {S A : Type 0} (P : World S → Type 0) (m : Exec S A) : Type 0 where
  pub at : (w : World S) → P w → P (m w).1

-- `m` keeps `P` true of the log.
abbrev pub Preserves : {S A : Type 0} → (List Call → Type 0) → Exec S A → Type 0
Preserves {S} P m = Keeps {S = S} (λ w. P w.log) m

module _ {S A : Type 0} {P : List Call → Type 0} where
  pub Preserves-perform :
      (answer : Call → S → Result A × S) (c : Call)
      → ((l : List Call) → P l → P (c ∷ l))
      → Preserves P (perform answer c)
  unfolding perform
  Preserves-perform answer c keep = record { at = λ w h. keep w.log h }

module _ {S A : Type 0} {P : World S → Type 0} where
  pub Keeps-pure : (a : A) → Keeps P (pure a)
  Keeps-pure a = record { at = λ w h. h }

  pub Keeps-raise : (e : Error) → Keeps {A = A} P (raise e)
  Keeps-raise e = record { at = λ w h. h }

  pub Keeps-if : (b : Bool) (m n : Exec S A) → Keeps P m → Keeps P n → Keeps P (if b then m else n)
  Keeps-if true m n km kn = km
  Keeps-if false m n km kn = kn

  handled_at :
      (h : Error → Exec S A)
      → ((e : Error) → Keeps P (h e))
      → (r : Result A) (w : World S) → P w
      → P (handled r h w).1
  handled_at h kh (ok a) w p = p
  handled_at h kh (err e) w p = (kh e).at w p

  pub Keeps-catch :
      (m : Exec S A) (h : Error → Exec S A)
      → Keeps P m
      → ((e : Error) → Keeps P (h e))
      → Keeps P (catch m h)
  Keeps-catch m h km kh = record {
    at = λ w p. let (r, w') = m w in handled_at h kh r w' (km.at w p);
  }

module _ {S A B : Type 0} {P : World S → Type 0} where
  continue_at :
      (f : A → Exec S B)
      → ((a : A) → Keeps P (f a))
      → (r : Result A) (w : World S) → P w
      → P (continue r f w).1
  continue_at f kf (ok a) w p = (kf a).at w p
  continue_at f kf (err e) w p = p

  pub Keeps-bind :
      (m : Exec S A) (f : A → Exec S B) → Keeps P m → ((a : A) → Keeps P (f a)) → Keeps P (m >>= f)
  Keeps-bind m f km kf = record {
    at = λ w p. let (r, w') = m w in continue_at f kf r w' (km.at w p);
  }

module _ {S A B : Type 0} {P : World S → Type 0} where
  -- The second part may count on what the first returned.
  pub Keeps-then :
      (m : Exec S A) (f : A → Exec S B)
      → Keeps P m
      → ((w : World S) (a : A) → P w → (m w).0 ≡ ok a → P (m w).1 → P (f a (m w).1).1)
      → Keeps P (m >>= f)
  Keeps-then m f km kf = record { at = λ w p. go w p (m w).0 refl (km.at w p) }
    where
      go :
          (w : World S)
          → P w
          → (r : Result A) → (m w).0 ≡ r
          → P (m w).1
          → P (continue r f (m w).1).1
      go w p (ok a) e q = kf w a p e q
      go w p (err x) e q = q

pub ruleset log_rules =
    (Keeps-pure, Keeps-raise, Preserves-perform, Keeps-if, Keeps-catch, Keeps-bind)

module _ {S A B : Type 0} where
  -- An action that returned has run each of its parts.
  pub bind_ok :
      (m : Exec S A) (f : A → Exec S B) (w : World S) {b : B}
      → ((m >>= f) w).0 ≡ ok b
      → (a : A) × ((m w).0 ≡ ok a) × ((m >>= f) w ≡ f a (m w).1)
  bind_ok m f w h = go (m w).0 refl
    where
      go : (r : Result A) → (m w).0 ≡ r → (a : A) × ((m w).0 ≡ ok a) × ((m >>= f) w ≡ f a (m w).1)
      go (ok a) e = (a, e, ap (λ x. continue x f (m w).1) e)
      go (err x) e = absurd (raised (sym h ∙ ap (λ y. (continue y f (m w).1).0) e))
        where
          raised : {b : B} → ok b ≡ err x → ⊥
          raised p = cc

  -- What is left of a successful action behind its first part.
  pub bind_rest :
      (m : Exec S A) (f : A → Exec S B) (w : World S) {b : B} {a : A}
      → ((m >>= f) w).0 ≡ ok b
      → (m >>= f) w ≡ f a (m w).1
      → (f a (m w).1).0 ≡ ok b
  bind_rest m f w h e = ap (λ x. x.0) (sym e) ∙ h

-- An action that returned was answered.
pub perform_ok :
    {S A : Type 0} (answer : Call → S → Result A × S) (c : Call) (w : World S) (a : A)
    → (perform answer c w).0 ≡ ok a
    → answer c w.state ≡ (ok a, (perform answer c w).1.state)
unfolding perform
perform_ok answer c w a h = ap (λ r. (r, (answer c w.state).1)) h

pub perform_err :
    {S A : Type 0} (answer : Call → S → Result A × S) (c : Call) (w : World S) (e : Error)
    → (perform answer c w).0 ≡ err e
    → answer c w.state ≡ (err e, (perform answer c w).1.state)
unfolding perform
perform_err answer c w e h = ap (λ r. (r, (answer c w.state).1)) h

-- What is returned at the end is no call.
pub continue-pure-log :
    {S A B : Type 0} (r : Result A) (b : B) (w : World S)
    → (continue r (λ a. pure b) w).1.log ≡ w.log
continue-pure-log (ok a) b w = refl
continue-pure-log (err e) b w = refl
