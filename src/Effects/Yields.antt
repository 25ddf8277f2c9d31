-- ===== src/Effects/Yields.antt =====
-- What an action that returns has done to the environment's state, one rule for each way to build it.
use ocr_serving.Base.{◌≡◌, refl, sym, subst, ◌∙◌}
use ocr_serving.Effects.{
  Error, Result, ok, err, Call, World, Exec, pure, raise, handled, catch, perform, ◌>>=◌,
}
use ocr_serving.Effects.Logs.{bind_ok, bind_rest, perform_ok}

-- Where `m` returns, `R` relates the state before, the answer and the state behind.
pub record Yields {S A : Type 0} (R : S → A → S → Type 0) (m : Exec S A) : Type 0 where
  pub at : (w : World S) (a : A) → (m w).0 ≡ ok a → R w.state a (m w).1.state

ok_injective : {A : Type 0} {a b : A} → ok a ≡ ok b → a ≡ b
ok_injective e = cc

raised : {A : Type 0} {a : A} {e : Error} → err e ≡ ok a → ⊥
raised h = cc

module _ {S A : Type 0} where
  pub Yields-perform :
      {R : S → A → S → Type 0} (answer : Call → S → Result A × S) (c : Call)
      → ((s : S) (a : A) (t : S) → answer c s ≡ (ok a, t) → R s a t)
      → Yields R (perform answer c)
  Yields-perform answer c law = record {
    at = λ w a h. law w.state a (perform answer c w).1.state (perform_ok answer c w a h);
  }

  pub Yields-pure : {R : S → A → S → Type 0} (a : A) → ((s : S) → R s a s) → Yields R (pure a)
  Yields-pure {R} a h = record {
    at = λ w b e. subst (λ x. R w.state x w.state) (ok_injective e) (h w.state);
  }

  pub Yields-raise : {R : S → A → S → Type 0} (e : Error) → Yields R (raise e)
  Yields-raise e = record { at = λ w a h. absurd (raised h) }

  -- The handler starts from the state that the exception left.
  pub Yields-catch :
      {R : S → A → S → Type 0} (Q : S → Error → S → Type 0) (m : Exec S A) (h : Error → Exec S A)
      → Yields R m
      → ((w : World S) (e : Error) → (m w).0 ≡ err e → Q w.state e (m w).1.state)
      → ((e : Error) → Yields (λ t a t₂. (s : S) → Q s e t → R s a t₂) (h e))
      → Yields R (catch m h)
  Yields-catch {R} Q m h km kq kh = record { at = λ w a e. go w (m w).0 refl a e }
    where
      go :
          (w : World S) (r : Result A)
          → (m w).0 ≡ r
          → (a : A) → (handled r h (m w).1).0 ≡ ok a
          → R w.state a (handled r h (m w).1).1.state
      go w (ok x) at_x a e = km.at w a (at_x ∙ e)
      go w (err x) at_x a e = (kh x).at (m w).1 a e w.state (kq w x at_x)

module _ {S A B : Type 0} where
  pub Yields-bind :
      (R : S → A → S → Type 0) (Q : A → S → B → S → Type 0) {T : S → B → S → Type 0} (m : Exec S A)
      (f : A → Exec S B)
      → Yields R m
      → ((a : A) → Yields (Q a) (f a))
      → ((s : S) (a : A) (t : S) (b : B) (t₂ : S) → R s a t → Q a t b t₂ → T s b t₂)
      → Yields T (m >>= f)
  Yields-bind R Q {T} m f km kf join = record {
    at = λ w b h.
        let (a, at_a, e) = bind_ok m f w h in
        subst (λ x. T w.state b x.1.state) (sym e)
          (join w.state a (m w).1.state b (f a (m w).1).1.state (km.at w a at_a)
            ((kf a).at (m w).1 b (bind_rest m f w h e)));
  }
