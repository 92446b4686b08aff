-- ===== src/Base/Effects/Rules.antt =====
-- Rules for what a program keeps, for what it leaves where it returns, and for when it returns.
use mathlib.Core.Bool.{Bool, true, false}
use mathlib.Core.List.{List}
use mathlib.Core.Option.{Option, none, some}
use mathlib.Core.Path.{◌≡◌, refl, ap, subst, ◌∙◌}
use mathlib.Core.Logic.{◌≢◌}
use ava_capture.Base.Tests.{⊤, if◌then◌else◌}
use ava_capture.Base.Effects.{
  Error, Result, ok, err, Effect, pure, raise, gets, or_raise, ◌>>=◌, for_each, >>=-ok, bind_inv,
  for_each_inv,
}

-- Where a program returns, `P` holds of what it returns and leaves.
abbrev pub Returned : {S A : Type 0} → (A → S → Type 0) → Result A × S → Type 0
Returned P (ok a, w) = P a w
Returned P (err e, w) = ⊤

-- A program keeps `P`, whether it returns or raises.
pub record Keeps {S A : Type 0} (P : S → Type 0) (m : Effect S A) : Type 0 where
  pub at : (w : S) → P w → P (m w).1

pub Keeps-bind :
    {S A B : Type 0} {P : S → Type 0} {m : Effect S A} {f : A → Effect S B}
    → Keeps P m
    → ((a : A) → Keeps P (f a))
    → Keeps P (m >>= f)
Keeps-bind {P = P} {m = m} {f = f} first next = record {
  at = λ w h. bind_inv P m f w (first.at w h) (λ a. (next a).at);
}

pub Keeps-or_raise :
    {S A : Type 0} {P : S → Type 0} (o : Option A) (e : Error) → Keeps P (or_raise o e)
Keeps-or_raise none e = record { at = λ w h. h }
Keeps-or_raise (some a) e = record { at = λ w h. h }

pub Keeps-lookup :
    {S A : Type 0} {P : S → Type 0} (look : S → Option A) (e : Error)
    → Keeps P (λ w. or_raise (look w) e w)
Keeps-lookup {P = P} look e = record { at = λ w. (Keeps-or_raise {P = P} (look w) e).at w }

pub Keeps-if :
    {S A : Type 0} {P : S → Type 0} {m n : Effect S A} (b : Bool)
    → Keeps P m
    → Keeps P n
    → Keeps P (if b then m else n)
Keeps-if Bool.true k l = k
Keeps-if Bool.false k l = l

pub Keeps-gets : {S A : Type 0} {P : S → Type 0} (f : S → A) → Keeps P (gets f)
Keeps-gets f = record { at = λ w h. h }

pub Keeps-pure : {S A : Type 0} {P : S → Type 0} (a : A) → Keeps P (pure a)
Keeps-pure a = record { at = λ w h. h }

pub Keeps-raise : {S A : Type 0} {P : S → Type 0} (e : Error) → Keeps P (raise {A = A} e)
Keeps-raise e = record { at = λ w h. h }

pub Keeps-for_each :
    {S A : Type 0} {P : S → Type 0} {body : A → Effect S ⊤}
    → ((a : A) → Keeps P (body a))
    → (xs : List A) → Keeps P (for_each body xs)
Keeps-for_each {P = P} {body = body} keep xs = record {
  at = for_each_inv P body (λ a. (keep a).at) xs;
}

-- From a state with `P`, a program that returns leaves `Q` of what it returns and of the state.
pub record Triple {S A : Type 0} (P : S → Type 0) (m : Effect S A) (Q : A → S → Type 0)
    : Type 0 where
  pub at : (w : S) → P w → Returned Q (m w)

triple_bind_at :
    {S A B : Type 0} (Q : A → S → Type 0) (R : B → S → Type 0) (r : Result A) (w : S)
    (f : A → Effect S B)
    → Returned Q (r, w)
    → ((a : A) (w' : S) → Q a w' → Returned R (f a w'))
    → Returned R (◌>>=◌ (λ _. (r, w)) f w)
triple_bind_at Q R (ok a) w f h next = next a w h
triple_bind_at Q R (err e) w f h next = tt

pub triple_bind :
    {S A B : Type 0} {P : S → Type 0} {Q : A → S → Type 0} {R : B → S → Type 0} {m : Effect S A}
    {f : A → Effect S B}
    → Triple P m Q
    → ((a : A) → Triple (Q a) (f a) R)
    → Triple P (m >>= f) R
triple_bind {Q = Q} {R = R} {m = m} {f = f} first next = record {
  at = λ w h. triple_bind_at Q R (m w).0 (m w).1 f (first.at w h) (λ a. (next a).at);
}

Returned-of_inv : {S A : Type 0} (P : S → Type 0) (p : Result A × S) → P p.1 → Returned (λ _. P) p
Returned-of_inv P (ok a, w) h = h
Returned-of_inv P (err e, w) h = tt

pub triple_keeps :
    {S A : Type 0} {P : S → Type 0} {m : Effect S A} → Keeps P m → Triple P m (λ _. P)
triple_keeps {P = P} {m = m} keep = record { at = λ w h. Returned-of_inv P (m w) (keep.at w h) }

pub triple_pure :
    {S A : Type 0} {P : S → Type 0} {Q : A → S → Type 0} (a : A)
    → ((w : S) → P w → Q a w)
    → Triple P (pure a) Q
triple_pure a h = record { at = h }

or_raise_found :
    {S A : Type 0} (Q : A → S → Type 0) (o : Option A) (e : Error) (w : S)
    → ((a : A) → o ≡ some a → Q a w)
    → Returned Q (or_raise o e w)
or_raise_found Q none e w h = tt
or_raise_found Q (some a) e w h = h a refl

-- A lookup in the state.
pub triple_lookup :
    {S A : Type 0} {P : S → Type 0} (look : S → Option A) (e : Error)
    → Triple P (λ w. or_raise (look w) e w) (λ a w. P w × (look w ≡ some a))
triple_lookup {P = P} look e = record {
  at = λ w h.
      or_raise_found (λ a w'. P w' × (look w' ≡ some a)) (look w) e w (λ a found. (h, found));
}

pub triple_from :
    {S A : Type 0} {P P' : S → Type 0} {Q : A → S → Type 0} {m : Effect S A}
    → ((w : S) → P' w → P w)
    → Triple P m Q
    → Triple P' m Q
triple_from weaker t = record { at = λ w h. t.at w (weaker w h) }

pub triple_if :
    {S A : Type 0} {P : S → Type 0} {Q : A → S → Type 0} {m n : Effect S A} (b : Bool)
    → Triple P m Q
    → Triple P n Q
    → Triple P (if b then m else n) Q
triple_if Bool.true t u = t
triple_if Bool.false t u = u

-- What a triple says of a run that has returned.
pub triple_run :
    {S A : Type 0} (P : S → Type 0) (m : Effect S A) (Q : A → S → Type 0) (w : S)
    → Triple P m Q
    → P w
    → (a : A) (w' : S) → m w ≡ (ok a, w')
    → Q a w'
triple_run P m Q w t h a w' e = subst (Returned Q) e (t.at w h)

-- From a state with `P`, a program returns, and leaves `Q` of what it returns and of the state.
pub record Total {S A : Type 0} (P : S → Type 0) (m : Effect S A) (Q : A → S → Type 0)
    : Type 0 where
  pub at : (w : S) → P w → (a : A) × (w' : S) × (m w ≡ (ok a, w')) × Q a w'

pub total_bind :
    {S A B : Type 0} {P : S → Type 0} {Q : A → S → Type 0} {R : B → S → Type 0} {m : Effect S A}
    {f : A → Effect S B}
    → Total P m Q
    → ((a : A) → Total (Q a) (f a) R)
    → Total P (m >>= f) R
total_bind {m = m} {f = f} first next = record {
  at = λ w h.
      let (a, w', e, q) = first.at w h in
      let (b, w″, e', r) = (next a).at w' q in (b, w″, >>=-ok m f w e ∙ e', r);
}

pub total_pure :
    {S A : Type 0} {P : S → Type 0} {Q : A → S → Type 0} (a : A)
    → ((w : S) → P w → Q a w)
    → Total P (pure a) Q
total_pure a h = record { at = λ w p. (a, w, refl, h w p) }

-- A lookup that finds something.
pub total_lookup :
    {S A : Type 0} {P : S → Type 0} (look : S → Option A) (e : Error)
    → ((w : S) → P w → look w ≢ none)
    → Total P (λ w. or_raise (look w) e w) (λ a w. P w × (look w ≡ some a))
total_lookup {S = S} {A = A} {P = P} look e found = record { at = λ w h. by_look w h (look w) refl }
  where
    by_look :
        (w : S)
        → P w
        → (o : Option A) → look w ≡ o
        → (a : A) × (w' : S) × (or_raise (look w) e w ≡ (ok a, w')) × (P w' × (look w' ≡ some a))
    by_look w h none at = absurd (found w h at)
    by_look w h (some a) at = (a, w, ap (λ o. or_raise o e w) at, (h, at))

pub total_from :
    {S A : Type 0} {P P' : S → Type 0} {Q : A → S → Type 0} {m : Effect S A}
    → ((w : S) → P' w → P w)
    → Total P m Q
    → Total P' m Q
total_from weaker t = record { at = λ w h. t.at w (weaker w h) }

-- A part of the condition that is not about the state.
pub total_given :
    {S A : Type 0} {P : S → Type 0} {F : Type 0} {Q : A → S → Type 0} {m : Effect S A}
    → (F → Total P m Q)
    → Total (λ w. P w × F) m Q
total_given t = record { at = λ w h. (t h.1).at w h.0 }

-- What a program leaves: `Q` where it returns, `R` where it raises.
abbrev pub Ends : {S A : Type 0} → (A → S → Type 0) → (S → Type 0) → Result A × S → Type 0
Ends Q R (ok a, w) = Q a w
Ends Q R (err e, w) = R w

-- From a state with `P`, a program that returns leaves `Q`, and one that raises leaves `R`.
pub record Contract {S A : Type 0} (P : S → Type 0) (m : Effect S A) (Q : A → S → Type 0)
    (R : S → Type 0) : Type 0 where
  pub at : (w : S) → P w → Ends Q R (m w)

outcome_bind_at :
    {S A B : Type 0} (Q : A → S → Type 0) (T : B → S → Type 0) (R : S → Type 0) (r : Result A)
    (w : S) (f : A → Effect S B)
    → Ends Q R (r, w)
    → ((a : A) (w' : S) → Q a w' → Ends T R (f a w'))
    → Ends T R (◌>>=◌ (λ _. (r, w)) f w)
outcome_bind_at Q T R (ok a) w f h next = next a w h
outcome_bind_at Q T R (err e) w f h next = h

pub outcome_bind :
    {S A B : Type 0} {P : S → Type 0} {Q : A → S → Type 0} {T : B → S → Type 0} {R : S → Type 0}
    {m : Effect S A} {f : A → Effect S B}
    → Contract P m Q R
    → ((a : A) → Contract (Q a) (f a) T R)
    → Contract P (m >>= f) T R
outcome_bind {Q = Q} {T = T} {R = R} {m = m} {f = f} first next = record {
  at = λ w h. outcome_bind_at Q T R (m w).0 (m w).1 f (first.at w h) (λ a. (next a).at);
}

pub outcome_pure :
    {S A : Type 0} {P : S → Type 0} {Q : A → S → Type 0} {R : S → Type 0} (a : A)
    → ((w : S) → P w → Q a w)
    → Contract P (pure a) Q R
outcome_pure a h = record { at = h }

pub outcome_raise :
    {S A : Type 0} {P : S → Type 0} {Q : A → S → Type 0} {R : S → Type 0} (e : Error)
    → ((w : S) → P w → R w)
    → Contract P (raise {A = A} e) Q R
outcome_raise e h = record { at = h }

pub outcome_if :
    {S A : Type 0} {P : S → Type 0} {Q : A → S → Type 0} {R : S → Type 0} {m n : Effect S A}
    (b : Bool)
    → (b ≡ true → Contract P m Q R)
    → (b ≡ false → Contract P n Q R)
    → Contract P (if b then m else n) Q R
outcome_if true t u = t refl
outcome_if false t u = u refl

Ends-weaken :
    {S A : Type 0} (Q : A → S → Type 0) (R R' : S → Type 0) (p : Result A × S)
    → ((w : S) → R w → R' w)
    → Ends Q R p
    → Ends Q R' p
Ends-weaken Q R R' (ok a, w) weaker h = h
Ends-weaken Q R R' (err e, w) weaker h = weaker w h

pub outcome_weaken :
    {S A : Type 0} {P : S → Type 0} {Q : A → S → Type 0} {R R' : S → Type 0} {m : Effect S A}
    → ((w : S) → R w → R' w)
    → Contract P m Q R
    → Contract P m Q R'
outcome_weaken {Q = Q} {R = R} {R' = R'} {m = m} weaker o = record {
  at = λ w h. Ends-weaken Q R R' (m w) weaker (o.at w h);
}

Ends-conseq :
    {S A : Type 0} (Q Q' : A → S → Type 0) (R : S → Type 0) (p : Result A × S)
    → ((a : A) (w : S) → Q a w → Q' a w)
    → Ends Q R p
    → Ends Q' R p
Ends-conseq Q Q' R (ok a, w) weaker h = weaker a w h
Ends-conseq Q Q' R (err e, w) weaker h = h

pub outcome_conseq :
    {S A : Type 0} {P P' : S → Type 0} {Q Q' : A → S → Type 0} {R : S → Type 0} {m : Effect S A}
    → ((w : S) → P' w → P w)
    → ((a : A) (w : S) → Q a w → Q' a w)
    → Contract P m Q R
    → Contract P' m Q' R
outcome_conseq {Q = Q} {Q' = Q'} {R = R} {m = m} before after o = record {
  at = λ w h. Ends-conseq Q Q' R (m w) after (o.at w (before w h));
}

-- A part of the condition that is not about the state.
pub outcome_given :
    {S A : Type 0} {P : S → Type 0} {F : Type 0} {Q : A → S → Type 0} {R : S → Type 0}
    {m : Effect S A}
    → (F → Contract P m Q R)
    → Contract (λ w. P w × F) m Q R
outcome_given t = record { at = λ w h. (t h.1).at w h.0 }

pub outcome_gets : {S A : Type 0} {P R : S → Type 0} (f : S → A) → Contract P (gets f) (λ _. P) R
outcome_gets f = record { at = λ w p. p }

Ends-fine :
    {S A : Type 0} (Q : A → S → Type 0) (R : S → Type 0) (p : Result A × S)
    → Ends Q R p
    → Ends {A = A} (λ _ _. ⊤) (λ _. ⊥) p
    → Ends Q (λ _. ⊥) p
Ends-fine Q R (ok a, w) h fine = h
Ends-fine Q R (err e, w) h fine = fine

-- A program that does not raise, by what it leaves where it returns.
pub outcome_fine :
    {S A : Type 0} {P : S → Type 0} {Q : A → S → Type 0} {R : S → Type 0} {m : Effect S A}
    → Contract P m Q R
    → Contract P m (λ _ _. ⊤) (λ _. ⊥)
    → Contract P m Q (λ _. ⊥)
outcome_fine {Q = Q} {R = R} {m = m} rule fine = record {
  at = λ w h. Ends-fine Q R (m w) (rule.at w h) (fine.at w h);
}

Ends-and :
    {S A : Type 0} (Q : A → S → Type 0) (R K : S → Type 0) (p : Result A × S)
    → Ends Q R p
    → K p.1
    → Ends (λ a w. Q a w × K w) R p
Ends-and Q R K (ok a, w) h k = (h, k)
Ends-and Q R K (err e, w) h k = h

-- What a program keeps, beside what it leaves.
pub outcome_keeps :
    {S A : Type 0} {P K : S → Type 0} {Q : A → S → Type 0} {R : S → Type 0} {m : Effect S A}
    → Contract P m Q R
    → Keeps K m
    → Contract (λ w. P w × K w) m (λ a w. Q a w × K w) R
outcome_keeps {K = K} {Q = Q} {R = R} {m = m} rule keep = record {
  at = λ w (p, k). Ends-and Q R K (m w) (rule.at w p) (keep.at w k);
}

-- A check that holds.
pub outcome_check :
    {S : Type 0} {P R : S → Type 0} (test : S → Bool) (e : Error)
    → ((w : S) → P w → test w ≡ true)
    → Contract P (λ w. (if test w then pure tt else raise e) w) (λ _. P) R
outcome_check test e holds = record { at = λ w h. rw (holds w h) h }
