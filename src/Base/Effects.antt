-- ===== src/Base/Effects.antt =====
-- What a program does: it changes a state, and returns or raises. The state outlives an exception,
-- since the site commits each statement on its own.
pub mod Rules
use mathlib.Core.Bool.{Bool}
use mathlib.Core.List.{List, [], ◌∷◌}
use mathlib.Core.Option.{Option, none, some}
use mathlib.Core.Path.{◌≡◌, refl, ap, subst, ◌∙◌}
use mathlib.Core.Logic.{◌≢◌}
use ava_capture.Base.Tests.{⊤, if◌then◌else◌}

-- The exceptions, by kind. `recursion_limit` is Python's own bound on nested calls, and
-- `bare_exception` is an `Exception` of no class of its own. `unfinished` is no exception: it is a
-- loop that still runs when its fuel is out.
pub data Error : Type 0 where
  does_not_exist key_error type_error attribute_error integrity_error : Error
  cloud_error invalid_request recursion_limit name_error unbound_local index_error value_error :
      Error
  multiple_objects bare_exception yield_to_children os_error unfinished : Error

pub data Result (A : Type 0) : Type 0 where
  ok : A → Result A
  err : Error → Result A

abbrev pub Effect : Type 0 → Type 0 → Type 0
Effect S A = S → Result A × S

module _ {S A : Type 0} where
  abbrev pub pure : A → Effect S A
  pure a w = (ok a, w)

  abbrev pub raise : Error → Effect S A
  raise e w = (err e, w)

  abbrev pub gets : (S → A) → Effect S A
  gets f w = (ok (f w), w)

  -- `get(pk=…)`, a key of a dict, …
  abbrev pub or_raise : Option A → Error → Effect S A
  or_raise none e = raise e
  or_raise (some a) e = pure a

  -- `with transaction.atomic()`
  abbrev pub atomic : Effect S A → Effect S A
  atomic m w = let (r, w') = m w in elim r [ ok a ↦ (ok a, w') | err e ↦ (err e, w) ]

infixl 5 ◌>>=◌ ◌>>◌
abbrev pub ◌>>=◌ : {S A B : Type 0} → Effect S A → (A → Effect S B) → Effect S B
◌>>=◌ m f w = let (r, w') = m w in elim r [ ok a ↦ f a w' | err e ↦ (err e, w') ]

abbrev pub ◌>>◌ : {S B : Type 0} → Effect S ⊤ → Effect S B → Effect S B
m >> k = m >>= λ _. k

abbrev pub modify : {S : Type 0} → (S → S) → Effect S ⊤
modify f w = (ok tt, f w)

abbrev pub when : {S : Type 0} → Bool → Effect S ⊤ → Effect S ⊤
when Bool.true m = m
when Bool.false m = pure tt

abbrev forgive : Result ⊤ → Result ⊤
forgive (err does_not_exist) = ok tt
forgive r = r

-- `try: … except ObjectDoesNotExist: pass`
abbrev pub except_missing : {S : Type 0} → Effect S ⊤ → Effect S ⊤
except_missing m w = let (r, w') = m w in (forgive r, w')

-- `try: … except Exception: log`
abbrev pub except_any : {S : Type 0} → Effect S ⊤ → Effect S ⊤
except_any m w = let (r, w') = m w in (ok tt, w')

-- `for x in xs: body`
unfoldable pub for_each : {S A : Type 0} → (A → Effect S ⊤) → List A → Effect S ⊤
for_each body [] = pure tt
for_each body (x ∷ xs) = body x >> for_each body xs

-- A sequence whose first part is known to return, or to raise.
module _ {S A B : Type 0} (m : Effect S A) (f : A → Effect S B) (w : S) where
  pub >>=-ok : {a : A} {w' : S} → m w ≡ (ok a, w') → (m >>= f) w ≡ f a w'
  >>=-ok e = ap (λ (p : Result A × S). ◌>>=◌ (λ _. p) f w) e

  pub >>=-err : {e : Error} {w' : S} → m w ≡ (err e, w') → (m >>= f) w ≡ (err e, w')
  >>=-err e = ap (λ (p : Result A × S). ◌>>=◌ (λ _. p) f w) e

-- A sequence depends on its first part by what that does where it stands.
pub bind_eq :
    {S A B : Type 0} (m n : Effect S A) (f : A → Effect S B) (w : S)
    → m w ≡ n w
    → (m >>= f) w ≡ (n >>= f) w
bind_eq {S = S} {A = A} m n f w e = ap (λ (p : Result A × S). ◌>>=◌ (λ _. p) f w) e

-- What both parts of a sequence keep, the sequence keeps, also where the first part raises.
bind_inv_at :
    {S A B : Type 0} (P : S → Type 0) (r : Result A) (w : S) (f : A → Effect S B)
    → P w
    → ((a : A) → P (f a w).1)
    → P (◌>>=◌ (λ _. (r, w)) f w).1
bind_inv_at P (ok a) w f h keep = keep a
bind_inv_at P (err e) w f h keep = h

pub bind_inv :
    {S A B : Type 0} (P : S → Type 0) (m : Effect S A) (f : A → Effect S B) (w : S)
    → P (m w).1
    → ((a : A) (w' : S) → P w' → P (f a w').1)
    → P ((m >>= f) w).1
bind_inv P m f w h keep = bind_inv_at P (m w).0 (m w).1 f h (λ a. keep a (m w).1 h)

-- A loop keeps what each round keeps, also where a round raises.
pub for_each_inv :
    {S A : Type 0} (P : S → Type 0) (body : A → Effect S ⊤)
    → ((a : A) (w : S) → P w → P (body a w).1)
    → (xs : List A) (w : S) → P w
    → P (for_each body xs w).1
unfolding for_each
for_each_inv P body keep [] w h = h
for_each_inv P body keep (x ∷ xs) w h =
    bind_inv P (body x) (λ _. for_each body xs) w (keep x w h)
      (λ _ w'. for_each_inv P body keep xs w')
