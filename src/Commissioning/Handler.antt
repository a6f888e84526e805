-- ===== src/Commissioning/Handler.antt =====
-- Methods that change their receiver and may fail: the receiver afterwards, and the result or the
-- error. What was changed before an error stays.
use go_matter.Base.{Bool, true, false, Result, ok, err}

abbrev pub Handler : (E S A : Type 0) → Type 0
Handler E S A = S → S × Result E A

abbrev pub continue : {E S A B : Type 0} → S × Result E A → (A → Handler E S B) → S × Result E B
continue (s, ok a) f = f a s
continue (s, err e) f = (s, err e)

infixl 5 ◌>>=◌ ◌>>◌
abbrev pub ◌>>=◌ : {E S A B : Type 0} → Handler E S A → (A → Handler E S B) → Handler E S B
(m >>= f) s = continue (m s) f

abbrev pub ◌>>◌ : {E S A B : Type 0} → Handler E S A → Handler E S B → Handler E S B
m >> k = m >>= λ _. k

abbrev pub return : {E S A : Type 0} → A → Handler E S A
return a s = (s, ok a)

abbrev pub fail : {E S A : Type 0} → E → Handler E S A
fail e s = (s, err e)

-- A function of the receiver.
abbrev pub get : {E S A : Type 0} → (S → A) → Handler E S A
get f s = (s, ok (f s))

abbrev pub modify : {E S : Type 0} → (S → S) → Handler E S (Unit {0})
modify f s = (f s, ok tt)

-- A call that leaves the receiver alone, with what is made of its error.
abbrev pub call : {D E S A : Type 0} → (D → E) → Result D A → Handler E S A
call w (ok a) s = (s, ok a)
call w (err d) s = (s, err (w d))

-- `if bad { return err }`
abbrev pub refuse : {E S : Type 0} → Bool → E → Handler E S (Unit {0})
refuse true e s = (s, err e)
refuse false e s = (s, ok tt)
