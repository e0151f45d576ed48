-- ===== src/Base/Returns.antt =====
-- Calls and values that come back: no loop of theirs runs out of fuel.
use go_db.Base.{refl, ◌≢◌, Bool, true, false, if◌then◌else◌}
use go_db.Base.Result.{Result, ok, err, panic, stuck}
use go_db.Base.Result
use go_db.Base.Exec.{Exec, continue, wrap, ◌>>=◌}

-- From every state, the call comes back.
abbrev pub IsReturning : {E S A : Type 0} → Exec E S A → Type 0
IsReturning m = (s : _) → (m s).0 ≢ stuck

pub ok-ne-stuck : {E A : Type 0} (a : A) → ◌≢◌ {A = Result E A} (ok a) stuck
ok-ne-stuck a h = cc

pub err-ne-stuck : {E A : Type 0} (e : E) → ◌≢◌ {A = Result E A} (err e) stuck
err-ne-stuck a h = cc

pub panic-ne-stuck : {E A : Type 0} → ◌≢◌ {A = Result E A} panic stuck
panic-ne-stuck h = cc

pub bind-ne-stuck :
    {E A B : Type 0} (r : Result E A) (f : A → Result E B)
    → r ≢ stuck
    → ((a : A) → f a ≢ stuck)
    → Result.◌>>=◌ r f ≢ stuck
bind-ne-stuck (ok a) f h k = k a
bind-ne-stuck (err e) f h k = err-ne-stuck e
bind-ne-stuck panic f h k = panic-ne-stuck
bind-ne-stuck stuck f h k = λ _. h refl

pub wrap-ne-stuck : {E F A : Type 0} (g : E → F) (r : Result E A) → r ≢ stuck → wrap g r ≢ stuck
wrap-ne-stuck g (ok a) h = ok-ne-stuck a
wrap-ne-stuck g (err e) h = err-ne-stuck (g e)
wrap-ne-stuck g panic h = panic-ne-stuck
wrap-ne-stuck g stuck h = λ _. h refl

pub continue-ne-stuck :
    {E S A B : Type 0} (r : Result E A) (f : A → Exec E S B) (s : S)
    → r ≢ stuck
    → ((a : A) → IsReturning (f a))
    → (continue r f s).0 ≢ stuck
continue-ne-stuck (ok a) f s h k = k a s
continue-ne-stuck (err e) f s h k = err-ne-stuck e
continue-ne-stuck panic f s h k = panic-ne-stuck
continue-ne-stuck stuck f s h k = λ _. h refl

pub bind-IsReturning :
    {E S A B : Type 0} (m : Exec E S A) (f : A → Exec E S B)
    → IsReturning m
    → ((a : A) → IsReturning (f a))
    → IsReturning (m >>= f)
bind-IsReturning m f h k s = continue-ne-stuck (m s).0 f (m s).1 (h s) k

pub if-ne-stuck :
    {E A : Type 0} (b : Bool) (x y : Result E A)
    → x ≢ stuck
    → y ≢ stuck
    → (if b then x else y) ≢ stuck
if-ne-stuck true x y h k = h
if-ne-stuck false x y h k = k
