-- ===== src/Finally/Once.antt =====
-- The function of a scope guard is called at both ends of the scope.
use acppsrv.Prelude.{◌≡◌, refl}
use acppsrv.Finally.{Ending, normally, by_exception, leave, finally}

-- The state at the end of a scope.
unfoldable pub state : {E A S : Type 0} → Ending E A S → S
state (normally a s) = s
state (by_exception e s) = s

leave-state : {E A S : Type 0} (f : S → S) (e : Ending E A S) → state (leave f e) ≡ f (state e)
unfolding leave state
leave-state f (normally a s) = refl
leave-state f (by_exception e s) = refl

-- However the scope ends, the function has been called once, on the state of its end.
finally-state :
    {E A S : Type 0} (f : S → S) (body : S → Ending E A S) (s : S)
    → state (finally f body s) ≡ f (state (body s))
unfolding finally
finally-state f body s = leave-state f (body s)
