-- ===== src/Finally.antt =====
-- The scope guard `finally` of src/finally.hpp: an object that is made of a function and calls it
-- when its scope ends, normally or by an exception. A scope is a function of the state of the
-- variables that the function captures by reference, and of the world.
pub mod Once
use acppsrv.Prelude.{List, ◌++◌}

-- How a scope ends, and in what state.
pub data Ending (E A S : Type 0) : Type 0 where
  normally : A → S → Ending E A S
  by_exception : E → S → Ending E A S

-- `~finally`, where the scope has ended.
unfoldable pub leave : {E A S : Type 0} → (S → S) → Ending E A S → Ending E A S
leave f (normally a s) = normally a (f s)
leave f (by_exception e s) = by_exception e (f s)

-- The object is made, then the rest of the scope runs.
unfoldable pub finally : {E A S : Type 0} → (S → S) → (S → Ending E A S) → S → Ending E A S
unfolding leave
finally f body s = leave f (body s)
