-- ===== src/Log/Levels.antt =====
-- Level letters and names: `to_string` and `from_string` of src/log.cpp.
use Prim.Native.Nat.{zero, suc}
use acppsrv.Prelude.Int.{pos, negsuc}
use acppsrv.Prelude.{String, true, ◌≡◌, refl, some, arith, All, lookup-All}
use acppsrv.Log.{LogLevel, valid, to_string, levels, from_string}

-- A level prints as a letter that reads back as that level.
pub from_string-to_string : (l : LogLevel) → valid l ≡ true → from_string (to_string l) ≡ some l
unfolding valid to_string from_string
from_string-to_string (negsuc zero) h = refl
from_string-to_string (negsuc (suc n)) h = ground arith
from_string-to_string (pos zero) h = refl
from_string-to_string (pos (suc zero)) h = refl
from_string-to_string (pos (suc (suc zero))) h = refl
from_string-to_string (pos (suc (suc (suc zero)))) h = refl
from_string-to_string (pos (suc (suc (suc (suc zero))))) h = refl
from_string-to_string (pos (suc (suc (suc (suc (suc zero)))))) h = refl
from_string-to_string (pos (suc (suc (suc (suc (suc (suc zero))))))) h = refl
from_string-to_string (pos (suc (suc (suc (suc (suc (suc (suc zero)))))))) h = refl
from_string-to_string (pos (suc (suc (suc (suc (suc (suc (suc (suc n))))))))) h = ground arith

levels-valid : All (λ e. valid e.1 ≡ true) levels
unfolding valid levels
levels-valid = ground arith

-- Whatever name is accepted, the level is one of the nine.
pub from_string-valid : (s : String) (l : LogLevel) → from_string s ≡ some l → valid l ≡ true
unfolding from_string
from_string-valid s l h = lookup-All (λ k v. valid v ≡ true) levels s levels-valid h
