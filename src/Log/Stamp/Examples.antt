-- ===== src/Log/Stamp/Examples.antt =====
-- A time stamp of src/log.cpp on a concrete date.
use acppsrv.Prelude.{ℕ, ◌%◌, ◌≡◌, refl, List, [], ◌∷◌, ◌++◌, replicate}
use acppsrv.Log.Stamp.{stamp}
use acppsrv.Log.Stamp.Padded.{digits, stamp-digits}

-- 2026-11-26 09:30:05.
abbrev date : List ℕ
date =
    50 ∷ 48 ∷ 50 ∷ 54 ∷ 45 ∷ 49 ∷ 49 ∷ 45 ∷ 50 ∷ 54 ∷ 32 ∷ 48 ∷ 57 ∷ 58 ∷ 51 ∷ 48 ∷ 58 ∷ 48 ∷ 53
    ∷ 46 ∷ []

-- +0100
abbrev zone : List ℕ
zone = 43 ∷ 48 ∷ 49 ∷ 48 ∷ 48 ∷ []

stamp-digits_example :
    stamp (date ++ (replicate 6 48 ++ zone)) 1_795_685_405_000_420
    ≡ date ++ (digits 6 (1_795_685_405_000_420 % 1_000_000) ++ zone)
stamp-digits_example = stamp-digits date zone 1_795_685_405_000_420 refl

digits_run : digits 6 (1_795_685_405_000_420 % 1_000_000) ≡ 48 ∷ 48 ∷ 48 ∷ 52 ∷ 50 ∷ 48 ∷ []
unfolding digits
digits_run = refl
