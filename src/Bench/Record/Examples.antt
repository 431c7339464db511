-- ===== src/Bench/Record/Examples.antt =====
-- A record of benchmark/benchmark.cpp that is updated once, with a digest of equal bytes.
use acppsrv.Prelude.{
  ℕ, suc, List, [], ◌∷◌, ◌≡◌, refl, inl, length, replicate, length-replicate, get_or, copy_to,
  resize,
}
use acppsrv.Bench.Record.{DbRecord, thread_init, update}
use acppsrv.Bench.Record.Filled.{IsFilled, update-IsFilled}

abbrev digest : List ℕ → List ℕ
digest k = replicate 32 (suc (get_or k 0 0))

abbrev fresh : DbRecord
unfolding thread_init copy_to resize
fresh = thread_init (9 ∷ 1 ∷ 0 ∷ 0 ∷ []) (1 ∷ 2 ∷ 3 ∷ 4 ∷ 5 ∷ 6 ∷ 7 ∷ 8 ∷ [])

fresh_run : length fresh.key ≡ 32
unfolding fresh
fresh_run = refl

update-IsFilled_example :
    ((update digest 4 70 fresh).key ≡ digest fresh.key) × IsFilled 70 (update digest 4 70 fresh)
unfolding fresh
update-IsFilled_example =
    update-IsFilled digest 4 70 fresh (λ k. length-replicate {A = ℕ} 32 (suc (get_or k 0 0)))
      (inl refl)
