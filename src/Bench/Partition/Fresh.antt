-- ===== src/Bench/Partition/Fresh.antt =====
-- The command `create` of benchmark/benchmark.cpp makes every partition from new files.
use acppsrv.Prelude.{
  ℕ, zero, suc, ◌+◌, ◌<◌, ◌≡◌, refl, sym, ap, ◌∙◌, subst, String, Bool, true, false, List, [], ◌∷◌,
  ◌++◌, length, join, arith, if◌then◌else◌, append-nil, append_assoc, length-append,
}
use acppsrv.Sqlite.{Driver, Connection, ok, connect}
use acppsrv.Bench.Args.{CreateArgs}
use acppsrv.Bench.Partition.{
  Numbers, Platform, close, file_exists, Made, made, ◌>>=◌, ◌>>◌, failed, asserted, N, lift,
  on_failure, pure, require_new, create_files, configure, path_data, path_idx, path_keys, path_of,
  Partition, open_keys, prepare_queries, run_sql, cache_size, set_up, make_partition, through,
  thrown, next, make_partitions, insert_text, get_text, update_text,
}
use acppsrv.Bench.Partition.Calls.{
  and_then-made, lifted-made, finished-made, cleaned-made, require_new-made, with_query-made,
}

module _ (drv : Driver) (num : Numbers) (os : Platform drv) where
  open drv use {S}
  open os use {exists}

  -- In the state `s` the data file does not exist; after its database is created in `s`, neither do the
  -- index file and the keys file.
  pub record IsFresh (path : String) (s : S) : Type 0 where
    pub after : S
    pub conn : Connection drv
    pub no_data : exists (path_data path) s ≡ false
    pub created : connect drv (path_data path) true s ≡ ok conn after
    pub no_idx : exists (path_idx path) after ≡ false
    pub no_keys : exists (path_keys path) after ≡ false

  create_files-IsFresh :
      (path : String) (s s' : S) (u : Unit)
      → create_files drv num os path s ≡ made u s'
      → IsFresh path s
  unfolding create_files
  create_files-IsFresh path s s' u h =
      let (_, s1, new, h1) =
        and_then-made drv num os _ (require_new drv num os (path_data path) s) s' u h in
      let (conn, s2, opened, h2) =
        and_then-made drv num os _ (lift drv num os (connect drv (path_data path) true) s1) s' u
          h1 in
      let (s3, h3) = finished-made drv num os (close drv num os conn) _ s' u h2 in
      let (_, s4, new_idx, h4) =
        and_then-made drv num os _ (require_new drv num os (path_idx path) s2) s3 u h3 in
      let (_, s5, new_keys, h5) =
        and_then-made drv num os _ (require_new drv num os (path_keys path) s4) s3 u h4 in
      let (no_data, e) = require_new-made drv num os (path_data path) s s1 tt new in
      let (no_idx, e') = require_new-made drv num os (path_idx path) s2 s4 tt new_idx in
      let (no_keys, _) = require_new-made drv num os (path_keys path) s4 s5 tt new_keys in
      record {
        after = s2;
        conn = conn;
        no_data = no_data;
        created =
            subst (λ t. connect drv (path_data path) true t ≡ ok conn s2) (sym e)
              (lifted-made drv num os _ s2 conn opened);
        no_idx = no_idx;
        no_keys = subst (λ t. exists (path_keys path) t ≡ false) (sym e') no_keys;
      }

  prepare_queries-path :
      (path : String) (db : Connection drv) (file : os.File) (s s' : S) (p : Partition drv num os)
      → prepare_queries drv num os path db file s ≡ made p s'
      → p.path ≡ path
  unfolding prepare_queries
  prepare_queries-path path db file s s' p h =
      let prepared = with_query-made drv num os (λ p. p.path ≡ path) db in
      prepared insert_text _
        (λ q1. prepared "begin" _ (λ q2.
          prepared "commit" _
            (λ q3. prepared get_text _ (λ q4. prepared update_text _ (λ q5 t t' p' e. cc)))))
        s s' p h

  set_up-path :
      (args : CreateArgs) (path : String) (create : Bool) (db : Connection drv) (s s' : S)
      (p : Partition drv num os)
      → set_up drv num os args path create db s ≡ made p s'
      → p.path ≡ path
  unfolding set_up
  set_up-path args path create db s s' p h =
      let keys : N drv num os (Partition drv num os) =
        ◌>>=◌ drv num os (open_keys drv num os path)
          (λ file. prepare_queries drv num os path db file) in
      let sizes : N drv num os (Partition drv num os) =
        ◌>>◌ drv num os
          (run_sql drv num os db
            (join ("pragma main.cache_size = " ∷ num.text (cache_size num args) ∷ [])))
          keys in
      let rest : N drv num os (Partition drv num os) =
        ◌>>◌ drv num os (run_sql drv num os db "pragma main.synchronous = normal") sizes in
      let (_, s1, _, h1) =
        and_then-made drv num os (λ _. rest)
          ((if create then configure drv num os args path db else pure drv num os tt) s) s' p h in
      let (_, s2, _, h2) =
        and_then-made drv num os (λ _. sizes)
          (run_sql drv num os db "pragma main.synchronous = normal" s1) s' p h1 in
      let (_, s3, _, h3) =
        and_then-made drv num os (λ _. keys)
          (run_sql drv num os db
            (join ("pragma main.cache_size = " ∷ num.text (cache_size num args) ∷ [])) s2)
          s' p h2 in
      let (file, s4, _, h4) =
        and_then-made drv num os (prepare_queries drv num os path db) (open_keys drv num os path s3)
          s' p h3 in
      prepare_queries-path path db file s4 s' p h4

  make_partition-IsFresh :
      (args : CreateArgs) (idx : ℕ) (s s' : S) (p : Partition drv num os)
      → make_partition drv num os args idx true s ≡ made p s'
      → (p.path ≡ path_of num args.path idx) × IsFresh (path_of num args.path idx) s
  unfolding make_partition
  make_partition-IsFresh args idx s s' p h =
      let path = path_of num args.path idx in
      let (u, s1, files, h1) = and_then-made drv num os _ (create_files drv num os path s) s' p h in
      let set : Connection drv → N drv num os (Partition drv num os) =
        λ db. on_failure drv num os (close drv num os db) (set_up drv num os args path true db) in
      let (db, s2, _, h2) =
        and_then-made drv num os set (lift drv num os (connect drv (path_data path) false) s1) s' p
          h1 in
      let h3 = cleaned-made drv num os (close drv num os db) _ s' p h2 in
      (set_up-path args path true db s2 s' p h3, create_files-IsFresh path s s1 u files)

  -- The partitions of the numbers from `part` on, made one after the other from the state `s` to `s'`,
  -- each from new files.
  abbrev pub FreshFrom : CreateArgs → ℕ → S → S → List (Partition drv num os) → Type 0
  FreshFrom args part s s' [] = s ≡ s'
  FreshFrom args part s s' (p ∷ ps) =
      (t : S) × (make_partition drv num os args part true s ≡ made p t)
      × (p.path ≡ path_of num args.path part)
      × IsFresh p.path s
      × FreshFrom args (part + 1) t s' ps

  -- A loop that is through has made its next partition.
  next_made :
      (create : Bool) (args : CreateArgs) (n part : ℕ) (db ps : List (Partition drv num os))
      (s s' : S)
      → make_partitions drv num os create args (suc n) part db s ≡ through ps s'
      → (p : Partition drv num os) × (t : S) × (make_partition drv num os args part create s
          ≡ made p t)
        × (make_partitions drv num os create args n (part + 1) (db ++ p ∷ []) t ≡ through ps s')
  unfolding make_partitions
  next_made create args n part db ps s s' h = split (make_partition drv num os args part create s) h
    where
      split :
          (r : Made drv num os (Partition drv num os))
          → next drv num os (make_partitions drv num os create args n (part + 1)) db r
            ≡ through ps s'
          → (p : Partition drv num os) × (t : S) × (r ≡ made p t)
            × (make_partitions drv num os create args n (part + 1) (db ++ p ∷ []) t ≡ through ps s')
      split (made p t) e = (p, t, refl, e)
      split (failed e t) e' = cc
      split asserted e = cc

  make_partitions-FreshFrom :
      (args : CreateArgs) (n part : ℕ) (db ps : List (Partition drv num os)) (s s' : S)
      → make_partitions drv num os true args n part db s ≡ through ps s'
      → (new : List (Partition drv num os)) × (ps ≡ db ++ new)
        × (length new ≡ n)
        × FreshFrom args part s s' new
  unfolding make_partitions
  make_partitions-FreshFrom args zero part db ps s s' h =
      let same : ps ≡ db = cc in
      let same_state : s ≡ s' = cc in ([], same ∙ sym (append-nil db), refl, same_state)
  make_partitions-FreshFrom args (suc n) part db ps s s' h =
      let (p, t, e, e') = next_made true args n part db ps s s' h in
      let (path, fresh) = make_partition-IsFresh args part s t p e in
      let (new, split, size, news) =
        make_partitions-FreshFrom args n (part + 1) (db ++ p ∷ []) ps t s' e' in
      (
        p ∷ new,
        split ∙ append_assoc db (p ∷ []) new,
        ap suc size,
        (t, e, path, subst (λ x. IsFresh x s) (sym path) fresh, news),
      )

  first_exists :
      (args : CreateArgs) (n : ℕ) (s : S)
      → exists (path_data (path_of num args.path 0)) s ≡ true
      → 0 < n
      → make_partitions drv num os true args n 0 [] s
        ≡ thrown (file_exists (path_data (path_of num args.path 0))) [] s
  unfolding make_partitions make_partition create_files require_new
  first_exists args zero s e lt = absurd (omega arith)
  first_exists args (suc n) s e lt = rw (e) refl

  pub length-make_partitions :
      (create : Bool) (args : CreateArgs) (n part : ℕ) (db ps : List (Partition drv num os))
      (s s' : S)
      → make_partitions drv num os create args n part db s ≡ through ps s'
      → length ps ≡ length db + n
  unfolding make_partitions
  length-make_partitions create args zero part db ps s s' h =
      let same : db ≡ ps = cc in omega (arith, ap length same)
  length-make_partitions create args (suc n) part db ps s s' h =
      let (p, t, e, e') = next_made create args n part db ps s s' h in
      omega (
        arith,
        length-make_partitions create args n (part + 1) (db ++ p ∷ []) ps t s' e',
        length-append db (p ∷ []),
      )

  -- A run of the loop over `n` partitions that is through has made `n` partitions, numbered from 0, one
  -- after the other, and each from new files: in the state of the run in which the construction of
  -- the partition begins, the data file does not exist, and in the state that the creation of its
  -- database leaves, neither the index file nor the file of keys does. If the data file of the first
  -- partition exists, the loop ends with this exception and leaves the state as it is.
  pub make_partitions-AllFresh :
      (args : CreateArgs) (n : ℕ) (s : S)
      → ((ps : List (Partition drv num os)) (s' : S)
          → make_partitions drv num os true args n 0 [] s ≡ through ps s'
          → (length ps ≡ n) × FreshFrom args 0 s s' ps)
        × (exists (path_data (path_of num args.path 0)) s ≡ true
            → 0 < n
            → make_partitions drv num os true args n 0 [] s
              ≡ thrown (file_exists (path_data (path_of num args.path 0))) [] s)
  make_partitions-AllFresh args n s = (
    λ ps s' h.
        let (new, split, size, news) = make_partitions-FreshFrom args n 0 [] ps s s' h in
        (ap length split ∙ size, subst (FreshFrom args 0 s s') (sym split) news),
    first_exists args n s,
  )
