-- ===== src/Bench/Run/Descriptor.antt =====
-- The descriptor of the file of keys is closed again.
use acppsrv.Prelude.{ℕ, String, Option, none, some, List, [], ◌∷◌, ◌++◌, ◌≡◌, refl, ◌⊎◌, inl, inr}
use acppsrv.Finally.{finally, leave}
use acppsrv.Finally.Once.{state}
use acppsrv.Bench.Run.{Mapping, map_keys, map_opened, map_sized, map_bytes, without_fd, fd_close}

module _ {S : Type 0} (map : Mapping S) where
  open map use {Fd, open_read, close, file_size, mmap}

  -- A call on a descriptor.
  pub data Event : Type 0 where
    opens : Fd → Event
    closes : Fd → Event

  abbrev pub opening : List Event → Option Fd × S → Option Fd × (S × List Event)
  opening es (none, s) = (none, (s, es))
  opening es (some fd, s) = (some fd, (s, es ++ opens fd ∷ []))

  -- The calls `map`, where the state keeps what descriptors they have opened and closed.
  abbrev pub recorded : Mapping (S × List Event)
  recorded = record {
    Fd = Fd;
    open_read = λ path (s, es). opening es (open_read path s);
    close = λ fd (s, es). (close fd s, es ++ closes fd ∷ []);
    file_size = λ path (s, es). file_size path s;
    mmap = λ n fd (s, es). let (data_, s') = mmap n fd s in (data_, (s', es));
  }

  -- Nothing is opened, or one descriptor, which is then closed.
  unfoldable pub IsClosed : List Event → Type 0
  IsClosed es = (es ≡ []) ⊎ ((fd : Fd) × (es ≡ opens fd ∷ closes fd ∷ []))

  -- Behind the call of `mmap`.
  map_bytes-IsClosed :
      (path : String) (fd : Fd) (r : Option (List ℕ) × S)
      → IsClosed
          (state (
            without_fd recorded (
              leave
                (fd_close recorded)
                (map_bytes recorded path fd (r.0, (r.1, opens fd ∷ [])))))).1
  unfolding IsClosed state leave fd_close
  map_bytes-IsClosed path fd (none, s) = inr (fd, refl)
  map_bytes-IsClosed path fd (some data_, s) = inr (fd, refl)

  -- Behind the call of `file_size`.
  map_sized-IsClosed :
      (path : String) (fd : Fd) (s : S) (size : Option ℕ)
      → IsClosed
          (state (
            without_fd recorded
              (leave (fd_close recorded) (map_sized recorded path fd (s, opens fd ∷ []) size)))).1
  unfolding IsClosed state leave fd_close
  map_sized-IsClosed path fd s none = inr (fd, refl)
  map_sized-IsClosed path fd s (some n) = map_bytes-IsClosed path fd (mmap n fd s)

  -- Behind the call of `open`.
  map_opened-IsClosed :
      (path : String) (r : Option Fd × S)
      → IsClosed
          (state (
            without_fd recorded
              (leave (fd_close recorded) (map_opened recorded path (opening [] r))))).1
  unfolding IsClosed state leave fd_close
  map_opened-IsClosed path (none, s) = inl refl
  map_opened-IsClosed path (some fd, s) = map_sized-IsClosed path fd s (file_size path s)

  -- Whatever the calls give, also on an exception, the constructor that maps the file of keys has
  -- opened no descriptor, or one that it has closed.
  pub map_keys-IsClosed :
      (path : String) (s : S) → IsClosed (state (map_keys recorded path (s, []))).1
  unfolding map_keys finally
  map_keys-IsClosed path s = map_opened-IsClosed path (open_read path s)
