-- ===== src/Program/Files/Stop.antt =====
-- The end of the profiling closes the files.
use gocica.Base.{
  ℕ, ◌+◌, ◌≤◌, ◌≡◌, refl, ap, ◌∙◌, Bool-cases, inl, inr, List, [], ◌∷◌, Option, none, some, String,
  str_eq, length, arith,
}
use gocica.Base.Go.{Result, Result-cases, ok, err, Io, ◌>>=◌, bind_ok}
use gocica.Program.{
  DevFlag, Profilers, write_file, close_files, stop_profiling, asked, stop_cpu, stop_fgprof,
  write_heap, write_files, finish,
}
use gocica.Program.Files.Count.{Keeps, Counts, one_if, Tracked}

module _ {File W : Type 0} (p : Profilers File W) (count : W → ℕ) (law : Counts p count) where
  -- Code that takes the files to close and gives those that are then to be closed.
  abbrev Moves : (List File → Io W (List File)) → Type 0
  Moves m =
      (files all : List File) (w : W)
      → (m files w).0 ≡ ok all
      → count (m files w).1 + length files ≡ count w + length all

  Moves-bind :
      (m k : List File → Io W (List File)) → Moves m → Moves k → Moves (λ files. m files >>= k)
  Moves-bind m k first rest files all w h =
      let (some_files, e, on, h') = bind_ok (m files) k w h in
      rw on (omega (arith, first files some_files w e, rest some_files all (m files w).1 h'))

  write_file-count :
      (path created written : String) (write : File → Io W (Unit {0}))
      → ((f : File) → Keeps count (write f))
      → Moves (write_file p path created written write)
  unfolding write_file
  write_file-count path created written write keeps files all w h =
      elim (Bool-cases (str_eq path "")) [
        | inl unasked ↦
            let same : files ≡ all = cc (rw unasked at h) in
            rw unasked (ap (λ fs. count w + length fs) same)
        | inr asked ↦ elim (Result-cases (p.create path w).0) [
          | inr (x, e) ↦ absurd (cc (rw e at (rw asked at h)))
          | inl (f, e) ↦ elim (Result-cases (write f (p.create path w).1).0) [
            | inr (x, e') ↦ absurd (cc (rw e' at (rw e at (rw asked at h))))
            | inl (_, e') ↦
                let same : f ∷ files ≡ all = cc (rw e' at (rw e at (rw asked at h))) in
                rw asked (
                  rw e (
                    rw e' (
                      omega (
                        arith,
                        ap length same,
                        keeps f (p.create path w).1,
                        law.create_ok path w f e,
                      ))))
          ]
        ]
      ]

  close_files-count :
      (fs : List File) (w : W)
      → length fs ≤ count w
      → count (close_files p fs w) + length fs ≡ count w
  unfolding close_files
  close_files-count [] w h = omega arith
  close_files-count (f ∷ fs) w h =
      let one = law.closes f w (omega (arith, h)) in
      omega (arith, one, close_files-count fs (p.close f w) (omega (arith, one, h)))

  stop_files : Option File → List File
  stop_files none = []
  stop_files (some f) = f ∷ []

  stop_cpu-lem :
      (o : Option File) (w : W)
      → ((stop_cpu p o w).0 ≡ stop_files o)
        × (count (stop_cpu p o w).1 ≡ count w)
        × (length (stop_files o) ≡ one_if o)
  unfolding stop_files
  stop_cpu-lem none w = (refl, refl, refl)
  stop_cpu-lem (some f) w = (refl, law.stop_cpu w, refl)

  stop_fgprof-count :
      (o : Option (Io W (Unit {0}))) (w : W)
      → ((stop : Io W (Unit {0})) → o ≡ some stop → Keeps count stop)
      → count (stop_fgprof p o w) ≡ count w
  stop_fgprof-count none w h = refl
  stop_fgprof-count (some stop) w h = h stop refl w

  write_files-count : (d : DevFlag File W) → Moves (write_files p d)
  unfolding write_files
  write_files-count d =
      Moves-bind _ _
        (Moves-bind _ _
          (Moves-bind _ _
            (write_file-count d.mem_prof _ _ (write_heap p) (λ f w. law.heap f (p.gc w) ∙ law.gc w))
            (write_file-count d.mutex_prof _ _ (p.write_profile "mutex") (law.profile "mutex")))
          (write_file-count d.block_prof _ _ (p.write_profile "block") (law.profile "block")))
        (write_file-count d.metrics _ _ p.write_metrics law.metrics)

  finish_ok :
      (out : Result (List File) × W)
      → (finish p out).0 ≡ ok tt
      → (all : List File) × (out.0 ≡ ok all) × (finish p out ≡ (ok tt, close_files p all out.1))
  finish_ok (ok all, w) h = (all, refl, refl)
  finish_ok (err e, w) h = cc

  pub stop_profiling-count :
      (d : DevFlag File W) (w : W) (n : ℕ)
      → Tracked count n (d, w)
      → (stop_profiling p d w).0 ≡ ok tt
      → count (stop_profiling p d w).1 ≡ n + one_if d.fgprof_stop
  unfolding stop_profiling
  stop_profiling-count d w n (same, stops) h =
      let (first, kept, size) = stop_cpu-lem d.cpu_prof_file w in
      let files = (stop_cpu p d.cpu_prof_file w).0 in
      let w1 = stop_fgprof p d.fgprof_stop (stop_cpu p d.cpu_prof_file w).1 in
      let kept1 = stop_fgprof-count d.fgprof_stop (stop_cpu p d.cpu_prof_file w).1 stops in
      let (all, e, on) = finish_ok (write_files p d files w1) h in
      let moved = write_files-count d files all w1 e in
      let few = ap length first ∙ size in
      ap (λ o. count o.1) on
      ∙ omega (
        arith,
        close_files-count all (write_files p d files w1).1
            (omega (arith, moved, few, same, kept, kept1)),
        moved,
        few,
        same,
        kept,
        kept1,
      )
