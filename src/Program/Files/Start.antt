-- ===== src/Program/Files/Start.antt =====
-- The files that are open when the profiling has started.
use gocica.Base.{
  ℕ, ◌+◌, ◌≡◌, refl, subst, ◌∙◌, Bool-cases, inl, inr, Option, none, some, String, str_eq, arith,
}
use gocica.Base.Go.{Result-cases, Io, within, ◌>>=◌, ◌>>◌}
use gocica.Program.{
  DevFlag, Profilers, start_profiling, start_cpu, start_fg, asked, in_world, always,
}
use gocica.Program.Files.Count.{Keeps, Counts, one_if, Tracked, Fresh}

-- A block leads from states of `P` to states of `Q`, whatever it returns.
abbrev Leads : {S A : Type 0} → (S → Type 0) → (S → Type 0) → Io S A → Type 0
Leads {S} P Q m = (s : S) → P s → Q (m s).1

Leads-bind :
    {S A B : Type 0} (P Q R : S → Type 0) (m : Io S A) (f : A → Io S B)
    → Leads P Q m
    → ((a : A) → Leads Q R (f a))
    → ((s : S) → Q s → R s)
    → Leads P R (m >>= f)
Leads-bind P Q R m f first rest weaker s h = elim (Result-cases (m s).0) [
  | inl (a, e) ↦ rw e (rest a (m s).1 (first s h))
  | inr (x, e) ↦ rw e (weaker (m s).1 (first s h))
]

module _ {File W : Type 0} (p : Profilers File W) (count : W → ℕ) (law : Counts p count) where
  abbrev NoFg : ℕ → DevFlag File W × W → Type 0
  NoFg n (d, w) = (d.fgprof_stop ≡ none) × (count w ≡ n + one_if d.cpu_prof_file)

  NoFg-Tracked : (n : ℕ) (s : DevFlag File W × W) → NoFg n s → Tracked count n s
  NoFg-Tracked n (d, w) (none_yet, same) =
      (rw none_yet (omega (arith, same)), λ stop h. absurd (cc (none_yet, h)))

  abbrev Unstarted : ℕ → DevFlag File W × W → Type 0
  Unstarted n (d, w) = Fresh d × (count w ≡ n)

  Unstarted-NoFg : (n : ℕ) (s : DevFlag File W × W) → Unstarted n s → NoFg n s
  Unstarted-NoFg n (d, w) ((cpu, fg), same) = (fg, rw cpu (omega (arith, same)))

  asked-Leads :
      (path : String) {S : Type 0} (P Q : S → Type 0) (m : Io S (Unit {0}))
      → ((s : S) → P s → Q s)
      → Leads P Q m
      → Leads P Q (asked p path m)
  asked-Leads path P Q m unasked h s hs = elim (Bool-cases (str_eq path "")) [
    | inl e ↦ rw e (unasked s hs)
    | inr e ↦ rw e (h s hs)
  ]

  -- Calls that open no file.
  always-Tracked :
      (n : ℕ) (f : W → W)
      → ((w : W) → count (f w) ≡ count w)
      → Leads (Tracked count n) (Tracked count n) (always p f)
  always-Tracked n f keeps (d, w) (same, stops) = (keeps w ∙ same, stops)

  proc_stat-Tracked :
      (n : ℕ)
      → Leads
          (Tracked count n)
          (Tracked count n)
          (within "failed to initialize proc stat" (in_world p p.init_proc_stat))
  proc_stat-Tracked n (d, w) (same, stops) = (law.proc_stat w ∙ same, stops)

  abbrev Step : Type 0
  Step = Io (DevFlag File W × W) (Unit {0})

  Leads-quiet :
      (n : ℕ) (m k : Step)
      → Leads (Unstarted n) (Tracked count n) m
      → Leads (Tracked count n) (Tracked count n) k
      → Leads (Unstarted n) (Tracked count n) (m >> k)
  Leads-quiet n m k first rest =
      Leads-bind (Unstarted n) (Tracked count n) (Tracked count n) m (λ _. k) first (λ _. rest)
        (λ s h. h)

  start_cpu-Leads : (n : ℕ) (path : String) → Leads (Unstarted n) (NoFg n) (start_cpu p path)
  start_cpu-Leads n path (d, w) ((cpu, fg), same) = elim (Result-cases (p.create path w).0) [
    | inr (x, e) ↦ rw e (fg, rw cpu (omega (arith, law.create_err path w x e, same)))
    | inl (f, e) ↦
        rw e
          (fg, omega (arith, law.start_cpu f (p.create path w).1, law.create_ok path w f e, same))
  ]

  start_fg-Leads : (n : ℕ) (path : String) → Leads (NoFg n) (Tracked count n) (start_fg p path)
  start_fg-Leads n path (d, w) (fg, same) = elim (Result-cases (p.create path w).0) [
    | inr (x, e) ↦
        rw e (rw fg (omega (arith, law.create_err path w x e, same)), λ stop h. absurd (cc (fg, h)))
    | inl (f, e) ↦ rw e (
      omega (arith, law.start_fg f (p.create path w).1, law.create_ok path w f e, same),
      λ stop h. subst (Keeps count) (some-injective _ _ h) (law.stop_fg f (p.create path w).1),
    )
  ]
    where
      some-injective :
          (a b : Io W (Unit {0})) → ◌≡◌ {A = Option (Io W (Unit {0}))} (some a) (some b) → a ≡ b
      some-injective a b h = cc h

  pub start_profiling-Tracked :
      (d : DevFlag File W) (w : W) → Fresh d → Tracked count (count w) (start_profiling p d w).1
  unfolding start_profiling
  start_profiling-Tracked d w fresh =
      let n = count w in
      let T = Tracked count n in
      let cpu : Step = asked p d.cpu_prof (start_cpu p d.cpu_prof) in
      let fg : Step = asked p d.fg_prof (start_fg p d.fg_prof) in
      let block : Step = asked p d.block_prof (always p p.set_block_profile_rate) in
      let mutex : Step = asked p d.mutex_prof (always p p.set_mutex_profile_fraction) in
      let stat : Step =
        asked p d.metrics (within "failed to initialize proc stat" (in_world p p.init_proc_stat)) in
      let first : Leads (Unstarted n) T (cpu >> fg) =
        Leads-bind (Unstarted n) (NoFg n) T cpu (λ _. fg)
          (asked-Leads d.cpu_prof (Unstarted n) (NoFg n) (start_cpu p d.cpu_prof) (Unstarted-NoFg n)
            (start_cpu-Leads n d.cpu_prof))
          (λ _.
            asked-Leads d.fg_prof (NoFg n) T (start_fg p d.fg_prof) (NoFg-Tracked n)
              (start_fg-Leads n d.fg_prof))
          (NoFg-Tracked n) in
      let second : Leads (Unstarted n) T (cpu >> fg >> block) =
        Leads-quiet n (cpu >> fg) block first (
          asked-Leads d.block_prof T T (always p p.set_block_profile_rate) (λ s h. h)
            (always-Tracked n p.set_block_profile_rate law.block_rate)) in
      let third : Leads (Unstarted n) T (cpu >> fg >> block >> mutex) =
        Leads-quiet n (cpu >> fg >> block) mutex second (
          asked-Leads d.mutex_prof T T (always p p.set_mutex_profile_fraction) (λ s h. h)
            (always-Tracked n p.set_mutex_profile_fraction law.mutex_fraction)) in
      Leads-quiet n (cpu >> fg >> block >> mutex) stat third
        (asked-Leads d.metrics T T _ (λ s h. h) (proc_stat-Tracked n)) (d, w) (fresh, refl)
