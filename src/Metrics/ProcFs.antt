-- ===== src/Metrics/ProcFs.antt =====
-- The statistics of internal/pkg/metrics/procfs.go.
use gocica.Base.{ℕ, List, [], ◌∷◌, Option, none, some, String}
use gocica.Base.Go.{ok, Io, wrapped, within, pure, ◌>>=◌}
use gocica.Metrics.{Meter, Platform, new_gauge, set}

-- What the package procfs reads. Numbers are converted to float64.
pub record CpuStat (F : Type 0) : Type 0 where
  pub user : F
  pub system : F
  pub idle : F
  pub iowait : F
  pub nice : F
  pub irq : F
  pub soft_irq : F
  pub steal : F

pub record MemInfo (F : Type 0) : Type 0 where
  pub mem_total : Option F
  pub buffers : Option F
  pub cached : Option F
  pub slab : Option F
  pub mem_free : Option F
  pub swap_total : Option F
  pub swap_cached : Option F
  pub swap_free : Option F

pub record ProcStat (F : Type 0) : Type 0 where
  pub cpu_time : F
  pub resident_memory : F
  pub virtual_memory : F

pub record NetDevLine (F : Type 0) : Type 0 where
  pub name : String
  pub rx_bytes : F
  pub tx_bytes : F

-- procfs.FS and procfs.Proc, on the world of the clock.
pub record FileSystem (F W Proc : Type 0) : Type 0 where
  pub stat : Io W (CpuStat F)
  pub meminfo : Io W (MemInfo F)
  pub self : Io W Proc
  pub proc_stat : Proc → Io W (ProcStat F)
  pub net_dev : Proc → Io W (List (NetDevLine F))

-- The package's gauges, in the order in which they are made.
abbrev pub cpu_all_gauge : ℕ
cpu_all_gauge = 0

abbrev pub cpu_self_gauge : ℕ
cpu_self_gauge = 1

abbrev pub mem_all_gauge : ℕ
mem_all_gauge = 2

abbrev pub mem_self_gauge : ℕ
mem_self_gauge = 3

abbrev pub network_rx_gauge : ℕ
network_rx_gauge = 4

abbrev pub network_tx_gauge : ℕ
network_tx_gauge = 5

module _ {F W Proc : Type 0} (p : Platform F W) (fs : FileSystem F W Proc) where
  abbrev in_world : {A : Type 0} → Io W A → Io (Meter F W) A
  in_world f m = let (r, w) = f m.world in (wrapped "get stat" r, record m { world = w })

  abbrev done : (Meter F W → Meter F W) → Io (Meter F W) (Unit {0})
  done f m = (ok tt, f m)

  unfoldable pub make_gauges : Meter F W → Meter F W
  unfolding new_gauge
  make_gauges m =
      let (_, m1) = new_gauge p "cpu_all" m in
      let (_, m2) = new_gauge p "cpu_self" m1 in
      let (_, m3) = new_gauge p "mem_all" m2 in
      let (_, m4) = new_gauge p "mem_self" m3 in
      let (_, m5) = new_gauge p "network_rx" m4 in let (_, m6) = new_gauge p "network_tx" m5 in m6

  abbrev set_cpu : CpuStat F → Meter F W → Meter F W
  set_cpu s m =
      let m1 = set p cpu_all_gauge s.user "user" m in
      let m2 = set p cpu_all_gauge s.system "system" m1 in
      let m3 = set p cpu_all_gauge s.idle "idle" m2 in
      let m4 = set p cpu_all_gauge s.iowait "iowait" m3 in
      let m5 = set p cpu_all_gauge s.nice "nice" m4 in
      let m6 = set p cpu_all_gauge s.irq "irq" m5 in
      let m7 = set p cpu_all_gauge s.soft_irq "softirq" m6 in set p cpu_all_gauge s.steal "steal" m7

  unfoldable pub get_cpu_all_stat : Io (Meter F W) (Unit {0})
  unfolding set
  get_cpu_all_stat = in_world fs.stat >>= λ s. done (set_cpu s)

  -- `if x != nil { memAllGauge.Set(float64(*x), label) }`
  abbrev set_some : Option F → String → Meter F W → Meter F W
  set_some none label m = m
  set_some (some x) label m = set p mem_all_gauge x label m

  abbrev set_mem : MemInfo F → Meter F W → Meter F W
  set_mem s m =
      let m1 = set_some s.mem_total "total" m in
      let m2 = set_some s.buffers "buffers" m1 in
      let m3 = set_some s.cached "cached" m2 in
      let m4 = set_some s.slab "slab" m3 in
      let m5 = set_some s.mem_free "free" m4 in
      let m6 = set_some s.swap_total "swap_total" m5 in
      let m7 = set_some s.swap_cached "swap_cached" m6 in set_some s.swap_free "swap_free" m7

  unfoldable pub get_mem_all_stat : Io (Meter F W) (Unit {0})
  unfolding set
  get_mem_all_stat = in_world fs.meminfo >>= λ s. done (set_mem s)

  abbrev set_self : ProcStat F → Meter F W → Meter F W
  set_self s m =
      let m1 = set p cpu_self_gauge s.cpu_time "total" m in
      let m2 = set p mem_self_gauge s.resident_memory "resident" m1 in
      set p mem_self_gauge s.virtual_memory "virtual" m2

  unfoldable pub set_devices : List (NetDevLine F) → Meter F W → Meter F W
  unfolding set
  set_devices [] m = m
  set_devices (dev ∷ devs) m = set_devices devs (
      set p network_tx_gauge dev.tx_bytes dev.name (set p network_rx_gauge dev.rx_bytes dev.name m))

  unfoldable pub get_self_stat : Io (Meter F W) (Unit {0})
  unfolding set set_devices
  get_self_stat = do
    proc ← in_world fs.self
    stat ← in_world (fs.proc_stat proc)
    done (set_self stat) >>= λ _.
        in_world (fs.net_dev proc) >>= λ devices. done (set_devices devices)

  -- One tick of the ticker: errors are logged only.
  unfoldable pub tick : Meter F W → Meter F W
  unfolding get_cpu_all_stat get_mem_all_stat get_self_stat
  tick m = (get_self_stat (get_mem_all_stat (get_cpu_all_stat m).1).1).1

-- InitProcStat: what its goroutine runs at each tick. `new_fs` is procfs.NewDefaultFS.
unfoldable pub init_proc_stat :
    {F W Proc : Type 0} → Platform F W → Io W (FileSystem F W Proc) → Io W (Meter F W → Meter F W)
unfolding tick
init_proc_stat p new_fs = within "create procfs" new_fs >>= λ fs. pure (tick p fs)
