-- ===== src/CacheProg.antt =====
-- The cache program of internal/cacheprog/cacheprog.go: the requests of the go command over a backend.
pub mod Backend
use gocica.Base.{
  ℕ, ◌+◌, ◌%◌, ◌^◌, Bool, true, false, Option, none, some, String, Bytes, str_eq, ◌||◌,
  if◌then◌else◌,
}
use gocica.Base.Int64.{Int64}
use gocica.Base.Go.{Result, ok, err, Io, wrap, wrapped}
use gocica.Protocol.{Request, Response}

pub record MetaData : Type 0 where
  pub output_id : String
  pub size : Int64
  pub timenano : Int64

pub record Found : Type 0 where
  pub disk_path : String
  pub meta_data : Option MetaData

-- The Backend interface.
pub record Service (B : Type 0) : Type 0 where
  pub get : String → Io B Found
  pub put : String → String → Int64 → Option Bytes → Io B String
  pub close : Io B (Unit {0})

pub record CacheProg (B : Type 0) : Type 0 where
  pub backend : B
  pub hit_count : ℕ
  pub miss_count : ℕ
  pub put_count : ℕ

-- atomic.AddUint64(&count, 1)
abbrev pub count_up : ℕ → ℕ
count_up n = (n + 1) % 2 ^ 64

module _ {B : Type 0} (service : Service B) where
  abbrev missed : Response → CacheProg B → (Response × Result (Unit {0})) × CacheProg B
  missed res cp =
      ((record res { miss = true }, ok tt), record cp { miss_count = count_up cp.miss_count })

  abbrev hit :
      String → MetaData → Response → CacheProg B → (Response × Result (Unit {0})) × CacheProg B
  hit path meta res cp = (
    (
      record res {
        disk_path = path;
        output_id = meta.output_id;
        size = meta.size;
        time_nanos = meta.timenano;
      },
      ok tt,
    ),
    record cp { hit_count = count_up cp.hit_count },
  )

  abbrev pub got :
      Result Found → Response → CacheProg B → (Response × Result (Unit {0})) × CacheProg B
  got (err e) res cp = ((res, err (wrap "get action" e)), cp)
  got (ok found) res cp = elim found.meta_data [
    | none ↦ missed res cp
    | some meta ↦
        if str_eq found.disk_path "" then missed res cp else hit found.disk_path meta res cp
  ]

  unfoldable pub get :
      Request → Response → CacheProg B → (Response × Result (Unit {0})) × CacheProg B
  get req res cp =
      let (r, b) = service.get req.action_id cp.backend in got r res (record cp { backend = b })

  abbrev stored : Result String → Response → Response × Result (Unit {0})
  stored (err e) res = (res, err (wrap "put action" e))
  stored (ok path) res = (record res { disk_path = path }, ok tt)

  unfoldable pub put :
      Request → Response → CacheProg B → (Response × Result (Unit {0})) × CacheProg B
  put req res cp =
      let (r, b) = service.put req.action_id req.output_id req.body_size req.body cp.backend in
      (stored r res, record cp { backend = b; put_count = count_up cp.put_count })

  unfoldable pub close : CacheProg B → Result (Unit {0}) × CacheProg B
  close cp =
      let (r, b) = service.close cp.backend in
      (wrapped "close backend" r, record cp { backend = b })
