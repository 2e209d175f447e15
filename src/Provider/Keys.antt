-- ===== src/Provider/Keys.antt =====
-- The keys of the cache entries.
use Prim.Native.String.{count, ◌++◌ as ◌&◌}
use text.Mathlib.TextBridge.{IsPrefix}
use text.Mathlib.TextLemmas.{append_assoc, length-append}
use gocica.Base.{◌<◌, ◌≡◌, refl, sym, ap, ◌∙◌, String, [], ◌∷◌, arith}
use gocica.Provider.{
  GhaCacheClient, extend_key, blob_key, actions_cache_prefix, actions_cache_separator,
}

-- What every key on one system starts with, and every key on one system and ref.
abbrev system_key : String → String
system_key os = (actions_cache_prefix & actions_cache_separator & os) & actions_cache_separator

abbrev ref_key : String → String → String
ref_key os ref = (system_key os & ref) & actions_cache_separator

ref_key-longer : (os ref : String) → count (system_key os) < count (ref_key os ref)
ref_key-longer os ref =
    omega (arith, length-append (system_key os & ref) "-", length-append (system_key os) ref)

-- The restore keys of a client are two, the longer one first. The key of a client on the same system and
-- ref starts with the first, and the key of a client on the same system starts with the second.
pub blob_key-IsPrefix :
    (c sibling cousin : GhaCacheClient)
    → sibling.runner_os ≡ c.runner_os
    → sibling.ref ≡ c.ref
    → cousin.runner_os ≡ c.runner_os
    → (near : String) × (far : String) × ((blob_key c).1 ≡ near ∷ far ∷ [])
      × (count far < count near)
      × IsPrefix near (blob_key sibling).0
      × IsPrefix far (blob_key cousin).0
unfolding blob_key extend_key
blob_key-IsPrefix c sibling cousin os ref os' = (
  ref_key c.runner_os c.ref,
  system_key c.runner_os,
  refl,
  ref_key-longer c.runner_os c.ref,
  (sibling.sha, rw (os, ref) refl),
  (
    (cousin.ref & actions_cache_separator) & cousin.sha,
    rw os' (
        sym (append_assoc (system_key c.runner_os) _ cousin.sha)
        ∙ ap (λ k. k & cousin.sha) (sym (append_assoc (system_key c.runner_os) cousin.ref "-"))),
  ),
)
