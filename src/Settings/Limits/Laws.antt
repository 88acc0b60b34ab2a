-- ===== src/Settings/Limits/Laws.antt =====
-- What ParsePodResources of pkg/config/dfs_setting.go makes of each of its four texts.
use dingofs_csi.Common.{
  String, Bool, true, false, Option, none, some, Dict, ◌≡◌, refl, ap, sym, ◌∙◌, arith, ◌==◌,
  if◌then◌else◌, eq_iff, lookup, insert, delete, lookup-insert, lookup-delete, inl, inr, ◌⊎◌,
}
use dingofs_csi.Common.Exec.{Result, ok, err, other}
use dingofs_csi.Kube.{Resources}
use dingofs_csi.Settings.Limits.{
  Quantities, default_limits, default_requests, set_parsed, set_quantity, then_set, both,
  parse_pod_resources,
}

module _ (q : Quantities) where
  abbrev positive_only : Option String → Result (Option String)
  positive_only none = err other
  positive_only (some quantity) = if q.is_positive quantity then ok (some quantity) else ok none

  -- The entry that a text stands for: an empty text for the default, a quantity above zero for
  -- itself, and any other quantity for no entry.
  abbrev pub meant : (text default : String) → Result (Option String)
  meant text default =
      if text == "" then ok (some default) else positive_only (q.parse_quantity text)

  -- The entry under `key` is the one meant, and the other entries are those of `m`.
  abbrev SetTo : (key : String) → Dict → Result (Option String) → Result Dict → Type 0
  SetTo key m x (err e) = x ≡ err other
  SetTo key m x (ok n) =
      (entry : Option String) × (x ≡ ok entry)
      × ((asked : String) → lookup asked n ≡ (if key == asked then entry else lookup asked m))

  set_parsed-SetTo :
      (key : String) (m : Dict) (o : Option String)
      → SetTo key m (positive_only o) (set_parsed q key m o)
  set_parsed-SetTo key m none = refl
  set_parsed-SetTo key m (some quantity) = by (q.is_positive quantity)
    where
      by :
          (b : Bool)
          → SetTo key m
              (if b then ok (some quantity) else ok none)
              (if b then ok (insert key quantity m) else ok (delete key m))
      by true = (some quantity, refl, λ asked. lookup-insert key asked quantity m)
      by false = (none, refl, λ asked. lookup-delete key asked m)

  set_quantity-SetTo :
      (key text default : String) (m : Dict)
      → lookup key m ≡ some default
      → SetTo key m (meant text default) (set_quantity q key text m)
  unfolding set_quantity
  set_quantity-SetTo key text default m e = by (text == "")
    where
      by :
          (b : Bool)
          → SetTo key m
              (if b then ok (some default) else positive_only (q.parse_quantity text))
              (if b then ok m else set_parsed q key m (q.parse_quantity text))
      by true = (some default, refl, λ asked. ground (arith, e, eq_iff key asked))
      by false = set_parsed-SetTo key m (q.parse_quantity text)

  -- What two texts, for the processor and the memory, make of one of the two maps.
  abbrev Both : (cpu memory : Result (Option String)) → Result Dict → Type 0
  Both cpu memory (err e) = (cpu ≡ err other) ⊎ (memory ≡ err other)
  Both cpu memory (ok m) = (cpu ≡ ok (lookup "cpu" m)) × (memory ≡ ok (lookup "memory" m))

  then_set-Both :
      (cpu memory cpu_default memory_default : String) (m : Dict) (r : Result Dict)
      → lookup "cpu" m ≡ some cpu_default
      → lookup "memory" m ≡ some memory_default
      → SetTo "cpu" m (meant cpu cpu_default) r
      → Both (meant cpu cpu_default) (meant memory memory_default) (then_set q "memory" memory r)
  then_set-Both cpu memory cpu_default memory_default m (err e) c d s = inl s
  then_set-Both cpu memory cpu_default memory_default m (ok n) c d (entry, x, l) =
      by (set_quantity q "memory" memory n)
        (set_quantity-SetTo "memory" memory memory_default n (l "memory" ∙ d))
    where
      by :
          (r : Result Dict)
          → SetTo "memory" n (meant memory memory_default) r
          → Both (meant cpu cpu_default) (meant memory memory_default) r
      by (err e) s = inr s
      by (ok k) (entry', x', l') =
          (x ∙ ap ok (sym (l "cpu") ∙ sym (l' "cpu")), x' ∙ ap ok (sym (l' "memory")))

  -- What the four texts make of the answer.
  abbrev pub AreMeant :
      (cpu_limit memory_limit cpu_request memory_request : Result (Option String))
      → Result Resources
      → Type 0
  AreMeant cpu_limit memory_limit cpu_request memory_request (err e) =
      (cpu_limit ≡ err other)
      ⊎ (memory_limit ≡ err other)
      ⊎ (cpu_request ≡ err other)
      ⊎ (memory_request ≡ err other)
  AreMeant cpu_limit memory_limit cpu_request memory_request (ok r) =
      (cpu_limit ≡ ok (lookup "cpu" r.limits))
      × (memory_limit ≡ ok (lookup "memory" r.limits))
      × (cpu_request ≡ ok (lookup "cpu" r.requests))
      × (memory_request ≡ ok (lookup "memory" r.requests))

  both-AreMeant :
      (a b c d : Result (Option String)) (limits requests : Result Dict)
      → Both a b limits
      → Both c d requests
      → AreMeant a b c d (both q limits requests)
  both-AreMeant a b c d (err e) requests (inl x) y = inl x
  both-AreMeant a b c d (err e) requests (inr x) y = inr (inl x)
  both-AreMeant a b c d (ok l) (err e) x (inl y) = inr (inr (inl y))
  both-AreMeant a b c d (ok l) (err e) x (inr y) = inr (inr (inr y))
  both-AreMeant a b c d (ok l) (ok r) (x, x') (y, y') = (x, x', y, y')

  parse_pod_resources-AreMeant :
      (cpu_limit memory_limit cpu_request memory_request : String)
      → AreMeant
          (meant cpu_limit "4000m")
          (meant memory_limit "12Gi")
          (meant cpu_request "2000m")
          (meant memory_request "6Gi")
          (parse_pod_resources q cpu_limit memory_limit cpu_request memory_request)
  unfolding parse_pod_resources lookup
  parse_pod_resources-AreMeant cpu_limit memory_limit cpu_request memory_request =
      both-AreMeant _ _ _ _ _ _
        (then_set-Both cpu_limit memory_limit "4000m" "12Gi" default_limits _ refl refl
          (set_quantity-SetTo "cpu" cpu_limit "4000m" default_limits refl))
        (then_set-Both cpu_request memory_request "2000m" "6Gi" default_requests _ refl refl
          (set_quantity-SetTo "cpu" cpu_request "2000m" default_requests refl))
