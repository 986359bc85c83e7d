-- ===== src/Driver/Settings/Sound.antt =====
-- What the settings that parseMountSettings accepts say.
use retyc_k8s_csi.Prelude.{
  ℕ, ◌<◌, ◌≤◌, String, Bool, false, Option, none, some, List, [], Dict, lookup, insert, length,
  contains, ℤ, pos, negsuc, zero, suc, Result, ok, err, and_then-ok, ok_injective, ◌≡◌, ◌⊎◌, refl,
  arith, ap, ◌∙◌, sym, subst,
}
use retyc_k8s_csi.Controller.Requests.{parse_bool}
use retyc_k8s_csi.Mountpod.Spec.{Requirements}
use retyc_k8s_csi.Driver.Claims.{Owner, OwnerError, claim_owner}
use retyc_k8s_csi.Driver.Settings.{
  annotation_cache_ttl, annotation_background_delete, annotation_unsafe_write, annotation_read_only,
  annotation_local_file, annotation_mount_cpu_request, annotation_mount_cpu_limit,
  annotation_mount_memory_request, annotation_mount_memory_limit, Readers, MountSettings,
  read_owner, positive_duration, boolean, patterns, positive_quantity, read_setting, set_quantity,
  cache_ttl_setting, boolean_setting, local_file_setting, quantity_setting, parse_mount_resources,
  parse_mount_settings,
}

-- What a setting is when its annotation is missing, and when it has a text.
abbrev pub SaysTtl : Readers → Option String → ℕ → Type 0
SaysTtl r none ttl = ttl ≡ 0
SaysTtl r (some raw) ttl = r.duration raw ≡ some (pos ttl)

abbrev pub SaysBool : Option String → Bool → Type 0
SaysBool none b = b ≡ false
SaysBool (some raw) b = parse_bool raw ≡ some b

abbrev pub SaysFiles : Readers → Option String → List String → Type 0
SaysFiles r none files = files ≡ []
SaysFiles r (some raw) files =
    (r.fields raw ≡ files) × ((length files ≤ 1) ⊎ (contains files "none" ≡ false))

abbrev pub SaysQuantity : Readers → Option String → Option ℕ → Type 0
SaysQuantity r none q = q ≡ none
SaysQuantity r (some raw) q = (n : ℕ) × (0 < n) × (r.quantity raw ≡ some (pos n)) × (q ≡ some n)

-- The settings as the annotations tell them.
pub record IsSaid (r : Readers) (settings : Dict String) (ms : MountSettings) : Type 0 where
  pub owner : claim_owner settings ≡ ok ms.owner
  pub cache_ttl : SaysTtl r (lookup annotation_cache_ttl settings) ms.options.cache_ttl
  pub background_delete :
      SaysBool (lookup annotation_background_delete settings) ms.options.background_delete
  pub unsafe_write : SaysBool (lookup annotation_unsafe_write settings) ms.options.unsafe_write
  pub read_only : SaysBool (lookup annotation_read_only settings) ms.options.read_only
  pub local_file : SaysFiles r (lookup annotation_local_file settings) ms.options.local_file
  pub cpu_request :
      SaysQuantity r
        (lookup annotation_mount_cpu_request settings)
        (lookup "cpu" ms.resources.requests)
  pub cpu_limit :
      SaysQuantity r (lookup annotation_mount_cpu_limit settings) (lookup "cpu" ms.resources.limits)
  pub memory_request :
      SaysQuantity r
        (lookup annotation_mount_memory_request settings)
        (lookup "memory" ms.resources.requests)
  pub memory_limit :
      SaysQuantity r
        (lookup annotation_mount_memory_limit settings)
        (lookup "memory" ms.resources.limits)

module _ (r : Readers) where
  read_ttl-Says :
      (o : Option String) (ttl : ℕ)
      → read_setting 0 (λ raw. positive_duration annotation_cache_ttl (r.duration raw)) o ≡ ok ttl
      → SaysTtl r o ttl
  unfolding read_setting positive_duration
  read_ttl-Says none ttl h = ground arith
  read_ttl-Says (some raw) ttl h = ttl_is (r.duration raw) h
    where
      ttl_is :
          (d : Option ℤ) → positive_duration annotation_cache_ttl d ≡ ok ttl → d ≡ some (pos ttl)
      ttl_is (some (pos d)) h = ground arith
      ttl_is (some (negsuc d)) h = absurd (ground arith)
      ttl_is none h = absurd (ground arith)

  read_bool-Says :
      (key : String) (o : Option String) (b : Bool)
      → read_setting false (λ raw. boolean key (parse_bool raw)) o ≡ ok b
      → SaysBool o b
  unfolding read_setting boolean
  read_bool-Says key none b h = ground arith
  read_bool-Says key (some raw) b h = bool_is (parse_bool raw) h
    where
      bool_is : (o : Option Bool) → boolean key o ≡ ok b → o ≡ some b
      bool_is (some x) h = ground arith
      bool_is none h = absurd (ground arith)

  read_files-Says :
      (o : Option String) (files : List String)
      → read_setting [] (λ raw. patterns annotation_local_file (r.fields raw)) o ≡ ok files
      → SaysFiles r o files
  unfolding read_setting patterns
  read_files-Says none files h = ground arith
  read_files-Says (some raw) files h = ground arith

  read_quantity-Says :
      (key : String) (o : Option String) (q : Option ℕ)
      → read_setting none (λ raw. positive_quantity key (r.quantity raw)) o ≡ ok q
      → SaysQuantity r o q
  unfolding read_setting positive_quantity
  read_quantity-Says key none q h = ground arith
  read_quantity-Says key (some raw) q h = quantity_is (r.quantity raw) refl h
    where
      quantity_is :
          (x : Option ℤ)
          → r.quantity raw ≡ x
          → positive_quantity key x ≡ ok q
          → (n : ℕ) × (0 < n) × (r.quantity raw ≡ some (pos n)) × (q ≡ some n)
      quantity_is (some (pos (suc n))) e h = (suc n, omega arith, e, ground arith)
      quantity_is (some (pos zero)) e h = absurd (ground arith)
      quantity_is (some (negsuc n)) e h = absurd (ground arith)
      quantity_is none e h = absurd (ground arith)

lookup-cpu :
    (cpu memory : Option ℕ)
    → lookup "cpu" (set_quantity "memory" memory (set_quantity "cpu" cpu [])) ≡ cpu
unfolding lookup insert
lookup-cpu none none = refl
lookup-cpu none (some m) = refl
lookup-cpu (some c) none = refl
lookup-cpu (some c) (some m) = refl

lookup-memory :
    (cpu memory : Option ℕ)
    → lookup "memory" (set_quantity "memory" memory (set_quantity "cpu" cpu [])) ≡ memory
unfolding lookup insert
lookup-memory none none = refl
lookup-memory none (some m) = refl
lookup-memory (some c) none = refl
lookup-memory (some c) (some m) = refl

module _ (r : Readers) (settings : Dict String) where
  quantity_setting-Says :
      (key : String) (q x : Option ℕ)
      → x ≡ q
      → quantity_setting r settings key ≡ ok q
      → SaysQuantity r (lookup key settings) x
  unfolding quantity_setting
  quantity_setting-Says key q x e h =
      read_quantity-Says r key (lookup key settings) x (h ∙ ap ok (sym e))

  resources-Says : (res : Requirements) → parse_mount_resources r settings ≡ ok res → record {
    cpu_request :
        SaysQuantity r (lookup annotation_mount_cpu_request settings) (lookup "cpu" res.requests);
    cpu_limit :
        SaysQuantity r (lookup annotation_mount_cpu_limit settings) (lookup "cpu" res.limits);
    memory_request :
        SaysQuantity r
          (lookup annotation_mount_memory_request settings)
          (lookup "memory" res.requests);
    memory_limit :
        SaysQuantity r (lookup annotation_mount_memory_limit settings) (lookup "memory" res.limits);
  }
  unfolding parse_mount_resources
  resources-Says res h =
      let (cr, h1, g1) =
        and_then-ok (quantity_setting r settings annotation_mount_cpu_request) _ res h in
      let (cl, h2, g2) =
        and_then-ok (quantity_setting r settings annotation_mount_cpu_limit) _ res g1 in
      let (mr, h3, g3) =
        and_then-ok (quantity_setting r settings annotation_mount_memory_request) _ res g2 in
      let (ml, h4, g4) =
        and_then-ok (quantity_setting r settings annotation_mount_memory_limit) _ res g3 in
      let same = ok_injective g4 in
      record {
        cpu_request =
            quantity_setting-Says _ cr _
              (ap (λ x. lookup "cpu" x.requests) (sym same) ∙ lookup-cpu cr mr) h1;
        cpu_limit =
            quantity_setting-Says _ cl _
              (ap (λ x. lookup "cpu" x.limits) (sym same) ∙ lookup-cpu cl ml) h2;
        memory_request =
            quantity_setting-Says _ mr _
              (ap (λ x. lookup "memory" x.requests) (sym same) ∙ lookup-memory cr mr) h3;
        memory_limit =
            quantity_setting-Says _ ml _
              (ap (λ x. lookup "memory" x.limits) (sym same) ∙ lookup-memory cl ml) h4;
      }

read_owner-ok : (r : Result OwnerError Owner) (o : Owner) → read_owner r ≡ ok o → r ≡ ok o
unfolding read_owner
read_owner-ok (ok x) o h = ap ok (ok_injective h)
read_owner-ok (err e) o h = absurd (ground arith)

-- Settings that parseMountSettings accepts are what the annotations say: the owner; each option its
-- default where its annotation is missing and the text read where it is not, a duration not below 0,
-- "none" alone among patterns; each quantity set exactly if it has an annotation, and then positive.
pub parse_mount_settings-IsSaid :
    (r : Readers) (settings : Dict String) (ms : MountSettings)
    → parse_mount_settings r settings ≡ ok ms
    → IsSaid r settings ms
unfolding parse_mount_settings cache_ttl_setting boolean_setting local_file_setting
parse_mount_settings-IsSaid r settings ms h =
    let (owner, h1, g1) = and_then-ok (read_owner (claim_owner settings)) _ ms h in
    let (ttl, h2, g2) = and_then-ok (cache_ttl_setting r settings) _ ms g1 in
    let (background, h3, g3) =
      and_then-ok (boolean_setting r settings annotation_background_delete) _ ms g2 in
    let (unsafe, h4, g4) =
      and_then-ok (boolean_setting r settings annotation_unsafe_write) _ ms g3 in
    let (read_only, h5, g5) =
      and_then-ok (boolean_setting r settings annotation_read_only) _ ms g4 in
    let (files, h6, g6) = and_then-ok (local_file_setting r settings) _ ms g5 in
    let (res, h7, g7) = and_then-ok (parse_mount_resources r settings) _ ms g6 in
    let said = resources-Says r settings res h7 in
    subst (IsSaid r settings) (ok_injective g7) (record {
      owner = read_owner-ok (claim_owner settings) owner h1;
      cache_ttl = read_ttl-Says r _ ttl h2;
      background_delete = read_bool-Says r _ _ background h3;
      unsafe_write = read_bool-Says r _ _ unsafe h4;
      read_only = read_bool-Says r _ _ read_only h5;
      local_file = read_files-Says r _ files h6;
      cpu_request = said.cpu_request;
      cpu_limit = said.cpu_limit;
      memory_request = said.memory_request;
      memory_limit = said.memory_limit;
    })
