-- ===== src/Controller/Idempotent.antt =====
-- CreateVolume retried, against what the documentation of the retyc CLI says of the commands that it
-- runs: `dataroom ls` lists every dataroom, `dataroom create` adds one, reads change nothing.
use Prim.Native.Nat.{ℕ, zero, suc}
use retyc_k8s_csi.Prelude.{
  String, ◌≡◌, refl, ap, sym, ◌∙◌, subst, Bool, true, false, ◌&&◌, Option, none, some, List, [],
  ◌∷◌, ◌++◌, ℤ, Dict, text_at, pos, negsuc, is_positive, ◌≤ℤ◌, lt→ltb, ltb_ℤ, ◌==◌, if◌then◌else◌,
  Result, ok, Result-cases, arith, Option-cases, inl, inr, eq_iff, ◌⊎◌,
}
use retyc_k8s_csi.Retyc.Size.Reading.{read_size, read-format_size}
use retyc_k8s_csi.Retyc.Commands.{
  Cli, Client, printed, Dataroom, DataroomCreateResult, run, setting_args, create_dataroom,
  list_datarooms, quota, words, decoded,
}
use retyc_k8s_csi.Retyc.Commands.Laws.{run-ok}
use retyc_k8s_csi.Driver.Status.{Status, Fetch}
use retyc_k8s_csi.Controller.Requests.{
  CapacityRange, ControllerServer, CreateVolumeRequest, pvc_name_parameter, pvc_namespace_parameter,
  reserved_bytes, check_request, client,
}
use retyc_k8s_csi.Controller.Capacity.{reserved_bytes_sound}
use retyc_k8s_csi.Controller.Volumes.{
  Volume, find_title, reuse, reservation, check_claim, respond, settle, provision, create_volume,
}

-- The reservation that the settings of `dataroom create` ask for, the size read as the CLI does.
abbrev size_of : Option ℕ → Option ℤ
size_of none = none
size_of (some n) = some (pos n)

unfoldable pub requested : List String → Option ℤ
requested [] = none
requested (flag ∷ []) = none
requested (flag ∷ value ∷ args) =
    if flag == "--storage-capacity" then size_of (read_size value) else none

-- The documented behaviour of the CLI over the datarooms that an environment's identity sees, while
-- the API answers; and a Kubernetes API whose claims do not change.
pub record Backend {W : Type 0} (tool : Cli W)
    (get_claim : String → String → W → Fetch (Dict String) × W)
    (rooms : List String → W → List Dataroom) : Type 0 where
  pub page : List String → W → List ℕ
  pub ls :
      (env : List String) (w : W)
      → tool.exec env ("--json" ∷ "dataroom" ∷ "ls" ∷ []) w ≡ (printed (page env w), w)
  pub ls_page : (env : List String) (w : W) → tool.unmarshal_page (page env w) ≡ some (rooms env w)
  pub quota_reads :
      (env : List String) (w : W) → (tool.exec env ("--json" ∷ "user" ∷ "quota" ∷ []) w).1 ≡ w
  pub create_adds :
      (env settings : List String) (title : String) (w w' : W) (out : List ℕ)
      (r : DataroomCreateResult)
      → tool.exec env ("--json" ∷ words ("dataroom" ∷ "create" ∷ "--title" ∷ title ∷ []) settings) w
        ≡ (printed out, w')
      → tool.unmarshal_created out ≡ some r
      → rooms env w'
        ≡ rooms env w
          ++ record { id = r.id; title = title; storage_capacity = requested settings } ∷ []
  pub claims : String → String → Fetch (Dict String)
  pub claim_reads : (ns name : String) (w : W) → get_claim ns name w ≡ (claims ns name, w)

requested-setting_args :
    (capacity : ℤ) (versioning : Option Bool)
    → requested (setting_args (reservation capacity) versioning) ≡ reservation capacity
unfolding requested setting_args
requested-setting_args (pos zero) none = refl
requested-setting_args (pos zero) (some true) = refl
requested-setting_args (pos zero) (some false) = refl
requested-setting_args (pos (suc n)) none =
    rw (lt→ltb 0 (suc n) (omega arith)) (ap size_of (read-format_size (suc n)))
requested-setting_args (pos (suc n)) (some true) =
    rw (lt→ltb 0 (suc n) (omega arith)) (ap size_of (read-format_size (suc n)))
requested-setting_args (pos (suc n)) (some false) =
    rw (lt→ltb 0 (suc n) (omega arith)) (ap size_of (read-format_size (suc n)))
requested-setting_args (negsuc n) none = refl
requested-setting_args (negsuc n) (some true) = refl
requested-setting_args (negsuc n) (some false) = refl

find_title-append :
    (name : String) (items : List Dataroom) (dr : Dataroom)
    → find_title name items ≡ none
    → dr.title ≡ name
    → find_title name (items ++ dr ∷ []) ≡ some dr
unfolding find_title
find_title-append name [] dr h e = ground (arith, eq_iff dr.title name)
find_title-append name (x ∷ items) dr h e = ground (arith, find_title-append name items dr)

below_limit-false : (c l : ℤ) → (l ≡ pos 0) ⊎ (c ≤ℤ l) → (is_positive l && ltb_ℤ l c) ≡ false
below_limit-false c l h = ground arith

ltb_ℤ-irrefl : (c : ℤ) → ltb_ℤ c c ≡ false
ltb_ℤ-irrefl c = ground arith

limit-of :
    (r : CapacityRange) (c : ℤ) → reserved_bytes r ≡ ok c → (r.limit ≡ pos 0) ⊎ (c ≤ℤ r.limit)
limit-of r c h = elim (reserved_bytes_sound r c h) [ inl u ↦ inl u.1 | inr f ↦ f.below_limit ]

-- What was reserved for a request is compatible with it.
reuse-reserved :
    (r : CapacityRange) (c : ℤ) (dr : Dataroom)
    → reserved_bytes r ≡ ok c
    → dr.storage_capacity ≡ reservation c
    → reuse c r.limit dr ≡ ok c
unfolding reuse
reuse-reserved r c dr h e =
    ground (arith, ltb_ℤ-irrefl c, below_limit-false c r.limit (limit-of r c h))

module _ {W : Type 0} (tool : Cli W) (get_claim : String → String → W → Fetch (Dict String) × W)
    (rooms : List String → W → List Dataroom) (backend : Backend tool get_claim rooms) where
  open backend use {page, ls, ls_page, quota_reads, create_adds, claims, claim_reads}

  list-rooms : (c : Client) (w : W) → list_datarooms tool c w ≡ (ok (rooms c.env w), w)
  unfolding list_datarooms run
  list-rooms c w = rw (ls c.env w, ls_page c.env w, decoded)

  quota-reads : (c : Client) (w : W) → (quota tool c w).1 ≡ w
  unfolding quota run
  quota-reads c w = quota_reads c.env w

  -- What a dataroom created for a reservation adds to the list.
  abbrev created : String → String → ℤ → Dataroom
  created id title capacity = record {
    id = id;
    title = title;
    storage_capacity = reservation capacity;
  }

  create-rooms :
      (c : Client) (title : String) (capacity : ℤ) (versioning : Option Bool) (w w' : W)
      (r : DataroomCreateResult)
      → (create_dataroom tool c title (reservation capacity) versioning w).0 ≡ ok r
      → (create_dataroom tool c title (reservation capacity) versioning w).1 ≡ w'
      → rooms c.env w' ≡ rooms c.env w ++ created r.id title capacity ∷ []
  unfolding create_dataroom run
  create-rooms c title capacity versioning w w' r h e =
      let (out, answer, value) = run-ok tool c tool.unmarshal_created _ w w' r h e in
      create_adds c.env _ title w w' out r answer value
      ∙ ap (λ k. rooms c.env w ++ record { id = r.id; title = title; storage_capacity = k } ∷ [])
          (requested-setting_args capacity versioning)

  -- The checks before the CLI runs depend on the request and the claim alone.
  check_claim-pure :
      (s : ControllerServer) (ns name : String) (w : W)
      → check_claim tool get_claim s ns name w ≡ ((check_claim tool get_claim s ns name w).0, w)
  unfolding check_claim
  check_claim-pure s ns name w = ground (arith, claim_reads ns name w)

  check_claim-same :
      (s : ControllerServer) (ns name : String) (w w' : W)
      → (check_claim tool get_claim s ns name w).0 ≡ (check_claim tool get_claim s ns name w').0
  unfolding check_claim
  check_claim-same s ns name w w' = ground (arith, claim_reads ns name w, claim_reads ns name w')

  module _ (c : Client) (req : CreateVolumeRequest) (versioning : Option Bool) (capacity : ℤ) where
    -- A new dataroom is there afterwards, and the response is about it.
    settle-none :
        (w w' : W) (v : Volume)
        → settle tool get_claim c req versioning capacity none w ≡ (ok v, w')
        → (id : String) × (rooms c.env w' ≡ rooms c.env w ++ created id req.name capacity ∷ [])
          × (v ≡ respond req id capacity)
    unfolding settle
    settle-none w w' v h =
        let w₁ = (quota tool c w).1 in
        elim (Result-cases
          (create_dataroom tool c req.name (reservation capacity) versioning w₁).0) [
            | inl (r, made) ↦ (
              r.id,
              create-rooms c req.name capacity versioning w₁ w' r made (ground arith)
                  ∙ ap (λ (x : W). rooms c.env x ++ created r.id req.name capacity ∷ [])
                      (quota-reads c w),
              ground arith,
            )
            | inr (e, refused) ↦ absurd (ground arith)
          ]

    -- A dataroom of that title is reused, and nothing is done.
    settle-some :
        (dr : Dataroom) (w w' : W) (v : Volume)
        → settle tool get_claim c req versioning capacity (some dr) w ≡ (ok v, w')
        → w ≡ w'
    unfolding settle
    settle-some dr w w' v h = ground arith

    settle-created :
        (id : String) (w : W)
        → reserved_bytes req.capacity_range ≡ ok capacity
        → settle tool get_claim c req versioning capacity (some (created id req.name capacity)) w
          ≡ (ok (respond req id capacity), w)
    unfolding settle
    settle-created id w h =
        rw (reuse-reserved req.capacity_range capacity (created id req.name capacity) h refl) refl

    provision-rooms :
        (w : W)
        → provision tool get_claim c req versioning capacity w
          ≡ settle tool get_claim c req versioning capacity (find_title req.name (rooms c.env w)) w
    unfolding provision
    provision-rooms w = rw (list-rooms c w) refl

    provision-retry :
        (w w' : W) (v : Volume)
        → reserved_bytes req.capacity_range ≡ ok capacity
        → provision tool get_claim c req versioning capacity w ≡ (ok v, w')
        → provision tool get_claim c req versioning capacity w' ≡ (ok v, w')
    provision-retry w w' v r h =
        let first = sym (provision-rooms w) ∙ h in
        elim (Option-cases (find_title req.name (rooms c.env w))) [
          | inr (dr, e) ↦
              subst (λ x. provision tool get_claim c req versioning capacity x ≡ (ok v, w'))
                (settle-some dr w w' v (rw e at first)) h
          | inl e ↦
              let (id, listed, same) = settle-none w w' v (rw e at first) in
              let there : find_title req.name (rooms c.env w')
                  ≡ some (created id req.name capacity) =
                rw listed (find_title-append req.name _ (created id req.name capacity) e refl) in
              provision-rooms w'
              ∙ rw there (settle-created id w' r)
              ∙ ap (λ (x : Volume). (ok x, w')) (sym same)
        ]

  checked-capacity :
      (req : CreateVolumeRequest) (versioning : Option Bool) (capacity : ℤ)
      → check_request req ≡ ok (versioning, capacity)
      → reserved_bytes req.capacity_range ≡ ok capacity
  unfolding check_request
  checked-capacity req versioning capacity h = ground arith

  claim_check : ControllerServer → CreateVolumeRequest → W → Result Status (Unit {0}) × W
  claim_check s req =
      check_claim tool get_claim s (text_at pvc_namespace_parameter req.parameters)
        (text_at pvc_name_parameter req.parameters)

  -- A request that passes the checks is provisioned.
  create_volume-provision :
      (s : ControllerServer) (req : CreateVolumeRequest) (c : Client) (versioning : Option Bool)
      (capacity : ℤ) (w : W)
      → check_request req ≡ ok (versioning, capacity)
      → client s req.secrets ≡ ok c
      → (claim_check s req w).0 ≡ ok tt
      → create_volume tool get_claim s req w ≡ provision tool get_claim c req versioning capacity w
  unfolding create_volume claim_check
  create_volume-provision s req c versioning capacity w r k p =
      rw (r, check_claim-pure s _ _ w, p, k) refl

  passed_checks :
      (s : ControllerServer) (req : CreateVolumeRequest) (w w' : W) (v : Volume)
      → create_volume tool get_claim s req w ≡ (ok v, w')
      → (p : Option Bool × ℤ) × (c : Client) × (check_request req ≡ ok p)
        × (client s req.secrets ≡ ok c)
        × ((claim_check s req w).0 ≡ ok tt)
  unfolding create_volume claim_check
  passed_checks s req w w' v h = elim (Result-cases (check_request req)) [
    | inr (e, r) ↦ absurd (ground arith)
    | inl (p, r) ↦ elim (Result-cases (client s req.secrets)) [
      | inr (e, k) ↦ absurd (ground arith)
      | inl (c, k) ↦ (p, c, r, k, ground arith)
    ]
  ]

  -- CreateVolume retried after it succeeded, a lost response say, answers the same volume, of the same
  -- size, and creates nothing: the CLI behaving as documented, the API answering and the claim unchanged.
  pub create_volume_retry :
      (s : ControllerServer) (req : CreateVolumeRequest) (w w' : W) (v : Volume)
      → create_volume tool get_claim s req w ≡ (ok v, w')
      → create_volume tool get_claim s req w' ≡ (ok v, w')
  unfolding claim_check
  create_volume_retry s req w w' v h =
      let (p, c, r, k, owned) = passed_checks s req w w' v h in
      let owned' = sym (check_claim-same s _ _ w w') ∙ owned in
      create_volume-provision s req c p.0 p.1 w' r k owned'
      ∙ provision-retry c req p.0 p.1 w w' v (checked-capacity req p.0 p.1 r)
          (sym (create_volume-provision s req c p.0 p.1 w r k owned) ∙ h)
