-- ===== src/Driver/Tenant.antt =====
-- tenant.go: which volumes may be mounted with the driver's own identity. The Kubernetes API is a
-- parameter over the state `W` of the world; the client is there.
pub mod Sound
use retyc_k8s_csi.Prelude.{
  String, Bool, true, false, not, ◌&&◌, Option, none, some, List, [], ◌∷◌, ◌++◌, Dict, lookup,
  is_some, ◌==◌, if◌then◌else◌, Result, ok, err, Exec, pure, raise, ◌>>=◌, ◌>>◌,
}
use retyc_k8s_csi.Driver.Status.{
  Status, status, Fetch, found, missing, failed, failed_precondition, unavailable,
}

abbrev pub driver_name : String
driver_name = "csi.retycfs.com"

abbrev pub node_stage_secret_param : String
node_stage_secret_param = "csi.storage.k8s.io/node-stage-secret-name"

-- A PersistentVolume of a CSI driver; `secret_ref` says whether it names a node-stage secret. One of
-- another kind has no driver.
pub record PersistentVolume : Type 0 where
  pub name : String
  pub driver : Option String
  pub volume_handle : String
  pub secret_ref : Bool
  pub storage_class_name : String

-- The list of all PVs, and the parameters of a StorageClass by its name.
pub record Classes (W : Type 0) : Type 0 where
  pub list_pvs : W → Option (List PersistentVolume) × W
  pub get_class : String → W → Fetch (Dict String) × W

unfoldable pub is_ours : String → PersistentVolume → Bool
is_ours volume_id pv = elim pv.driver [
  | none ↦ false
  | some d ↦ d == driver_name && pv.volume_handle == volume_id
]

abbrev is_claimed : Option String → PersistentVolume → Bool
is_claimed none pv = false
is_claimed (some volume_name) pv = pv.name == volume_name

abbrev pub append : List PersistentVolume → PersistentVolume → List PersistentVolume
append pvs pv = pvs ++ pv ∷ []

-- The loop of findPVs: the claim's own PV goes first. `claim` is the claim's spec.volumeName.
unfoldable pub find_pvs :
    String → Option String → List PersistentVolume → List PersistentVolume → List PersistentVolume
find_pvs volume_id claim [] seen = seen
find_pvs volume_id claim (pv ∷ pvs) seen = find_pvs volume_id claim pvs (
    if not (is_ours volume_id pv)
    then seen
    else if is_claimed claim pv
    then pv ∷ seen
    else append seen pv)

-- What the class of a PV says.
unfoldable pub check_class : Fetch (Dict String) → Result Status (Unit {0})
check_class missing = ok tt
check_class failed = err (status unavailable)
check_class (found parameters) =
    if is_some (lookup node_stage_secret_param parameters)
    then err (status failed_precondition)
    else ok tt

module _ {W : Type 0} (classes : Classes W) where
  -- checkPVIdentity
  unfoldable pub check_pv_identity : PersistentVolume → Exec Status W (Unit {0})
  check_pv_identity pv w =
      let (class, w') = classes.get_class pv.storage_class_name w in
      if pv.secret_ref
      then (err (status failed_precondition), w)
      else if pv.storage_class_name == ""
      then (ok tt, w)
      else (check_class class, w')

  unfoldable pub check_pvs : List PersistentVolume → Exec Status W (Unit {0})
  check_pvs [] = pure tt
  check_pvs (pv ∷ pvs) = check_pv_identity pv >> check_pvs pvs

  -- No PV at all refuses.
  unfoldable pub check_any : List PersistentVolume → Exec Status W (Unit {0})
  check_any [] = raise (status failed_precondition)
  check_any (pv ∷ pvs) = check_pvs (pv ∷ pvs)

  unfoldable pub check_found :
      String → Option String → Option (List PersistentVolume) → Exec Status W (Unit {0})
  check_found volume_id claim none = raise (status unavailable)
  check_found volume_id claim (some pvs) = check_any (find_pvs volume_id claim pvs [])

  -- checkDefaultIdentity
  unfoldable pub check_default_identity : String → Option String → Exec Status W (Unit {0})
  check_default_identity volume_id claim w =
      let (pvs, w') = classes.list_pvs w in check_found volume_id claim pvs w'
