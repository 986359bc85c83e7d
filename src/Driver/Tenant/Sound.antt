-- ===== src/Driver/Tenant/Sound.antt =====
-- What a volume that passes the check of tenant.go is.
use retyc_k8s_csi.Prelude.{
  String, ◌≡◌, refl, Bool, true, false, not, ◌&&◌, ◌||◌, Option, none, some, List, [], ◌∷◌, Dict,
  lookup, is_some, ◌==◌, if◌then◌else◌, Result, ok, err, arith, is_empty, Result-cases, inl, inr,
}
use retyc_k8s_csi.Driver.Status.{Status, Fetch, found, missing, failed}
use retyc_k8s_csi.Driver.Tenant.{
  PersistentVolume, Classes, is_ours, append, find_pvs, check_class, check_pv_identity, check_pvs,
  check_any, check_found, check_default_identity, node_stage_secret_param,
}

-- The API answers every list of the PVs with `pvs`, `none` a failure, and every read of a class with what
-- `class_of` says, a failure included.
pub record Serves {W : Type 0} (classes : Classes W) (pvs : Option (List PersistentVolume))
    (class_of : String → Fetch (Dict String)) : Type 0 where
  pub lists : (w : W) → classes.list_pvs w ≡ (pvs, w)
  pub reads : (n : String) (w : W) → classes.get_class n w ≡ (class_of n, w)

pub is_global_class : Fetch (Dict String) → Bool
is_global_class (found parameters) = not (is_some (lookup node_stage_secret_param parameters))
is_global_class missing = true
is_global_class failed = false

-- A PV without a node-stage secret, of no class, of a class that is gone, or of one that is not a
-- tenant's.
pub is_global : (String → Fetch (Dict String)) → PersistentVolume → Bool
is_global class_of pv =
    not pv.secret_ref
    && (pv.storage_class_name == "" || is_global_class (class_of pv.storage_class_name))

-- Every PV of the driver with the handle is global.
pub all_global : (String → Fetch (Dict String)) → String → List PersistentVolume → Bool
all_global class_of volume_id [] = true
all_global class_of volume_id (pv ∷ pvs) =
    (if is_ours volume_id pv then is_global class_of pv else true)
    && all_global class_of volume_id pvs

pub any_ours : String → List PersistentVolume → Bool
any_ours volume_id [] = false
any_ours volume_id (pv ∷ pvs) = if is_ours volume_id pv then true else any_ours volume_id pvs

-- Whether the driver's own identity may mount a volume, by what the API answers.
pub may_use_default :
    (String → Fetch (Dict String)) → String → Option (List PersistentVolume) → Bool
may_use_default class_of volume_id none = false
may_use_default class_of volume_id (some pvs) =
    any_ours volume_id pvs && all_global class_of volume_id pvs

abbrev pub is_ok : Result Status (Unit {0}) → Bool
is_ok (ok u) = true
is_ok (err e) = false

abbrev pub all_of : (String → Fetch (Dict String)) → List PersistentVolume → Bool
all_of class_of [] = true
all_of class_of (pv ∷ pvs) = is_global class_of pv && all_of class_of pvs

all_of-append :
    (class_of : String → Fetch (Dict String)) (pvs : List PersistentVolume) (pv : PersistentVolume)
    → all_of class_of (append pvs pv) ≡ (is_global class_of pv && all_of class_of pvs)
all_of-append class_of [] pv = refl
all_of-append class_of (p ∷ pvs) pv = ground (arith, all_of-append class_of pvs pv)

-- The order in which findPVs puts the PVs does not matter.
all_of-find_pvs :
    (class_of : String → Fetch (Dict String)) (v : String) (claim : Option String)
    (pvs seen : List PersistentVolume)
    → all_of class_of (find_pvs v claim pvs seen)
      ≡ (all_of class_of seen && all_global class_of v pvs)
unfolding find_pvs all_global
all_of-find_pvs class_of v claim [] seen = ground arith
all_of-find_pvs class_of v claim (pv ∷ pvs) seen = ground (
  arith,
  all_of-find_pvs class_of v claim pvs seen,
  all_of-find_pvs class_of v claim pvs (pv ∷ seen),
  all_of-find_pvs class_of v claim pvs (append seen pv),
  all_of-append class_of seen pv,
)

is_empty-append :
    (pvs : List PersistentVolume) (pv : PersistentVolume) → is_empty (append pvs pv) ≡ false
is_empty-append [] pv = refl
is_empty-append (p ∷ pvs) pv = refl

is_empty-find_pvs :
    (v : String) (claim : Option String) (pvs seen : List PersistentVolume)
    → is_empty (find_pvs v claim pvs seen) ≡ (is_empty seen && not (any_ours v pvs))
unfolding find_pvs any_ours
is_empty-find_pvs v claim [] seen = ground arith
is_empty-find_pvs v claim (pv ∷ pvs) seen = ground (
  arith,
  is_empty-find_pvs v claim pvs seen,
  is_empty-find_pvs v claim pvs (pv ∷ seen),
  is_empty-find_pvs v claim pvs (append seen pv),
  is_empty-append seen pv,
)

is_ok-check_class : (r : Fetch (Dict String)) → is_ok (check_class r) ≡ is_global_class r
unfolding check_class is_global_class
is_ok-check_class missing = refl
is_ok-check_class failed = refl
is_ok-check_class (found parameters) = ground arith

module _ {W : Type 0} (classes : Classes W) (pvs : Option (List PersistentVolume))
    (class_of : String → Fetch (Dict String)) (serves : Serves classes pvs class_of) where
  check_pv_identity-reads :
      (pv : PersistentVolume) (w : W)
      → ((check_pv_identity classes pv w).1 ≡ w)
        × (is_ok (check_pv_identity classes pv w).0 ≡ is_global class_of pv)
  unfolding check_pv_identity is_global
  check_pv_identity-reads pv w =
      let read = serves.reads pv.storage_class_name w in
      let verdict = is_ok-check_class (class_of pv.storage_class_name) in
      (rw read (ground arith), rw read (ground (arith, verdict)))

  check_pvs-all :
      (mine : List PersistentVolume) (w : W)
      → is_ok (check_pvs classes mine w).0 ≡ all_of class_of mine
  unfolding check_pvs
  check_pvs-all [] w = refl
  check_pvs-all (pv ∷ mine) w =
      let (same, verdict) = check_pv_identity-reads pv w in
      let rest = check_pvs-all mine w in
      elim (Result-cases (check_pv_identity classes pv w).0) [
        | inl (u, e) ↦ rw (e, same) (ground (arith, rest, verdict, e))
        | inr (s, e) ↦ rw e (ground (arith, verdict, e))
      ]

  check_any-all :
      (mine : List PersistentVolume) (w : W)
      → is_ok (check_any classes mine w).0 ≡ (not (is_empty mine) && all_of class_of mine)
  unfolding check_any
  check_any-all [] w = refl
  check_any-all (pv ∷ mine) w = check_pvs-all (pv ∷ mine) w

  check_found-verdict :
      (v : String) (claim : Option String) (listed : Option (List PersistentVolume)) (w : W)
      → is_ok (check_found classes v claim listed w).0 ≡ may_use_default class_of v listed
  unfolding check_found may_use_default
  check_found-verdict v claim none w = refl
  check_found-verdict v claim (some all) w =
      rw (check_any-all (find_pvs v claim all []) w)
        (ground (arith, all_of-find_pvs class_of v claim all [], is_empty-find_pvs v claim all []))

  -- A volume may be mounted with the driver's own identity exactly if the API lists the PVs, some PV of the
  -- driver has its handle, and none of them, whichever the claim names, has a node-stage secret, or a class
  -- that gives its volumes one or that the API fails to read: while the API answers each read of the PVs
  -- and of a class the same, a failure included.
  pub check_default_identity_sound :
      (v : String) (claim : Option String) (w : W)
      → is_ok (check_default_identity classes v claim w).0 ≡ may_use_default class_of v pvs
  unfolding check_default_identity
  check_default_identity_sound v claim w = rw (serves.lists w) (check_found-verdict v claim pvs w)
