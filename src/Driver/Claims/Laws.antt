-- ===== src/Driver/Claims/Laws.antt =====
-- The owners that claimOwner accepts.
use retyc_k8s_csi.Prelude.{
  ℕ, ◌^◌, ◌<◌, String, ◌≡◌, refl, Option, none, some, Dict, lookup, ok, arith, ◌⊎◌, inl, inr,
  Option-cases,
}
use retyc_k8s_csi.Driver.Claims.{
  annotation_uid, annotation_gid, parse_uint32, parse_id, Owner, claim_owner, with_gid, owner_from,
}

parse_uint32-lt : (raw : String) (n : ℕ) → parse_uint32 raw ≡ some n → n < 2 ^ 32
unfolding parse_uint32
parse_uint32-lt raw n h = ground arith

-- The ID that an annotation gives: its number, if it is there.
abbrev pub Gives : Option String → ℕ → Type 0
Gives annotation n = (raw : String) × (annotation ≡ some raw) × (parse_uint32 raw ≡ some n)

with_gid_sound :
    (uid : ℕ) (gid : Option String) (o : Owner)
    → with_gid uid gid ≡ ok o
    → (o.uid ≡ uid) × (((gid ≡ none) × (o.gid ≡ uid)) ⊎ Gives gid o.gid)
unfolding with_gid parse_id
with_gid_sound uid none o h = (ground arith, inl (refl, ground arith))
with_gid_sound uid (some raw) o h = (ground arith, inr (raw, refl, ground arith))

owner_from_sound :
    (uid gid : Option String) (o : Owner)
    → owner_from uid gid ≡ ok o
    → Gives uid o.uid × (((gid ≡ none) × (o.gid ≡ o.uid)) ⊎ Gives gid o.gid)
unfolding owner_from parse_id
owner_from_sound none gid o h = cc
owner_from_sound (some raw) gid o h = elim (Option-cases (parse_uint32 raw)) [
  | inl e ↦ absurd (ground arith)
  | inr (n, e) ↦ let (u, g) = with_gid_sound n gid o (ground arith) in ((raw, refl, rw u e), rw u g)
]

-- An accepted owner comes from the annotations: the UID is the number of the uid annotation, which is
-- there, the GID that of the gid annotation, or the UID where that is missing. Both fit 32 bits.
pub claim_owner_sound :
    (annotations : Dict String) (o : Owner)
    → claim_owner annotations ≡ ok o
    → Gives (lookup annotation_uid annotations) o.uid
      × (((lookup annotation_gid annotations ≡ none) × (o.gid ≡ o.uid))
          ⊎ Gives (lookup annotation_gid annotations) o.gid)
      × (o.uid < 2 ^ 32)
      × (o.gid < 2 ^ 32)
unfolding claim_owner
claim_owner_sound annotations o h =
    let (u, g) = owner_from_sound _ _ o h in
    let small : o.uid < 2 ^ 32 = parse_uint32-lt u.0 o.uid u.2 in
    (u, g, small, elim g [ inl e ↦ omega (arith, e.1) | inr r ↦ parse_uint32-lt r.0 o.gid r.2 ])
