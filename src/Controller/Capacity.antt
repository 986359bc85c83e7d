-- ===== src/Controller/Capacity.antt =====
-- reservedBytes of controller.go against the capacity range of the request.
use retyc_k8s_csi.Prelude.{ℕ, zero, suc, ◌≡◌, refl, ◌⊎◌, inl, inr, ℤ, pos, negsuc, ◌≤ℤ◌, ok, arith}
use retyc_k8s_csi.Controller.Requests.{CapacityRange, min_dataroom_capacity, reserved_bytes}

-- A reservation is made exactly for a range that is not unset, and lies in it.
pub record Fits (r : CapacityRange) (c : ℤ) : Type 0 where
  pub above_required : r.required ≤ℤ c
  pub above_floor : min_dataroom_capacity ≤ℤ c
  pub below_limit : (r.limit ≡ pos 0) ⊎ (c ≤ℤ r.limit)

abbrev Outcome : CapacityRange → ℤ → Type 0
Outcome r c = ((r.required ≡ pos 0) × (r.limit ≡ pos 0) × (c ≡ pos 0)) ⊎ Fits r c

abbrev range : ℤ → ℤ → CapacityRange
range q l = record { required = q; limit = l }

no_limit :
    (q : ℕ) (c : ℤ)
    → reserved_bytes (range (pos q) (pos 0)) ≡ ok c
    → Outcome (range (pos q) (pos 0)) c
unfolding reserved_bytes
no_limit zero c h = inl (ground arith)
no_limit (suc q) c h =
    inr
      (record { above_required = ground arith; above_floor = ground arith; below_limit = inl refl })

with_limit :
    (q l : ℕ) (c : ℤ)
    → reserved_bytes (range (pos q) (pos (suc l))) ≡ ok c
    → Outcome (range (pos q) (pos (suc l))) c
unfolding reserved_bytes
with_limit q l c h = inr (record {
  above_required = ground arith;
  above_floor = ground arith;
  below_limit = inr (ground arith);
})

sound : (q l c : ℤ) → reserved_bytes (range q l) ≡ ok c → Outcome (range q l) c
sound (pos q) (pos zero) c h = no_limit q c h
sound (pos q) (pos (suc l)) c h = with_limit q l c h
sound (negsuc q) l c h = absurd (unfold reserved_bytes in ground arith)
sound (pos q) (negsuc l) c h = absurd (unfold reserved_bytes in ground arith)

-- A range that reservedBytes accepts either asks for nothing, and then nothing is reserved, or gets a
-- reservation that covers the required bytes and the API's floor and keeps below the limit.
pub reserved_bytes_sound :
    (r : CapacityRange) (c : ℤ)
    → reserved_bytes r ≡ ok c
    → ((r.required ≡ pos 0) × (r.limit ≡ pos 0) × (c ≡ pos 0)) ⊎ Fits r c
reserved_bytes_sound r c h = sound r.required r.limit c h
