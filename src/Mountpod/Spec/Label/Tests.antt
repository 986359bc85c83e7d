-- ===== src/Mountpod/Spec/Label/Tests.antt =====
-- pod.go: a name that is no label value, with its hash.
use retyc_k8s_csi.Prelude.{false, ◌≡◌, ◌⊎◌, refl, arith}
use retyc_k8s_csi.Mountpod.Sample.{formats}
use retyc_k8s_csi.Mountpod.Spec.{Formats}
use retyc_k8s_csi.Mountpod.Spec.Label.{
  label_value, is_label_char, blank_out, sanitized, shortened, trim_left,
}
use retyc_k8s_csi.Mountpod.Spec.Label.Valid.{IsLabelValue, IsHash, label_value-IsLabelValue}

abbrev hashing : Formats
hashing = record formats { is_label = λ v. false; digest8 = λ v. "0123456789abcdef" }

spaced : label_value hashing "_my volume" ≡ "my_volume-0123456789abcdef"
unfolding label_value sanitized blank_out is_label_char shortened trim_left
spaced = refl

only_separators : label_value hashing ".-." ≡ "0123456789abcdef"
unfolding label_value sanitized blank_out is_label_char shortened trim_left
only_separators = refl

hash : IsHash "0123456789abcdef"
hash = record { digits = refl; long = refl }

label_value-IsLabelValue_example :
    (label_value hashing "_my volume" ≡ "") ⊎ IsLabelValue (label_value hashing "_my volume")
label_value-IsLabelValue_example =
    label_value-IsLabelValue hashing (λ v h. ground arith) (λ v. hash) "_my volume"
