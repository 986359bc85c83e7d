-- ===== src/Mountpod/Config/Tests.antt =====
-- manager.go: tags of images, and the defaults of an empty configuration.
use retyc_k8s_csi.Prelude.{◌≡◌, refl}
use retyc_k8s_csi.Mountpod.Config.{image_tag, before_digest, last_index, is_behind, text_behind}

tag : image_tag "registry:5000/retyc/cli:1.4@sha256:00" ≡ "1.4"
unfolding image_tag before_digest last_index is_behind text_behind
tag = refl

no_tag : image_tag "registry:5000/retyc/cli" ≡ ""
unfolding image_tag before_digest last_index is_behind text_behind
no_tag = refl
