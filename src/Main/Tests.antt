-- ===== src/Main/Tests.antt =====
-- main.go: a node plugin started by the chart.
use retyc_k8s_csi.Prelude.{true, none, some, [], ◌==◌, if◌then◌else◌, ◌≡◌, refl}
use retyc_k8s_csi.Mountpod.Sample.{formats}
use retyc_k8s_csi.Main.{NodeOptions, Process, node_id_of, namespace_of, first_text}

abbrev process : Process
process = record {
  getenv = λ k. if k == "NODE_NAME" then "n1" else "";
  hostname = none;
  read_file = λ path. none;
  decode = λ text. none;
  in_cluster = true;
  formats = formats;
  readers = record { duration = λ s. none; quantity = λ s. none; fields = λ s. [] };
}

abbrev flags : NodeOptions
flags = record { node_id = ""; mount_config = "/etc/mount.json"; namespace = "retyc" }

node_name : node_id_of process flags ≡ some "n1"
unfolding node_id_of first_text
node_name = refl

own_namespace : namespace_of process flags ≡ some "retyc"
unfolding namespace_of first_text
own_namespace = refl
