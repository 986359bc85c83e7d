-- ===== src/Retyc/Tests.antt =====
-- Evaluations of client.go's functions.
use retyc_k8s_csi.Prelude.{◌*◌, ◌^◌, ◌≡◌, some, List, [], ◌∷◌, pos, arith}
use retyc_k8s_csi.Retyc.Stderr.{strip_ansi}
use retyc_k8s_csi.Retyc.Stderr.Segments.{
  Segment, shown, carriage_return, control, escape, open_control, render, strip_ansi-render,
}
use retyc_k8s_csi.Retyc.Size.{format_size}
use retyc_k8s_csi.Retyc.Size.Reading.{read_size, read-format_size}

-- A red "Er", a carriage return, a reset of the terminal, and the start of another sequence.
abbrev colored : List Segment
colored = control (51 ∷ 49 ∷ []) 109 ∷ shown 69 ∷ shown 114 ∷ carriage_return ∷ escape 99 ∷ []

strip_ansi-render_example : strip_ansi (render colored (open_control (50 ∷ []))) ≡ 69 ∷ 114 ∷ []
strip_ansi-render_example =
    strip_ansi-render colored (open_control (50 ∷ [])) (ground arith) (ground arith)

read-format_size_example : read_size (format_size (pos (5 * 2 ^ 30))) ≡ some (5 * 2 ^ 30)
read-format_size_example = read-format_size (5 * 2 ^ 30)
