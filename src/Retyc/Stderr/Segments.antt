-- ===== src/Retyc/Stderr/Segments.antt =====
-- stripANSI of client.go against the syntax of a terminal's output: characters, carriage returns, control
-- sequences `ESC [ parameters final` and escapes of two characters.
use retyc_k8s_csi.Prelude.{ℕ, ◌≡◌, ◌≢◌, refl, ◌∙◌, ◌⊎◌, ◌<◌, ◌≤◌, List, [], ◌∷◌, ◌++◌, All, arith}
use retyc_k8s_csi.Retyc.Stderr.{text, in_csi, next_state, is_written, strip_from, strip_ansi}

pub data Segment : Type 0 where
  shown : ℕ → Segment
  carriage_return : Segment
  control : List ℕ → ℕ → Segment
  escape : ℕ → Segment

-- The final character of a control sequence.
abbrev pub IsFinal : ℕ → Type 0
IsFinal c = (0x40 ≤ c) × (c ≤ 0x7e)

abbrev pub IsSegment : Segment → Type 0
IsSegment (shown c) = (c ≢ 0x1b) × (c ≢ 13)
IsSegment carriage_return = Unit
IsSegment (control parameters final) = All (λ c. (c < 0x40) ⊎ (0x7e < c)) parameters × IsFinal final
IsSegment (escape c) = c ≢ b'['

abbrev pub render_segment : Segment → List ℕ
render_segment (shown c) = c ∷ []
render_segment carriage_return = 13 ∷ []
render_segment (control parameters final) = 0x1b ∷ b'[' ∷ (parameters ++ final ∷ [])
render_segment (escape c) = 0x1b ∷ c ∷ []

-- Where a text ends: behind a segment, or inside an escape or a control sequence.
pub data Ending : Type 0 where
  complete lone_escape : Ending
  open_control : List ℕ → Ending

abbrev pub IsParameters : List ℕ → Type 0
IsParameters = All (λ c. (c < 0x40) ⊎ (0x7e < c))

abbrev pub IsEnding : Ending → Type 0
IsEnding complete = Unit
IsEnding lone_escape = Unit
IsEnding (open_control parameters) = IsParameters parameters

abbrev pub render_ending : Ending → List ℕ
render_ending complete = []
render_ending lone_escape = 0x1b ∷ []
render_ending (open_control parameters) = 0x1b ∷ b'[' ∷ parameters

abbrev pub render : List Segment → Ending → List ℕ
render [] end = render_ending end
render (s ∷ segments) end = render_segment s ++ render segments end

-- What a reader sees of it.
abbrev pub visible : List Segment → List ℕ
visible [] = []
visible (shown c ∷ segments) = c ∷ visible segments
visible (carriage_return ∷ segments) = visible segments
visible (control parameters final ∷ segments) = visible segments
visible (escape c ∷ segments) = visible segments

-- Parameters and the final character are dropped.
in_control :
    (parameters : List ℕ) (final : ℕ) (rest : List ℕ)
    → All (λ c. (c < 0x40) ⊎ (0x7e < c)) parameters
    → IsFinal final
    → strip_from in_csi ((parameters ++ final ∷ []) ++ rest) ≡ strip_from text rest
unfolding strip_from is_written next_state
in_control [] final rest h f = ground arith
in_control (c ∷ parameters) final rest h f = ground (arith, in_control parameters final rest h.1 f)

in_open_control :
    (parameters : List ℕ) → IsParameters parameters → strip_from in_csi parameters ≡ []
unfolding strip_from is_written next_state
in_open_control [] h = refl
in_open_control (c ∷ parameters) h = ground (arith, in_open_control parameters h.1)

at_ending : (end : Ending) → IsEnding end → strip_from text (render_ending end) ≡ []
unfolding strip_from is_written next_state
at_ending complete h = refl
at_ending lone_escape h = refl
at_ending (open_control parameters) h = in_open_control parameters h

strip_from-render :
    (segments : List Segment) (end : Ending)
    → All IsSegment segments
    → IsEnding end
    → strip_from text (render segments end) ≡ visible segments
unfolding strip_from is_written next_state
strip_from-render [] end h k = at_ending end k
strip_from-render (shown c ∷ segments) end h k =
    ground (arith, strip_from-render segments end h.1 k)
strip_from-render (carriage_return ∷ segments) end h k = strip_from-render segments end h.1 k
strip_from-render (control parameters final ∷ segments) end h k =
    in_control parameters final (render segments end) h.0.0 h.0.1
    ∙ strip_from-render segments end h.1 k
strip_from-render (escape c ∷ segments) end h k =
    ground (arith, strip_from-render segments end h.1 k)

-- stripANSI takes the carriage returns, the control sequences and the escapes of two characters out of a
-- text that is made of these and of other characters, with one of them cut off at its end, if it is, and
-- leaves all else as it is.
pub strip_ansi-render :
    (segments : List Segment) (end : Ending)
    → All IsSegment segments
    → IsEnding end
    → strip_ansi (render segments end) ≡ visible segments
unfolding strip_ansi
strip_ansi-render = strip_from-render
