-- ===== src/Retyc/Commands.antt =====
-- The Client of client.go: each call execs the CLI with `--json` and decodes what it prints. The CLI
-- and encoding/json are parameters. Timeouts are failures of `exec`.
pub mod Laws
use Prim.Native.String.{◌++◌}
use mathlib.Core.List
use retyc_k8s_csi.Prelude.{
  ℕ, String, Bool, true, Option, none, some, List, [], ◌∷◌, Dict, ℤ, ltb, is_empty, if◌then◌else◌,
  Result, ok, err, Exec, pure, ◌>>=◌,
}
use retyc_k8s_csi.Identity.{merge_env}
use retyc_k8s_csi.Retyc.Errors.{CliError, Failure, cli, decoding, not_authenticated}
use retyc_k8s_csi.Retyc.Stderr.{StderrError, parse_stderr_error}
use retyc_k8s_csi.Retyc.Size.{format_size}

pub record DataroomCreateResult : Type 0 where
  pub id : String
  pub title : String

pub record DataroomDeleteResult : Type 0 where
  pub dataroom_id : String
  pub uri : String
  pub deleted_count : ℕ

-- `created_at` and `versioning_enabled` are decoded and never read.
pub record Dataroom : Type 0 where
  pub id : String
  pub title : String
  pub storage_capacity : Option ℤ

pub record UserQuota : Type 0 where
  pub count_dataroom : ℕ
  pub max_count_dataroom : Option ℕ
  pub is_upload_read_only : Bool

pub record AuthStatus : Type 0 where
  pub authenticated : Bool
  pub reason : List ℕ

-- How the subprocess ended: with a failure, its stderr and the text of the Go error, or well, with
-- its stdout.
pub data Reply : Type 0 where
  exited : List ℕ → List ℕ → Reply
  printed : List ℕ → Reply

-- The retyc binary over the state `W` of the world (`exec` takes the environment and the arguments),
-- and encoding/json at the types that the client decodes.
pub record Cli (W : Type 0) : Type 0 where
  pub exec : List String → List String → W → Reply × W
  pub unmarshal_error : List ℕ → Option StderrError
  pub decode_error : List ℕ → Option StderrError
  pub unmarshal_created : List ℕ → Option DataroomCreateResult
  pub unmarshal_deleted : List ℕ → Option DataroomDeleteResult
  pub unmarshal_page : List ℕ → Option (List Dataroom)
  pub unmarshal_quota : List ℕ → Option UserQuota
  pub unmarshal_auth : List ℕ → Option AuthStatus

-- `BinPath` and `Timeout` are in the parameter `exec`.
pub record Client : Type 0 where
  pub env : List String

abbrev pub words : List String → List String → List String
words = List.◌++◌

unfoldable pub setting_args : Option ℤ → Option Bool → List String
setting_args capacity versioning =
    words (elim capacity [ none ↦ [] | some c ↦ "--storage-capacity" ∷ (format_size c) ∷ [] ])
      (elim versioning [
        | none ↦ []
        | some v ↦ (if v then "--versioning=true" else "--versioning=false") ∷ []
      ])

-- HasDataroomQuota
unfoldable pub has_dataroom_quota : UserQuota → Bool
has_dataroom_quota q = elim q.max_count_dataroom [ none ↦ true | some m ↦ ltb q.count_dataroom m ]

-- WithEnv
unfoldable pub with_env : Client → Dict String → Client
with_env c overrides = record c { env = merge_env c.env overrides }

abbrev pub uri_of : String → String
uri_of id = "retyc://" ++ id

module _ {W : Type 0} (tool : Cli W) where
  -- The Error of a subprocess that failed.
  unfoldable pub cli_error : List String → List ℕ → List ℕ → CliError
  cli_error args stderr failure =
      let p = parse_stderr_error tool.unmarshal_error tool.decode_error stderr in
      record {
        args = args;
        message = if is_empty p.error then failure else p.error;
        kind = p.kind;
        status = p.status;
        detail = p.detail;
      }

  abbrev pub decoded : {A : Type 0} → (List ℕ → Option A) → List String → Reply → Result Failure A
  decoded decode args (exited stderr failure) = err (cli (cli_error args stderr failure))
  decoded decode args (printed stdout) = elim (decode stdout) [
    | none ↦ err decoding
    | some a ↦ ok a
  ]

  -- run: `decode` is json.Unmarshal at the type of `out`.
  unfoldable pub run : {A : Type 0} → Client → (List ℕ → Option A) → List String → Exec Failure W A
  run c decode args w =
      let (reply, w') = tool.exec c.env ("--json" ∷ args) w in (decoded decode args reply, w')

  -- A nil `out`: stdout is not decoded.
  abbrev pub ignore : List ℕ → Option (Unit {0})
  ignore _ = some tt

  unfoldable pub create_dataroom :
      Client → String → Option ℤ → Option Bool → Exec Failure W DataroomCreateResult
  create_dataroom c title capacity versioning =
      run c tool.unmarshal_created
        (words ("dataroom" ∷ "create" ∷ "--title" ∷ title ∷ []) (setting_args capacity versioning))

  unfoldable pub update_dataroom :
      Client → String → Option ℤ → Option Bool → Exec Failure W (Unit {0})
  update_dataroom c id capacity versioning =
      let settings = setting_args capacity versioning in
      if is_empty settings
      then pure tt
      else run c ignore (words (words ("dataroom" ∷ "set" ∷ (uri_of id) ∷ []) settings) ("-y" ∷ []))

  unfoldable pub delete_dataroom : Client → String → Exec Failure W DataroomDeleteResult
  delete_dataroom c id = run c tool.unmarshal_deleted ("dataroom" ∷ "rm" ∷ (uri_of id) ∷ "-y" ∷ [])

  unfoldable pub list_datarooms : Client → Exec Failure W (List Dataroom)
  list_datarooms c = run c tool.unmarshal_page ("dataroom" ∷ "ls" ∷ [])

  unfoldable pub quota : Client → Exec Failure W UserQuota
  quota c = run c tool.unmarshal_quota ("user" ∷ "quota" ∷ [])

  -- AuthStatusCheck
  unfoldable pub auth_status_check : Client → Exec Failure W (Unit {0})
  auth_status_check c = do
    st ← run c tool.unmarshal_auth ("auth" ∷ "status" ∷ [])
    if st.authenticated then pure tt else λ w. (err (not_authenticated st.reason), w)
