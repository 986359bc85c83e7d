-- ===== src/Health.antt =====
-- internal/health/health.go, and Probe of internal/driver/identity.go: what /readyz and Probe answer, and
-- the check that Cached runs at most once per ttl.
pub mod Fresh
mod Tests
use Prim.Native.String.{◌++◌}
use retyc_k8s_csi.Prelude.{
  ℕ, ◌+◌, String, Bool, true, false, Option, none, some, ltb, if◌then◌else◌,
}

-- An HTTP answer: its status code and its body.
pub record Response : Type 0 where
  pub code : ℕ
  pub body : String

unfoldable pub ready_response : Option String → Response
ready_response (some reason) = record { code = 503; body = "not ready: " ++ reason ++ "\n" }
ready_response none = record { code = 200; body = "ok\n" }

-- The handler of /readyz.
unfoldable pub readyz : {W : Type 0} → Option (W → Option String × W) → W → Response × W
readyz none w = (ready_response none, w)
readyz (some check) w = let (r, w') = check w in (ready_response r, w')

unfoldable pub probe_answer : Option String → Bool
probe_answer (some reason) = false
probe_answer none = true

-- Probe: the `ready` of its response, which is never an error.
unfoldable pub probe : {W : Type 0} → Option (W → Option String × W) → W → Bool × W
probe none w = (true, w)
probe (some check) w = let (r, w') = check w in (probe_answer r, w')

-- The variables that the function of Cached keeps, `checked` none for the zero time, and the world.
pub record CachedState (W : Type 0) : Type 0 where
  pub last : Option String
  pub checked : Option ℕ
  pub world : W

-- `!checked.IsZero() && time.Since(checked) < ttl`
unfoldable pub is_recent : ℕ → Option ℕ → ℕ → Bool
is_recent ttl none now = false
is_recent ttl (some t) now = ltb now (t + ttl)

-- `last = check(ctx); checked = time.Now()`
unfoldable pub check_again :
    {W : Type 0} → (W → ℕ) → Option String × W → Option String × CachedState W
check_again clock (r, w) = (r, record { last = r; checked = some (clock w); world = w })

-- The function that Cached returns, one call at a time under its mutex.
unfoldable pub cached :
    {W : Type 0}
    → (W → ℕ)
    → (W → Option String × W)
    → ℕ
    → CachedState W
    → Option String × CachedState W
cached clock check ttl c =
    if is_recent ttl c.checked (clock c.world)
    then (c.last, c)
    else check_again clock (check c.world)
