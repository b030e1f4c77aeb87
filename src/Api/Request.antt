-- ===== src/Api/Request.antt =====
-- What the functions of the two clients have in common. A request is what `fetch` is given; the
-- query is kept as its pairs, which `URL` encodes.
use Prim.Native.String.{◌++◌ as append}
use htn.Prelude.{
  ℕ, String, Bool, false, not, ◌&&◌, Option, none, some, List, [], ◌∷◌, leb, ℕ_eq, ◌==◌,
  if◌then◌else◌,
}

pub data Method : Type 0 where
  get post delete : Method

pub record Request : Type 0 where
  pub method : Method
  pub url : String
  pub query : List (String × String)
  pub body : Option String

-- A request, the message for a refusal, and whether a missing resource means that no session is live.
pub record Call : Type 0 where
  pub request : Request
  pub failure : String
  pub may_be_missing : Bool

abbrev pub call : Method → String → List (String × String) → Option String → String → Call
call method url query body failure = record {
  request = record { method = method; url = url; query = query; body = body };
  failure = failure;
  may_be_missing = false;
}

-- What the promise settles with.
pub data Settled (A : Type 0) : Type 0 where
  resolved : A → Settled A
  no_live_session : Settled A
  rejected : String → Settled A

-- `res.ok`
unfoldable pub is_ok : ℕ → Bool
is_ok status = leb 200 status && leb status 299

module _ (show : ℕ → String) where
  -- The message of a refusal.
  abbrev pub refusal : Call → ℕ → String
  refusal c status = append c.failure (append ": " (show status))

  -- The end of each of the functions, for a status and what the body holds.
  unfoldable pub settle : {A : Type 0} → Call → ℕ → A → Settled A
  unfolding is_ok
  settle c status content =
      if c.may_be_missing && (status == 404)
      then no_live_session
      else if not (is_ok status)
      then rejected (refusal c status)
      else resolved content

-- A parameter that is set only if it is given.
abbrev pub optional : String → Option String → List (String × String)
optional key none = []
optional key (some value) = (key, value) ∷ []
