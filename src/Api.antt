-- ===== src/Api.antt =====
-- backend/src/api.rs: what the API decides before it calls the runner. Routing and SQL are not
-- modelled; the URL parser of `reqwest` and `str::parse` are parameters.
pub mod Resume
mod Tests
use doc_craft_agent.Prelude.{
  ℕ, ◌+◌, ◌-◌, Bool, true, false, not, ◌&&◌, ◌||◌, Option, none, some, List, [], ◌∷◌, ltb, ◌==◌,
  if◌then◌else◌, Text, text, text_eq, is_empty, contains, any,
}

-- what `allowed_origin` reads of a `reqwest::Url`
pub record OriginUrl : Type 0 where
  pub scheme : Text
  pub host : Option Text
  pub port : Option ℕ
  pub username : Text
  pub password : Option Text
  pub path : Text
  pub query : Option Text
  pub fragment : Option Text

abbrev pub is_none {ℓ} : {A : Type ℓ} → Option A → Bool
is_none none = true
is_none (some a) = false

abbrev pub holds {ℓ} : {A : Type ℓ} → (A → Bool) → Option A → Bool
holds p none = false
holds p (some a) = p a

unfoldable pub origin_ok : ℕ → ℕ → OriginUrl → Bool
origin_ok backend_port frontend_port u =
    text_eq u.scheme (text "http")
    && holds (contains (text "127.0.0.1" ∷ text "localhost" ∷ [])) u.host
    && holds (λ p. p == backend_port || p == frontend_port) u.port
    && is_empty u.username
    && is_none u.password
    && text_eq u.path (text "/")
    && is_none u.query
    && is_none u.fragment

unfoldable pub allowed_origin : (Text → Option OriginUrl) → Text → ℕ → ℕ → Bool
unfolding origin_ok
allowed_origin parse origin backend_port frontend_port =
    holds (origin_ok backend_port frontend_port) (parse origin)

-- the permits of the semaphore
unfoldable pub adjust_slots : ℕ → ℕ → ℕ → ℕ
adjust_slots permits old new = if ltb old new then permits + (new - old) else permits - (old - new)

abbrev pub or_else {ℓ} : {A : Type ℓ} → Option A → Option A → Option A
or_else none b = b
or_else (some a) b = some a

abbrev pub parsed : (Text → Option ℕ) → Option Text → Option ℕ
parsed parse none = none
parsed parse (some h) = parse h

-- `header` is the header `last-event-id`, where it is text
unfoldable pub event_cursor : (Text → Option ℕ) → Option ℕ → Option Text → ℕ
event_cursor parse after header = elim (or_else (parsed parse header) after) [
  | none ↦ 0
  | some n ↦ n
]

unfoldable pub stream_terminal : Text → Bool
stream_terminal status =
    not (
      contains (text "queued" ∷ text "running" ∷ text "cancelling" ∷ text "interrupted" ∷ [])
        status)
