-- ===== src/Api/Tests.antt =====
-- Origins, cursors and permits (the unit tests of backend/src/api.rs).
use doc_craft_agent.Prelude.{
  ℕ, ◌≡◌, refl, true, false, Option, none, some, [], Text, text, text_eq, contains, is_empty,
}
use doc_craft_agent.Api.{
  OriginUrl, allowed_origin, origin_ok, adjust_slots, event_cursor, stream_terminal,
}

abbrev at_port : ℕ → Text → Option OriginUrl
at_port port origin = some (record {
  scheme = text "http";
  host = some (text "localhost");
  port = some port;
  username = [];
  password = none;
  path = text "/";
  query = none;
  fragment = none;
})

frontend_allowed : allowed_origin (at_port 5173) (text "http://localhost:5173") 8787 5173 ≡ true
unfolding allowed_origin origin_ok contains text_eq is_empty
frontend_allowed = refl

other_port_refused : allowed_origin (at_port 80) (text "http://localhost") 8787 5173 ≡ false
unfolding allowed_origin origin_ok contains text_eq is_empty
other_port_refused = refl

header_first : event_cursor (λ h. some 7) (some 3) (some (text "7")) ≡ 7
unfolding event_cursor
header_first = refl

query_next : event_cursor (λ h. none) (some 3) (some (text "x")) ≡ 3
unfolding event_cursor
query_next = refl

permits_taken : adjust_slots 4 4 1 ≡ 1
unfolding adjust_slots
permits_taken = refl

running_goes_on : stream_terminal (text "running") ≡ false
unfolding stream_terminal contains text_eq
running_goes_on = refl
