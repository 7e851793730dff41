-- ===== src/Dashboard/Server.antt =====
-- src/dashboard/server.rs: the routes, their handlers and the loop of a web socket. What was built into
-- the program, whether a file operation works, the text of a state and whether a message can be sent
-- are arguments.
use rust_hft.Common.{Bool, true, false, Option, none, some, List, [], ◌∷◌, String, if◌then◌else◌}
use rust_hft.Double.{Double}
use rust_hft.Dashboard.Defs.{SharedState, DashboardState, to_dashboard_state}

pub data Handler : Type 0 where
  index_handler : Handler
  chart_js_handler : Handler
  ws_handler : Handler
  halt_handler : Handler
  resume_handler : Handler

abbrev pub routes : List (String × Handler)
routes =
    ("/", index_handler)
    ∷ ("/chart.js", chart_js_handler)
    ∷ ("/ws", ws_handler)
    ∷ ("/halt", halt_handler)
    ∷ ("/resume", resume_handler)
    ∷ []

-- The two files that `include_str!` puts into the program.
pub record Assets : Type 0 where
  pub dashboard_html : String
  pub chart_js : String

pub data Response : Type 0 where
  html : String → Response
  -- a content type and a body
  typed : String → String → Response
  plain : String → Response
  -- the connection becomes a web socket
  upgrade : Response

abbrev pub answer : Assets → Handler → Response
answer assets index_handler = html assets.dashboard_html
answer assets chart_js_handler = typed "application/javascript" assets.chart_js
answer assets ws_handler = upgrade
answer assets halt_handler = plain "OK"
answer assets resume_handler = plain "OK"

-- What the handlers share with the other tasks: the state, and whether the file HALT exists.
pub record Server (F : Type 0) : Type 0 where
  pub state : SharedState F
  pub halt_file : Bool

module _ {F : Type 0} where
  abbrev pub set_halt : Bool → Bool → Server F → Server F
  set_halt flag worked s = record {
    state = record (s.state) { halt_flag = flag };
    halt_file = if worked then flag else s.halt_file;
  }

  -- What a handler changes; `worked` says whether the file was written or removed.
  abbrev pub perform : Handler → Bool → Server F → Server F
  perform index_handler worked s = s
  perform chart_js_handler worked s = s
  perform ws_handler worked s = s
  perform halt_handler worked s = set_halt true worked s
  perform resume_handler worked s = set_halt false worked s

  -- Requests one after the other, and the answers to them.
  unfoldable pub serve : Assets → Server F → List (Handler × Bool) → Server F × List Response
  serve assets s [] = (s, [])
  serve assets s ((h, worked) ∷ requests) =
      let rest = serve assets (perform h worked s) requests in (rest.0, answer assets h ∷ rest.1)

module _ {F : Type 0} ⦃d : Double F⦄ (to_string : DashboardState F → Option String) where
  -- One round of the loop: the state's text, whether a message can be sent, and the rounds after it.
  abbrev pub after_json : Option String → Bool → List String × Bool → List String × Bool
  after_json none arrives rest = rest
  after_json (some json) true rest = (json ∷ rest.0, rest.1)
  after_json (some json) false rest = ([], false)

  -- The loop over the ticks: the messages sent, and whether it goes on.
  unfoldable pub handle_ws : List (SharedState F × Bool) → List String × Bool
  handle_ws [] = ([], true)
  handle_ws ((s, arrives) ∷ ticks) =
      let rest = handle_ws ticks in after_json (to_string (to_dashboard_state s)) arrives rest
